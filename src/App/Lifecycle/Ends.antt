-- ===== src/App/Lifecycle/Ends.antt =====
-- The process of src/App.cpp ends once its servers are stopped.
use wsgateway.Prelude.{at, nat_refl, ℕ, zero, suc, ◌+◌, ◌-◌, ◌<◌, ◌≡◌, refl, List, [], ◌∷◌, arith}
use wsgateway.App.Providers.{Provider}
use wsgateway.App.Lifecycle.{
  Thread, not_started, running, ended, Main, building, spawning, joining, resetting, joining_io,
  destroying, leaving, gone, Process, started, Step, builds, spawns, all_spawned, stops, joins,
  all_joined, works, resets, io_ends, io_joins, destroys, leaves, Reach, here, next,
}
use wsgateway.App.Lifecycle.Sound.{IsSound, Step-IsSound, Reach-IsSound}
use wsgateway.App.Lifecycle.Placed.{Placed}

module _ (providers : List Provider) where
  Reach-trans : {s t u : Process} → Reach providers s t → Reach providers t u → Reach providers s u
  Reach-trans r here = r
  Reach-trans r (next q step) = next (Reach-trans r q) step

  -- A run from a state to the process's end.
  abbrev pub Ends : Process → Type 0
  Ends s = (t : Process) × Reach providers s t × (t.main ≡ gone)

  Ends-before : {s t : Process} → Step providers s t → Ends t → Ends s
  Ends-before step (u, r, e) = (u, Reach-trans (next here step) r, e)

  from_leaving : (s : Process) → s.main ≡ leaving → Ends s
  from_leaving s e = Ends-before (leaves s e) (_, here, refl)

  from_destroying : (s : Process) → s.main ≡ destroying → Ends s
  from_destroying s e = Ends-before (destroys s e) (from_leaving _ refl)

  from_joining_io : (s : Process) → IsSound providers s → s.main ≡ joining_io → Ends s
  from_joining_io s v e = by_io s.io refl
    where
      p : Placed joining_io s.spawned s.server s.io s.guard s.destroyed
      p = rw e at v.placed

      by_io : (t : Thread) → s.io ≡ t → Ends s
      by_io not_started on = absurd (p.0 on)
      by_io running on = Ends-before (works s 0) (
          Ends-before (io_ends _ on p.1 refl)
            (Ends-before (io_joins _ e refl) (from_destroying _ refl)))
      by_io ended on = Ends-before (io_joins s e on) (from_destroying _ refl)

  from_resetting : (s : Process) → IsSound providers s → s.main ≡ resetting → Ends s
  from_resetting s v e =
      let step = resets s e in
      Ends-before step (from_joining_io _ (Step-IsSound providers step v) refl)

  -- The next server is joined; it is stopped first if it still runs.
  join_next :
      (i : ℕ) (s : Process)
      → IsSound providers s
      → s.main ≡ joining i
      → i < s.spawned
      → (t : Process) × Reach providers s t
        × IsSound providers t
        × (t.main ≡ joining (i + 1))
        × (t.spawned ≡ s.spawned)
  join_next i s v e below = by_server (s.server i) refl
    where
      by_server :
          (t : Thread)
          → s.server i ≡ t
          → (t : Process) × Reach providers s t
            × IsSound providers t
            × (t.main ≡ joining (i + 1))
            × (t.spawned ≡ s.spawned)
      by_server not_started on = absurd (v.born i below on)
      by_server running on =
          let stop = stops s i on in
          let step =
            joins (record s { server = at i ended s.server }) i e below (rw (nat_refl i)) in
          (
            _,
            next (next here stop) step,
            Step-IsSound providers step (Step-IsSound providers stop v),
            refl,
            refl,
          )
      by_server ended on =
          let step = joins s i e below on in
          (_, next here step, Step-IsSound providers step v, refl, refl)

  from_joining :
      (f i : ℕ) (s : Process)
      → IsSound providers s
      → s.main ≡ joining i
      → i + f ≡ s.spawned
      → Ends s
  from_joining zero i s v e h =
      let same : i ≡ s.spawned = omega (arith, h) in
      let step = all_joined s (rw (← same) e) in
      Ends-before step (from_resetting _ (Step-IsSound providers step v) refl)
  from_joining (suc f) i s v e h =
      let (t, r, sound, on, as_many) = join_next i s v e (omega (arith, h)) in
      let (u, q, end) = from_joining f (i + 1) t sound on (omega (arith, h, as_many)) in
      (u, Reach-trans r q, end)

  from_spawning :
      (ps : List Provider) (s : Process) → IsSound providers s → s.main ≡ spawning ps → Ends s
  from_spawning [] s v e =
      let step = all_spawned s e in
      Ends-before step
        (from_joining s.spawned 0 _ (Step-IsSound providers step v) refl (omega arith))
  from_spawning (p ∷ ps) s v e =
      let step = spawns s p ps e in
      Ends-before step (from_spawning ps _ (Step-IsSound providers step v) refl)

  -- From every state that the process reaches there is a run to the end of `main`, in which the
  -- servers are stopped and the coroutines end: none of the joins waits for a thread that needs the
  -- main thread to go on.
  pub Reach-Ends : {s : Process} → Reach providers started s → Ends s
  Reach-Ends {s} r = by_main s.main refl
    where
      v : IsSound providers s
      v = Reach-IsSound providers r

      by_main : (m : Main) → s.main ≡ m → Ends s
      by_main building e =
          let step = builds s e in
          Ends-before step (from_spawning providers _ (Step-IsSound providers step v) refl)
      by_main (spawning ps) e = from_spawning ps s v e
      by_main (joining i) e =
          let p : Placed (joining i) s.spawned s.server s.io s.guard s.destroyed =
            rw e at v.placed in
          from_joining (s.spawned - i) i s v e (omega (arith, p.4))
      by_main resetting e = from_resetting s v e
      by_main joining_io e = from_joining_io s v e
      by_main destroying e = from_destroying s e
      by_main leaving e = from_leaving s e
      by_main gone e = (s, here, e)
