-- ===== src/App/Lifecycle/Sound.antt =====
-- What runs while the environment of src/App.cpp stands.
use wsgateway.Prelude.{ℕ, suc, ◌+◌, ◌≤◌, ◌<◌, ◌≡◌, ◌≢◌, refl, true, List, [], ◌∷◌, arith, length}
use wsgateway.App.Providers.{Provider}
use wsgateway.App.Lifecycle.{
  not_started, running, Main, building, spawning, joining, resetting, joining_io, destroying,
  leaving, gone, Process, started, Step, throws, builds, spawns, skips, all_spawned, stops, joins,
  all_joined, works, resets, io_ends, io_joins, destroys, leaves, Reach, here, next,
}
use wsgateway.App.Lifecycle.Placed.{
  begun_of, Placed, Placed-stops, Placed-io_ends, held_by_server, held_by_io,
}

-- The number of providers that the loop has not reached.
abbrev pub ahead : List Provider → Main → ℕ
ahead providers building = length providers
ahead providers (spawning ps) = length ps
ahead providers m = 0

pub record IsSound (providers : List Provider) (s : Process) : Type 0 where
  pub placed : Placed s.main s.spawned s.server s.io s.guard s.destroyed
  pub born : (i : ℕ) → i < s.spawned → s.server i ≢ not_started
  pub unborn : (i : ℕ) → s.spawned ≤ i → s.server i ≡ not_started
  pub fewer : s.spawned + ahead providers s.main ≤ length providers

module _ (providers : List Provider) where
  pub Step-IsSound :
      {s t : Process} → Step providers s t → IsSound providers s → IsSound providers t
  Step-IsSound (throws s e) v =
      let p : Placed building s.spawned s.server s.io s.guard s.destroyed = rw e at v.placed in
      record {
        placed = ((λ x. cc), rw (p.1, p.3), λ i h. absurd (omega (arith, p.0)));
        born = v.born;
        unborn = v.unborn;
        fewer = omega (arith, v.fewer);
      }
  Step-IsSound (builds s e) v =
      let p : Placed building s.spawned s.server s.io s.guard s.destroyed = rw e at v.placed in
      record {
        placed = (refl, p.2, p.3);
        born = v.born;
        unborn = v.unborn;
        fewer = rw e at v.fewer;
      }
  Step-IsSound (spawns s p ps e) v =
      let q : Placed (spawning (p ∷ ps)) s.spawned s.server s.io s.guard s.destroyed =
        rw e at v.placed in
      let f : s.spawned + length (p ∷ ps) ≤ length providers = rw e at v.fewer in
      record {
        placed = q;
        born = λ i h. ground (arith, v.born i);
        unborn = λ i h. ground (arith, v.unborn i);
        fewer = omega (arith, f);
      }
  Step-IsSound (skips s p ps e) v =
      let q : Placed (spawning (p ∷ ps)) s.spawned s.server s.io s.guard s.destroyed =
        rw e at v.placed in
      let f : s.spawned + length (p ∷ ps) ≤ length providers = rw e at v.fewer in
      record { placed = q; born = v.born; unborn = v.unborn; fewer = omega (arith, f) }
  Step-IsSound (all_spawned s e) v =
      let q : Placed (spawning []) s.spawned s.server s.io s.guard s.destroyed = rw e at v.placed in
      record {
        placed = (q.0, q.1, q.2, (λ i h. absurd (omega arith)), omega arith);
        born = v.born;
        unborn = v.unborn;
        fewer = rw e at v.fewer;
      }
  Step-IsSound (stops s i e) v = record {
    placed = Placed-stops s.main s.spawned s.server s.io s.guard s.destroyed i v.placed;
    born = λ j h. ground (arith, v.born j);
    unborn = λ j h. ground (arith, v.unborn j);
    fewer = v.fewer;
  }
  Step-IsSound (joins s i e h on) v =
      let q : Placed (joining i) s.spawned s.server s.io s.guard s.destroyed = rw e at v.placed in
      record {
        placed = (q.0, q.1, q.2, (λ j k. ground (arith, q.3 j)), omega (arith, h));
        born = v.born;
        unborn = v.unborn;
        fewer = rw e at v.fewer;
      }
  Step-IsSound (all_joined s e) v =
      let q : Placed (joining s.spawned) s.spawned s.server s.io s.guard s.destroyed =
        rw e at v.placed in
      record {
        placed = (q.0, q.1, q.2, q.3);
        born = v.born;
        unborn = v.unborn;
        fewer = rw e at v.fewer;
      }
  Step-IsSound (works s n) v = record {
    placed = v.placed;
    born = v.born;
    unborn = v.unborn;
    fewer = v.fewer;
  }
  Step-IsSound (resets s e) v =
      let q : Placed resetting s.spawned s.server s.io s.guard s.destroyed = rw e at v.placed in
      record {
        placed = ((λ x. cc), refl, q.2, q.3);
        born = v.born;
        unborn = v.unborn;
        fewer = rw e at v.fewer;
      }
  Step-IsSound (io_ends s on off idle) v = record {
    placed = Placed-io_ends s.main s.spawned s.server s.io s.guard s.destroyed on off v.placed;
    born = v.born;
    unborn = v.unborn;
    fewer = v.fewer;
  }
  Step-IsSound (io_joins s e on) v =
      let q : Placed joining_io s.spawned s.server s.io s.guard s.destroyed = rw e at v.placed in
      record { placed = (on, q.2, q.3); born = v.born; unborn = v.unborn; fewer = rw e at v.fewer }
  Step-IsSound (destroys s e) v =
      let q : Placed destroying s.spawned s.server s.io s.guard s.destroyed = rw e at v.placed in
      record {
        placed = ((λ x. cc), rw (q.0, q.1), q.2);
        born = v.born;
        unborn = v.unborn;
        fewer = rw e at v.fewer;
      }
  Step-IsSound (leaves s e) v =
      let q : Placed leaving s.spawned s.server s.io s.guard s.destroyed = rw e at v.placed in
      record {
        placed = (q.0, omega (arith, q.1), q.2);
        born = v.born;
        unborn = v.unborn;
        fewer = rw e at v.fewer;
      }

  started-IsSound : IsSound providers started
  started-IsSound = record {
    placed = (refl, refl, refl, refl);
    born = λ i h. absurd (omega arith);
    unborn = λ i h. refl;
    fewer = omega arith;
  }

  pub Reach-IsSound : {s : Process} → Reach providers started s → IsSound providers s
  Reach-IsSound here = started-IsSound
  Reach-IsSound (next r step) = Step-IsSound step (Reach-IsSound r)

-- In every state that the process reaches, however its threads are interleaved: it has at most one
-- server for each provider; while a server runs, the `io_context` runs too, its guard is held and
-- `Environment::destroy` has not been called; nor has it while the `io_context` runs; and behind
-- `main` no server runs and it has been called twice, or once where an exception has come before
-- the thread of the `io_context`.
pub Reach-stands :
    (providers : List Provider) {s : Process}
    → Reach providers started s
    → (s.spawned ≤ length providers)
      × ((i : ℕ) → s.server i ≡ running → (s.io ≡ running) × (s.guard ≡ true) × (s.destroyed ≡ 0))
      × (s.io ≡ running → s.destroyed ≡ 0)
      × (s.main ≡ gone → ((i : ℕ) → s.server i ≢ running) × (s.destroyed ≡ suc (begun_of s.io)))
Reach-stands providers {s} r = (
  omega (arith, v.fewer),
  (λ i on. by_server i on),
  (λ on. held_by_io s.main s.spawned s.server s.io s.guard s.destroyed v.placed on),
  (λ e. by_end (rw e at v.placed)),
)
  where
    v : IsSound providers s
    v = Reach-IsSound providers r

    by_server :
        (i : ℕ) → s.server i ≡ running → (s.io ≡ running) × (s.guard ≡ true) × (s.destroyed ≡ 0)
    by_server i on =
        held_by_server s.main s.spawned s.server s.io s.guard s.destroyed i v.placed
          (ground (arith, v.unborn i)) on

    by_end :
        Placed gone s.spawned s.server s.io s.guard s.destroyed
        → ((i : ℕ) → s.server i ≢ running) × (s.destroyed ≡ suc (begun_of s.io))
    by_end p = ((λ i on. ground (arith, v.unborn i, p.2 i)), p.1)
