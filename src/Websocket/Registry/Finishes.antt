-- ===== src/Websocket/Registry/Finishes.antt =====
-- The spin lock of src/websocket/WebSocketComponents.h: no thread waits for it for ever, if the
-- other ones are run.
use wsgateway.Prelude.{
  at, ℕ, ◌≡◌, refl, sym, ap, ◌∙◌, inl, inr, true, false, arith, ◌==◌, nat_refl, nat-eq, Bool-cases,
  Bytes,
}
use wsgateway.Websocket.Registry.Race.{
  System, Operation, Place, waiting, holding, changed, storing, finished, Move, acquires, spins,
  changes, releases, stores, fails, Moves, start, then_move, inside, IsExclusive, Moves-IsExclusive,
}

-- While the lock is set, a thread is between the lock and its release.
pub record IsHeld (s : System) : Type 0 where
  pub holder : s.lock ≡ true → (i : ℕ) × (inside (s.place i) ≡ true)

-- Thread i goes to another place, where it is still inside or was not before.
holder_at :
    (place : ℕ → Place) (i : ℕ) (p : Place)
    → inside (place i) ≡ inside p
    → (j : ℕ) × (inside (place j) ≡ true)
    → (j : ℕ) × (inside (at i p place j) ≡ true)
holder_at place i p same (j, on) = (
  j,
  elim (Bool-cases (i == j)) [
    | inl hit ↦
        let own : inside p ≡ true = sym same ∙ ap (λ k. inside (place k)) (nat-eq i j hit) ∙ on in
        rw hit own
    | inr miss ↦ rw miss on
  ],
)

-- A thread outside is none that is inside.
apart :
    (place : ℕ → Place) (i j : ℕ)
    → inside (place i) ≡ false
    → inside (place j) ≡ true
    → (j == i) ≡ false
apart place i j out on = elim (Bool-cases (j == i)) [
  | inl hit ↦
      let both : true ≡ false = sym on ∙ ap (λ k. inside (place k)) (nat-eq j i hit) ∙ out in
      absurd (cc)
  | inr miss ↦ miss
]

module _ (server : Bytes) where
  Move-IsHeld : {s t : System} → Move server s t → IsHeld s → IsHeld t
  Move-IsHeld (acquires s i o at_i clear) v = record { holder = λ e. (i, rw (nat_refl i) refl) }
  Move-IsHeld (spins s i o at_i taken) v = v
  Move-IsHeld (changes s i o at_i) v = record {
    holder = λ e. holder_at s.place i (changed o) (ap inside at_i) (v.holder e);
  }
  Move-IsHeld (releases s i o at_i) v = record { holder = λ e. absurd (cc) }
  Move-IsHeld (stores s i o at_i) v = record {
    holder = λ e. holder_at s.place i finished (ap inside at_i) (v.holder e);
  }
  Move-IsHeld (fails s i o at_i) v = record {
    holder = λ e. holder_at s.place i finished (ap inside at_i) (v.holder e);
  }

  Moves-IsHeld : {s t : System} → Moves server s t → IsHeld s → IsHeld t
  Moves-IsHeld start v = v
  Moves-IsHeld (then_move r m) v = Move-IsHeld m (Moves-IsHeld r v)

  Moves-trans : {s t u : System} → Moves server s t → Moves server t u → Moves server s u
  Moves-trans r start = r
  Moves-trans r (then_move q m) = then_move (Moves-trans r q) m

  -- A run behind which thread i is at its end.
  abbrev pub Finishes : ℕ → System → Type 0
  Finishes i s = (t : System) × Moves server s t × (t.place i ≡ finished)

  run_on : (i : ℕ) {s t : System} → Move server s t → Finishes i t → Finishes i s
  run_on i m (u, r, done) = (u, Moves-trans (then_move start m) r, done)

  finish_storing : (s : System) (i : ℕ) (o : Operation) → s.place i ≡ storing o → Finishes i s
  finish_storing s i o at_i = (_, then_move start (stores s i o at_i), rw (nat_refl i) refl)

  finish_changed : (s : System) (i : ℕ) (o : Operation) → s.place i ≡ changed o → Finishes i s
  finish_changed s i o at_i =
      run_on i (releases s i o at_i) (finish_storing _ i o (rw (nat_refl i) refl))

  finish_holding : (s : System) (i : ℕ) (o : Operation) → s.place i ≡ holding o → Finishes i s
  finish_holding s i o at_i =
      run_on i (changes s i o at_i) (finish_changed _ i o (rw (nat_refl i) refl))

  finish_free :
      (s : System) (i : ℕ) (o : Operation) → s.place i ≡ waiting o → s.lock ≡ false → Finishes i s
  finish_free s i o at_i clear =
      run_on i (acquires s i o at_i clear) (finish_holding _ i o (rw (nat_refl i) refl))

  -- The thread that is inside lets the lock go.
  finish_behind :
      (s : System) (i j : ℕ) (o : Operation) (p : Place)
      → s.place i ≡ waiting o
      → s.place j ≡ p
      → inside p ≡ true
      → Finishes i s
  finish_behind s i j o (waiting q) at_i at_j on = absurd (cc)
  finish_behind s i j o (holding q) at_i at_j on =
      let miss = apart s.place i j (ap inside at_i) (ap inside at_j) in
      run_on i (changes s j q at_j)
        (run_on i (releases _ j q (rw (nat_refl j) refl)) (finish_free _ i o (rw miss at_i) refl))
  finish_behind s i j o (changed q) at_i at_j on =
      let miss = apart s.place i j (ap inside at_i) (ap inside at_j) in
      run_on i (releases s j q at_j) (finish_free _ i o (rw miss at_i) refl)
  finish_behind s i j o (storing q) at_i at_j on = absurd (cc)
  finish_behind s i j o finished at_i at_j on = absurd (cc)

  -- Where the lock is set, the thread inside lets it go first.
  finish : (s : System) (i : ℕ) → IsHeld s → Finishes i s
  finish s i v = by_place (s.place i) refl
    where
      by_lock : (o : Operation) → s.place i ≡ waiting o → Finishes i s
      by_lock o at_i = elim (Bool-cases s.lock) [
        | inl taken ↦ let (j, on) = v.holder taken in finish_behind s i j o (s.place j) at_i refl on
        | inr clear ↦ finish_free s i o at_i clear
      ]

      by_place : (p : Place) → s.place i ≡ p → Finishes i s
      by_place (waiting o) at_i = by_lock o at_i
      by_place (holding o) at_i = finish_holding s i o at_i
      by_place (changed o) at_i = finish_changed s i o at_i
      by_place (storing o) at_i = finish_storing s i o at_i
      by_place finished at_i = (s, start, at_i)

  -- From a state in which the lock is clear and no thread is between the lock and its release,
  -- however the threads are interleaved: in every state that is reached at most one thread is
  -- there, the lock is set exactly while one is, and for every thread there is a run that brings it
  -- to its end.
  pub Moves-Finishes :
      (s : System)
      → s.lock ≡ false
      → ((i : ℕ) → inside (s.place i) ≡ false)
      → {t : System} → Moves server s t
      → IsExclusive t × IsHeld t × ((i : ℕ) → Finishes i t)
  Moves-Finishes s clear outside r =
      let exclusive = Moves-IsExclusive r (record {
        locked = λ i on. absurd (ground (arith, outside i));
        alone = λ i j on on'. absurd (ground (arith, outside i));
      }) in
      let held = Moves-IsHeld r (record { holder = λ taken. absurd (cc) }) in
      (exclusive, held, λ i. finish _ i held)
