-- ===== src/Websocket/Flights/Quiet.antt =====
-- Every message that `readMessage` of src/websocket/WebSocketListener.cpp has dispatched can be
-- answered.
use mathlib.Core.Path.{subst}
use wsgateway.Prelude.{
  [], ℕ, zero, suc, ◌≤◌, ◌<◌, ◌≡◌, ◌≢◌, refl, ◌∙◌, inl, inr, arith, ◌==◌, Bool-cases, ◌⊎◌, nat-eq,
}
use wsgateway.Scylla.Driver.{Driver}
use wsgateway.Scylla.Manager.{ScyllaManager}
use wsgateway.Client.Library.{Beast, Network}
use wsgateway.Client.{HttpRequest}
use wsgateway.Websocket.Gateway.{Gateway, Target}
use wsgateway.Websocket.Gateway.Invariant.{IsValid}
use wsgateway.Websocket.Flights.{
  Air, Stage, absent, waiting, resolving, connecting, writing, reading, done, answered, at_rest,
  Reach, here,
}
use wsgateway.Websocket.Flights.Once.{count, finished, Reach-IsCounted}
use wsgateway.Websocket.Flights.Over.{reach_trans}
use wsgateway.Websocket.Flights.Landing.{Lands, Reach-Lands}

finished-cases : (b : Beast) (s : Stage b) → (finished b s ≡ 0) ⊎ (finished b s ≡ 1)
finished-cases b absent = inl refl
finished-cases b waiting = inl refl
finished-cases b (resolving port q) = inl refl
finished-cases b (connecting port q) = inl refl
finished-cases b (writing q) = inl refl
finished-cases b (reading q) = inl refl
finished-cases b (done r) = inl refl
finished-cases b answered = inr refl

module _ (b : Beast) (d : Driver) (m : ScyllaManager) (t : Target)
    (given : t.http_request_port ≢ []) (g : Gateway d.State) (valid : IsValid t g)
    (n : Network (HttpRequest b)) where
  open d use {State}

  -- A run behind which the first k flights have been answered, and none is new.
  pub record Answers (k : ℕ) (a e : Air b State) : Type 0 where
    pub steps : Reach b d m t a e
    pub as_many : e.dispatched ≡ a.dispatched
    pub all : (i : ℕ) → i < k → finished b (e.flight i).stage ≡ 1

  answer_next :
      (a e : Air b State) (k : ℕ)
      → Reach b d m t (at_rest b g) a
      → k < a.dispatched
      → Answers k a e
      → (c : Air b State) × Answers (suc k) a c
  answer_next a e k r below v = elim (finished-cases b (e.flight k).stage) [
    | inl running ↦
        let reached = reach_trans b d m t r v.steps in
        let (c, l) = Reach-Lands b d m t given g valid reached n k (rw v.as_many below) running in
        (
          c,
          record {
            steps = reach_trans b d m t v.steps l.steps;
            as_many = l.as_many ∙ v.as_many;
            all = λ i h. by_number c l i h;
          },
        )
    | inr over ↦ (e, record { steps = v.steps; as_many = v.as_many; all = λ i h. by_same over i h })
  ]
    where
      by_number :
          (c : Air b State)
          → Lands b d m t n k e c
          → (i : ℕ) → i < suc k
          → finished b (c.flight i).stage ≡ 1
      by_number c l i h = elim (Bool-cases (k == i)) [
        | inl hit ↦
            subst (λ j. finished b (c.flight j).stage ≡ 1) (nat-eq k i hit) (rw l.landed refl)
        | inr miss ↦ rw (l.others i miss) (v.all i (ground arith))
      ]

      by_same :
          finished b (e.flight k).stage ≡ 1
          → (i : ℕ) → i < suc k
          → finished b (e.flight i).stage ≡ 1
      by_same over i h = elim (Bool-cases (k == i)) [
        | inl hit ↦ subst (λ j. finished b (e.flight j).stage ≡ 1) (nat-eq k i hit) over
        | inr miss ↦ v.all i (ground arith)
      ]

  answer_first :
      (a : Air b State) (k : ℕ)
      → Reach b d m t (at_rest b g) a
      → k ≤ a.dispatched
      → (e : Air b State) × Answers k a e
  answer_first a zero r below =
      (a, record { steps = here; as_many = refl; all = λ i h. absurd (omega arith) })
  answer_first a (suc k) r below =
      let (e, v) = answer_first a k r (omega (arith, below)) in answer_next a e k r below v

  -- From every state that is reached from a valid gateway without flights, with a port for the
  -- application, there is a run behind which every message that had been dispatched has been
  -- answered with exactly one frame, whatever the network does at the waits; nothing waits for
  -- another message, socket or callback.
  pub Reach-Answers :
      {a : Air b State}
      → Reach b d m t (at_rest b g) a
      → (e : Air b State) × Reach b d m t a e × ((i : ℕ) → i < a.dispatched → count b i e.sends ≡ 1)
  Reach-Answers {a} r =
      let (e, v) = answer_first a a.dispatched r (omega arith) in
      let counted = Reach-IsCounted b d m t given g valid (reach_trans b d m t r v.steps) in
      (e, v.steps, λ i h. counted.once i ∙ v.all i h)
