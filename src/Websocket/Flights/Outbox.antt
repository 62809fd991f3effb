-- ===== src/Websocket/Flights/Outbox.antt =====
-- The executor between a handler of src/websocket/WebSocketListener.cpp and the socket: the
-- handler gives it a `SendMessageCoroutine`, and one of its workers runs the coroutine later.
use mathlib.Core.List.{Perm, Permᴰ, perm_middle}
use mathlib.Core.List.Perm
use mathlib.Core.Logic.{∥∥₁_elim}
use mathlib.Core.Path.{subst}
use native.Mathlib.Nat.{ℕ_set}
use wsgateway.Prelude.{
  ℕ, ◌≡◌, ◌≢◌, ◌<◌, refl, ap, sym, ◌∙◌, List, [], ◌∷◌, ◌++◌, append_assoc, Option, none, some,
  arith,
}
use wsgateway.Scylla.Driver.{Driver}
use wsgateway.Scylla.Manager.{ScyllaManager}
use wsgateway.Client.Library.{Beast, Network}
use wsgateway.Client.{HttpRequest}
use wsgateway.Websocket.Registry.{Frame}
use wsgateway.Websocket.Listener.{Request, on_complete, returned}
use wsgateway.Websocket.Gateway.{Gateway, Target}
use wsgateway.Websocket.Gateway.Invariant.{IsValid}
use wsgateway.Websocket.Flights.{
  Air, Send, log_send, launch, at_rest, Step, creates, closes, reads, destroys, starts,
  starts_closed, advances, completes, Reach, here, next,
}
use wsgateway.Websocket.Flights.Once.{count}
use wsgateway.Websocket.Flights.Quiet.{Reach-Answers}

-- The flights, the frames whose coroutines wait in the executor, and the frames that the sockets
-- were handed, the latest first.
pub record Outbox (b : Beast) (S : Type 0) : Type 0 where
  pub air : Air b S
  pub queued : List (Send b)
  pub out : List (Send b)

abbrev pub no_frames : {b : Beast} {S : Type 0} → Air b S → Outbox b S
no_frames a = record { air = a; queued = []; out = [] }

module _ (b : Beast) (d : Driver) (m : ScyllaManager) (t : Target) where
  open d use {State}

  -- What the handler of a step gives to the executor.
  abbrev pub given : {a c : Air b State} → Step b d m t a c → List (Send b)
  given (completes a i result e) =
      log_send b i (on_complete (a.flight i).socket (returned result)) []
  given s = []

  -- One step of the flights, or one coroutine of the executor is run, whichever it is.
  pub data Work : Outbox b State → Outbox b State → Type 0 where
    flies :
        (o : Outbox b State) {c : Air b State} (s : Step b d m t o.air c)
        → Work o (record { air = c; queued = given s ++ o.queued; out = o.out })
    sends :
        (o : Outbox b State) (before behind : List (Send b)) (s : Send b)
        → o.queued ≡ before ++ s ∷ behind
        → Work o (record { air = o.air; queued = before ++ behind; out = s ∷ o.out })

  pub data Works (o : Outbox b State) : Outbox b State → Type 0 where
    idle : Works o o
    then_work : {p q : Outbox b State} → Works o p → Work p q → Works o q

  launch-sends :
      {S : Type 0} (a : Air b S) (socket : ℕ) (r : Option Request)
      → (launch a socket r).sends ≡ a.sends
  launch-sends a socket none = refl
  launch-sends a socket (some r) = refl

  log_send-append :
      (i : ℕ) (o : Option (ℕ × Frame)) (ss : List (Send b))
      → log_send b i o ss ≡ log_send b i o [] ++ ss
  log_send-append i none ss = refl
  log_send-append i (some x) ss = refl

  given-sends : {a c : Air b State} (s : Step b d m t a c) → c.sends ≡ given s ++ a.sends
  given-sends (creates a g socket params peer dropped new new' e) = refl
  given-sends (closes a g socket e) = refl
  given-sends (reads a g socket size input now r e) =
      launch-sends (record a { gateway = g }) socket r
  given-sends (destroys a socket l held) = refl
  given-sends (starts a i draw l port at_start held chosen) = refl
  given-sends (starts_closed a i draw l port at_start gone held chosen) = refl
  given-sends (advances a i n l waits held) = refl
  given-sends (completes a i result e) =
      log_send-append i (on_complete (a.flight i).socket (returned result)) a.sends

  -- The frames that went out and those that wait are the frames of the flights.
  abbrev pub IsLossless : Outbox b State → Type 0
  IsLossless o = Perm (o.queued ++ o.out) o.air.sends

  sends-Perm :
      (before behind out : List (Send b)) (s : Send b)
      → Perm ((before ++ behind) ++ s ∷ out) ((before ++ s ∷ behind) ++ out)
  sends-Perm before behind out s =
      Perm.trans (perm_middle (before ++ behind) out)
        (Perm.append_right out (Perm.symm (perm_middle before behind)))

  Work-IsLossless : {o p : Outbox b State} → Work o p → IsLossless o → IsLossless p
  Work-IsLossless (flies o s) v =
      rw (given-sends s, append_assoc (given s) o.queued o.out) (Perm.append_left (given s) v)
  Work-IsLossless (sends o before behind s e) v =
      Perm.trans (sends-Perm before behind o.out s) (rw e at v)

  pub Works-IsLossless : {o p : Outbox b State} → Works o p → IsLossless o → IsLossless p
  Works-IsLossless idle v = v
  Works-IsLossless (then_work r w) v = Work-IsLossless w (Works-IsLossless r v)

  -- The flights of a run of both are a run of the flights.
  Works-Reach :
      {o p : Outbox b State} (a : Air b State)
      → Works o p
      → Reach b d m t a o.air
      → Reach b d m t a p.air
  Works-Reach a idle v = v
  Works-Reach a (then_work r (flies o s)) v = next (Works-Reach a r v) s
  Works-Reach a (then_work r (sends o before behind s e)) v = Works-Reach a r v

  Works-trans : {o p q : Outbox b State} → Works o p → Works p q → Works o q
  Works-trans r idle = r
  Works-trans r (then_work q w) = then_work (Works-trans r q) w

  -- A run of the flights, and behind it all that waits in the executor.
  abbrev Follows : Outbox b State → Air b State → Type 0
  Follows o e = (p : Outbox b State) × Works o p × (p.air ≡ e)

  fly : (o : Outbox b State) {e : Air b State} → Reach b d m t o.air e → Follows o e
  fly o here = (o, idle, refl)
  fly o {e} (next r s) =
      let (p, w, same_one) = fly o r in
      let step : Step b d m t p.air e = subst (λ x. Step b d m t x e) (sym same_one) s in
      (_, then_work w (flies p step), refl)

  drain :
      (o : Outbox b State) (queued : List (Send b))
      → o.queued ≡ queued
      → (p : Outbox b State) × Works o p × (p.air ≡ o.air) × (p.queued ≡ [])
  drain o [] e = (o, idle, refl, e)
  drain o (s ∷ queued) e =
      let step = sends o [] queued s e in
      let (p, w, same_air, none_left) =
        drain (record { air = o.air; queued = queued; out = s ∷ o.out }) queued refl in
      (p, Works-trans (then_work idle step) w, same_air, none_left)

  count-Permᴰ : (i : ℕ) {xs ys : List (Send b)} → Permᴰ xs ys → count b i xs ≡ count b i ys
  count-Permᴰ i Permᴰ.nil = refl
  count-Permᴰ i (Permᴰ.cons e p) = let rest = count-Permᴰ i p in rw (e, rest) refl
  count-Permᴰ i (Permᴰ.swap e f) = rw (e, f) (omega arith)
  count-Permᴰ i (Permᴰ.trans p q) = count-Permᴰ i p ∙ count-Permᴰ i q

  count-Perm : (i : ℕ) {xs ys : List (Send b)} → Perm xs ys → count b i xs ≡ count b i ys
  count-Perm i p = ∥∥₁_elim p (ℕ_set _ _) (count-Permᴰ i)

  -- From a valid gateway without flights, with a port for the application, and an executor in which
  -- nothing waits, however callbacks, coroutines and the workers of the executor are interleaved:
  -- the frames that went out and those that wait in the executor are exactly the frames that the
  -- handlers gave to it, in some order, each as often. And from every state that is reached there
  -- is a run behind which nothing waits, and exactly one frame has gone out for each message that
  -- had been dispatched.
  pub Works-Answers :
      t.http_request_port ≢ []
      → (g : Gateway State) {o : Outbox b State} → IsValid t g
      → Network (HttpRequest b)
      → Works (no_frames (at_rest b g)) o
      → IsLossless o
        × ((p : Outbox b State) × Works o p
            × (p.queued ≡ [])
            × ((i : ℕ) → i < o.air.dispatched → count b i p.out ≡ 1))
  Works-Answers given g {o} valid n r =
      let reached = Works-Reach (at_rest b g) r here in
      let (e, steps, counts) = Reach-Answers b d m t given g valid n reached in
      let (q, to_q, same_air) = fly o steps in
      let (p, to_p, kept, none_left) = drain q q.queued refl in
      let over = Works-trans to_q to_p in
      let lossless : IsLossless p = Works-IsLossless (Works-trans r over) Perm.rfl in
      (
        Works-IsLossless r Perm.rfl,
        (
          p,
          over,
          none_left,
          λ i below.
              count-Perm i (rw none_left at lossless)
              ∙ ap (λ a. count b i a.sends) (kept ∙ same_air)
              ∙ counts i below,
        ),
      )
