-- ===== src/Websocket/Flights/Reorder.antt =====
-- In which order the coroutines that `readMessage` of src/websocket/WebSocketListener.cpp starts
-- can answer.
use wsgateway.Prelude.{ℕ, ◌<◌, ◌≡◌, ◌≢◌, ap, ◌∙◌, false, [], ◌∷◌, ◌==◌, nat_eq}
use wsgateway.Scylla.Driver.{Driver}
use wsgateway.Scylla.Manager.{ScyllaManager}
use wsgateway.Client.Library.{Beast, Network}
use wsgateway.Client.{HttpRequest}
use wsgateway.Websocket.Gateway.{Gateway, Target}
use wsgateway.Websocket.Gateway.Invariant.{IsValid}
use wsgateway.Websocket.Flights.{Air, at_rest, Send, Reach}
use wsgateway.Websocket.Flights.Delivery.{Reach-IsTracked}
use wsgateway.Websocket.Flights.Once.{finished, Reach-IsCounted}
use wsgateway.Websocket.Flights.Over.{reach_trans}
use wsgateway.Websocket.Flights.Landing.{land, Reach-Lands}

module _ (b : Beast) (d : Driver) (m : ScyllaManager) (t : Target)
    (given : t.http_request_port ≢ []) (g : Gateway d.State) (valid : IsValid t g) where
  open d use {State}

  -- The answers to two messages, of one socket or of two, may be sent in either order: from every
  -- such state with two unanswered flights there is a run behind which the first of the two that
  -- are named has sent its frame just before the second.
  pub Reach-any_order :
      {a : Air b State}
      → Reach b d m t (at_rest b g) a
      → (i j : ℕ) → (i == j) ≡ false
      → i < a.dispatched
      → j < a.dispatched
      → finished b (a.flight i).stage ≡ 0
      → finished b (a.flight j).stage ≡ 0
      → (n : Network (HttpRequest b))
      → (e : Air b State) × Reach b d m t a e
        × ((x : Send b) × (y : Send b) × (x.number ≡ i)
            × (y.number ≡ j)
            × (e.sends ≡ y ∷ x ∷ a.sends))
  Reach-any_order {a} r i j differ below_i below_j running_i running_j n =
      let (c, x) = Reach-Lands b d m t given g valid r n i below_i running_i in
      let same_j = x.others j differ in
      let reached = reach_trans b d m t r x.steps in
      let counted = Reach-IsCounted b d m t given g valid r in
      let tracked = Reach-IsTracked b d m t given g valid reached in
      let (e, y) =
        land b d m t n j given c tracked.0 tracked.1 (rw same_j (counted.born j below_j))
          (rw same_j running_j) in
      (
        e,
        reach_trans b d m t x.steps y.steps,
        (x.send, y.send, x.number, y.number, y.sent ∙ ap (λ ss. y.send ∷ ss) x.sent),
      )
