-- ===== src/Websocket/Flights/Concludes.antt =====
-- What becomes of a message of a socket of src/websocket/WebSocketListener.cpp over one network.
use mathlib.Core.Path.{subst}
use wsgateway.Prelude.{
  ℕ, ◌≡◌, ◌≢◌, refl, ap, List, [], ◌∷◌, some, arith, All, All-map, Bytes, lookup, nat_eq,
}
use wsgateway.Std.Number.{to_string}
use wsgateway.Scylla.Driver.{Driver}
use wsgateway.Scylla.Manager.{ScyllaManager}
use wsgateway.Client.Library.{Beast, Network}
use wsgateway.Client.{HttpRequest}
use wsgateway.Websocket.Registry.{text}
use wsgateway.Websocket.Listener.{Listener, Request}
use wsgateway.Websocket.Listener.Messages.{concat}
use wsgateway.Websocket.Gateway.{Gateway, Target}
use wsgateway.Websocket.Gateway.Invariant.{IsValid}
use wsgateway.Websocket.Flights.{Air, Written, at_rest, object, waiting, answered, Reach}
use wsgateway.Websocket.Flights.Once.{Reach-IsCounted}
use wsgateway.Websocket.Flights.Delivery.{Reach-IsTracked}
use wsgateway.Websocket.Flights.Over.{IsOver, reach_trans}
use wsgateway.Websocket.Flights.Course.{Plan, OwnSend, IsOn, Reach-IsOn}
use wsgateway.Websocket.Flights.Landing.{Reach-Lands}
use wsgateway.Websocket.Flights.Asked.{HasAsked, read_message_run}

module _ (b : Beast) (d : Driver) (m : ScyllaManager) (t : Target)
    (n : Network (HttpRequest b)) where
  open d use {State}

  -- A message is read in these frames and dispatched. Over this network, whatever is interleaved
  -- with its coroutine, each frame that the coroutine sends is the text frame of the result for
  -- this socket, and once it has sent it the writings are as said; and it can be run so far, with
  -- no other frame sent to any socket.
  pub record Concludes (a : Air b State) (socket : ℕ) (fs : List Bytes) (now : ℕ) (result : Bytes)
      (Wrote : List (Written b) → Type 0) : Type 0 where
    pub asked : Air b State
    pub reading : HasAsked b d m t a asked socket fs now
    pub always :
        (e : Air b State) (q : Reach b d m t asked e)
        → IsOver b d m t n q
        → All
            (λ x.
              x.number ≡ a.dispatched
              → x ≡ record { number = a.dispatched; socket = socket; frame = text result })
            e.sends
    pub wrote :
        (e : Air b State) (q : Reach b d m t asked e)
        → IsOver b d m t n q
        → (e.flight a.dispatched).stage ≡ answered
        → Wrote e.written
    pub behind : Air b State
    pub steps : Reach b d m t asked behind
    pub over : IsOver b d m t n steps
    pub landed : (behind.flight a.dispatched).stage ≡ answered
    pub sent :
        behind.sends
        ≡ record { number = a.dispatched; socket = socket; frame = text result } ∷ a.sends

  module _ (given : t.http_request_port ≢ []) (g : Gateway State) (a : Air b State)
      (valid : IsValid t g) (r : Reach b d m t (at_rest b g) a) (socket : ℕ) (l : Listener)
      (fs : List Bytes) (now : ℕ) where
    abbrev the_request : Request
    the_request = record { message = concat fs; arrived = to_string now }

    module _ (result : Bytes)
        (plan : Plan b n t.http_request_address l.client_id socket the_request result) where
      -- The flight of the message is on its course.
      asked-IsOn :
          (c : Air b State)
          → HasAsked b d m t a c socket fs now
          → lookup socket c.gateway.listeners ≡ some l
          → plan.Holds waiting a.written
          → IsOn b d m t n a.dispatched socket l.client_id the_request result plan c
      asked-IsOn c v live holds =
          let tracked = (Reach-IsTracked b d m t given g valid (reach_trans b d m t r v.steps)).1 in
          let counted = Reach-IsCounted b d m t given g valid r in
          let s = tracked.served a.dispatched (λ e. ground (arith, v.flight)) in
          let at_socket : (c.flight a.dispatched).socket ≡ socket = ap (λ f. f.socket) v.flight in
          let held : object c socket ≡ some s.listener =
            subst (λ k. object c k ≡ some s.listener) at_socket s.held in
          let same_one : s.listener ≡ l = ground (arith, live, held) in
          record {
            born = omega (arith, v.number);
            listener = s.listener;
            held = held;
            same_client = ap (λ x. x.client_id) same_one;
            same_host = s.address;
            at_socket = at_socket;
            of_request = ap (λ f. f.request) v.flight;
            fits = rw (v.flight, v.same_written) holds;
            sent =
                rw v.same_sends
                  (All-map (λ x h e. absurd (omega (arith, h.0, e))) a.sends counted.sockets);
          }

      pub plan-Concludes :
          lookup socket a.gateway.listeners ≡ some l
          → l.message_buffer ≡ []
          → All (λ f. f ≢ []) fs
          → plan.Holds waiting a.written
          → Concludes a socket fs now result (plan.Holds answered)
      plan-Concludes live none_read full holds =
          let (c, v, live') = read_message_run b d m t a socket l fs now live none_read full in
          let reached = reach_trans b d m t r v.steps in
          let on = asked-IsOn c v live' holds in
          let (e, x) =
            Reach-Lands b d m t given g valid reached n a.dispatched (omega (arith, v.number))
              (rw v.flight refl) in
          let course : (k : Air b State) (q : Reach b d m t c k)
              → IsOver b d m t n q
              → IsOn b d m t n a.dispatched socket l.client_id the_request result plan k =
            λ k q over.
              Reach-IsOn b d m t n a.dispatched socket l.client_id the_request result plan q over
                on in
          let own : All (OwnSend b d m t n a.dispatched socket l.client_id the_request result plan)
              (x.send ∷ c.sends) =
            rw x.sent at (course e x.steps x.over).sent in
          record {
            asked = c;
            reading = v;
            always = λ k q over. (course k q over).sent;
            wrote = λ k q over there. rw there at (course k q over).fits;
            behind = e;
            steps = x.steps;
            over = x.over;
            landed = x.landed;
            sent = rw (x.sent, own.0 x.number, v.same_sends) refl;
          }
