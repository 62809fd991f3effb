-- ===== src/Websocket/Flights/Forwarded.antt =====
-- What the requests of src/utilis/boostBeastClient.h say that are written for the messages of the
-- sockets of src/websocket/WebSocketListener.cpp.
use wsgateway.Prelude.{◌≡◌, ◌≢◌, false, some, Bytes, List, [], ◌∷◌, ◌++◌, All}
use wsgateway.Std.Number.{ok}
use wsgateway.Http.Parser.{Message, create_request}
use wsgateway.Scylla.Driver.{Driver}
use wsgateway.Scylla.Manager.{ScyllaManager}
use wsgateway.Client.Library.{Beast, BeastLaws}
use wsgateway.Client.{build_request}
use wsgateway.Client.Faithful.{Agrees, build_request-Agrees}
use wsgateway.Client.Marks.{Marked, Marked-built}
use wsgateway.Client.Passed.{passed, is_own, get-build_request}
use wsgateway.Websocket.Listener.{Listener}
use wsgateway.Websocket.Gateway.{Gateway, Target}
use wsgateway.Websocket.Gateway.Invariant.{IsValid}
use wsgateway.Websocket.Flights.{Air, at_rest, object, Reach, Written}
use wsgateway.Websocket.Flights.Named.{IsNamed}
use wsgateway.Websocket.Flights.Delivery.{Reach-IsTracked}

All-middle {ℓ κ} :
    {A : Type ℓ} (P : A → Type κ) (xs ys : List A) (x : A) → All P (xs ++ x ∷ ys) → P x
All-middle P [] ys x h = h.0
All-middle P (y ∷ xs) ys x h = All-middle P xs ys x h.1

module _ (b : Beast) (laws : BeastLaws b) (d : Driver) (m : ScyllaManager) (t : Target) where
  open d use {State}

  -- A request that is written for a message, as the message is read.
  pub record Forwards (a : Air b State) (w : Written b) (msg : Message) (verb : b.Verb)
      : Type 0 where
    pub listener : Listener
    pub held : object a w.socket ≡ some listener
    pub agrees : Agrees b msg verb w.sent
    pub marked :
        Marked b laws listener.client_id w.request.arrived t.http_request_address w.sent.fields

  abbrev host : Bytes
  host = t.http_request_address

  Forwards-IsNamed :
      (a : Air b State) (w : Written b) (msg : Message) (verb : b.Verb) (j : Bytes)
      → IsNamed b host a.gateway.listeners a.closed w
      → create_request w.request.message ≡ ok msg
      → b.string_to_verb msg.method ≡ some verb
      → is_own b j ≡ false
      → Forwards a w msg verb × (b.get j w.sent.fields ≡ passed b j (b.order msg.headers))
  Forwards-IsNamed a w msg verb j (l, held, (q, built, same_one)) parsed known other =
      let from_message : build_request b msg l.client_id w.request.arrived ≡ ok q =
        rw parsed at built in
      (
        record {
          listener = l;
          held = held;
          agrees = rw same_one (
              build_request-Agrees b msg verb l.client_id w.request.arrived host q known
                from_message);
          marked = rw same_one (
              Marked-built b laws l.client_id w.request.arrived host
                (create_request w.request.message) q built);
        },
        rw same_one (
            get-build_request b laws msg l.client_id w.request.arrived host j q from_message other),
      )

  -- From a valid gateway without flights, with a port for the application, however callbacks and
  -- coroutines are interleaved: a request that the network was given to write for a message says
  -- what the message says, if the message is read as a request with a method that the library
  -- knows. It has the message's method, version, target and body; its X-Client-ID is the client
  -- name of the socket that the message came from, its X-Arrived-time the message's time of
  -- arrival, and its Host the application's address; and for every name but these, Content-Length
  -- and Transfer-Encoding it has the value of the last of the message's headers that has the name
  -- and no line break, in the order in which the map gives them, and no field if there is none.
  pub Reach-Forwards :
      t.http_request_port ≢ []
      → (g : Gateway State) {a : Air b State} → IsValid t g
      → Reach b d m t (at_rest b g) a
      → (newer older : List (Written b)) (w : Written b) (msg : Message) (verb : b.Verb) (j : Bytes)
      → a.written ≡ newer ++ w ∷ older
      → create_request w.request.message ≡ ok msg
      → b.string_to_verb msg.method ≡ some verb
      → is_own b j ≡ false
      → Forwards a w msg verb × (b.get j w.sent.fields ≡ passed b j (b.order msg.headers))
  Reach-Forwards given g {a} valid r newer older w msg verb j e =
      let named = (Reach-IsTracked b d m t given g valid r).1.named in
      Forwards-IsNamed a w msg verb j (
        All-middle (IsNamed b t.http_request_address a.gateway.listeners a.closed) newer older w
          (rw e at named))
