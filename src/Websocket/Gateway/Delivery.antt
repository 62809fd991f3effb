-- ===== src/Websocket/Gateway/Delivery.antt =====
-- A message that `readMessage` has dispatched, all the way: the call of `asyncHttpClient` and the
-- handler of src/websocket/WebSocketListener.cpp behind it.
use mathlib.Core.Option
use wsgateway.Prelude.{ℕ, ◌≡◌, ◌≢◌, refl, [], Option, none, some, Bytes, lookup, nat_eq, bytes_eq}
use wsgateway.Scylla.Driver.{Driver}
use wsgateway.Scylla.Manager.{ScyllaManager}
use wsgateway.Client.Library.{Beast, BeastLaws, Network}
use wsgateway.Client.{HttpRequest, Exchange, async_http_client}
use wsgateway.Client.Forward.{chosen_port}
use wsgateway.Client.Marks.{Marked, sent-Marked}
use wsgateway.Websocket.Registry.{Frame, text}
use wsgateway.Websocket.Listener.{Listener, Request, returned, on_complete}
use wsgateway.Websocket.Listener.Answers.{answers_once}
use wsgateway.Websocket.Gateway.{Gateway, Target, port_left, on_choose_port, Reach}
use wsgateway.Websocket.Gateway.Invariant.{IsValid, Reach-IsValid}

module _ (b : Beast) (n : Network (HttpRequest b)) (d : Driver) (m : ScyllaManager) where
  open d use {State}

  -- The gateway behind the coroutine, what the client has done, and the frame that is sent.
  pub record Delivery : Type 0 where
    pub gateway : Gateway State
    pub exchange : Exchange b
    pub frame : Option (ℕ × Frame)

  -- The coroutine ends by returning its result to the handler.
  abbrev pub completed : Gateway State → ℕ → Listener → Bytes × Exchange b → Delivery
  completed g socket l (port, x) = record {
    gateway = port_left d m g socket l port;
    exchange = x;
    frame = on_complete socket (returned x.result);
  }

  -- The coroutine that a request is dispatched to, at the socket whose listener dispatched it.
  unfoldable pub on_forward : Gateway State → ℕ → Request → ℕ → Option Delivery
  on_forward g socket r draw = elim (lookup socket g.listeners) [
    | none ↦ none
    | some l ↦ Option.map (completed g socket l) (
        async_http_client b n draw r.message l.http_server_address l.http_server_port l.client_id
          r.arrived)
  ]

  -- The request that is written, if any, carries the three names that the gateway sets.
  abbrev pub WrittenMarked : BeastLaws b → Bytes → Bytes → Bytes → Option (HttpRequest b) → Type 0
  WrittenMarked laws client arrived host none = Unit
  WrittenMarked laws client arrived host (some req) = Marked b laws client arrived host req.fields

  -- The gateway is left as the step that chooses the port leaves it.
  abbrev pub Delivers : BeastLaws b → Target → Gateway State → Bytes → ℕ → Request → ℕ → Type 0
  Delivers laws t g client socket r draw =
      (v : Delivery) × (on_forward g socket r draw ≡ some v)
      × (on_choose_port d m g socket draw ≡ some v.gateway)
      × (v.frame ≡ some (socket, text v.exchange.result))
      × WrittenMarked laws client r.arrived t.http_request_address v.exchange.sent

  written :
      (laws : BeastLaws b) (client arrived host : Bytes) (o : Option (HttpRequest b))
      → ((req : HttpRequest b) → o ≡ some req → Marked b laws client arrived host req.fields)
      → WrittenMarked laws client arrived host o
  written laws client arrived host none h = tt
  written laws client arrived host (some req) h = h req refl

  module _ (laws : BeastLaws b) (t : Target) where
    Delivers-at :
        (g : Gateway State) (client : Bytes) (socket : ℕ) (r : Request) (draw : ℕ) (l : Listener)
        → lookup socket g.listeners ≡ some l
        → l.client_id ≡ client
        → l.http_server_address ≡ t.http_request_address
        → l.http_server_port ≢ []
        → Delivers laws t g client socket r draw
    unfolding on_forward on_choose_port
    Delivers-at g client socket r draw l live own address full =
        let (port, x, ran, sends) = answers_once b n l r draw socket full in
        let chosen =
          chosen_port b n draw r.message l.http_server_address l.http_server_port l.client_id
            r.arrived port x ran in
        (
          completed g socket l (port, x),
          rw (on_forward, live, ran),
          rw (on_choose_port, live, chosen),
          sends,
          rw (← own, ← address)
              (written laws l.client_id r.arrived l.http_server_address x.sent (λ req sent.
                sent-Marked b laws n draw r.message l.http_server_address l.http_server_port
                  l.client_id r.arrived port x req ran sent)),
        )

    -- If the configured port of the application is not empty, then at every gateway that is reached
    -- from a valid one, a message dispatched at the socket that the registry has for a client is
    -- forwarded by a call that returns: the result is sent whole, as one text frame, to that
    -- socket, and a request that is written carries that client's name, the arrival time and the
    -- application's address.
    pub Reach-Delivers :
        t.http_request_port ≢ []
        → {g g' : Gateway State} → Reach d m t g g'
        → IsValid t g
        → (client : Bytes) (socket : ℕ) → lookup client g'.registry.clients ≡ some socket
        → (r : Request) (draw : ℕ) → Delivers laws t g' client socket r draw
    Reach-Delivers given {g' = g'} reach valid client socket found r draw =
        let v = Reach-IsValid d m t given reach valid in
        let (l, live, own) = v.serves client socket found in
        let (address, full) = v.aims socket l live in
        Delivers-at g' client socket r draw l live own address full
