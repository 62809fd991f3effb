-- ===== src/Websocket/Flights.antt =====
-- The coroutines that `readMessage` of src/websocket/WebSocketListener.cpp starts, step by step:
-- `asyncHttpClient` of src/utilis/boostBeastClient.h is left and entered again at each wait, while
-- sockets come and go. A handler holds its socket, and the socket its listener, so the listener
-- that a coroutine refers to lives on behind the end of its socket.
pub mod Objects
pub mod Steps
pub mod Named
pub mod Delivery
pub mod Forwarded
pub mod Asked
pub mod Concludes
pub mod Replies
pub mod Refusals
pub mod Once
pub mod Single
pub mod Waits
pub mod Outcome
pub mod Buffers
pub mod Frames
pub mod Heard
pub mod Responses
pub mod Over
pub mod Course
pub mod Plans
pub mod Landing
pub mod Outbox
pub mod Reorder
pub mod Quiet
use wsgateway.Prelude.{
  at, ℕ, ◌+◌, ◌≡◌, Bool, true, false, List, [], ◌∷◌, ◌++◌, Option, none, some, if◌then◌else◌, Bytes,
  lookup, insert, nat_eq, ◌==◌,
}
use wsgateway.Std.Number.{ℤ, Result, ok, err, ◌>>=◌}
use wsgateway.Http.Parser.{create_request}
use wsgateway.Http.Response.{Response, build_response}
use wsgateway.Controller.{Parameters}
use wsgateway.Scylla.Driver.{Driver}
use wsgateway.Scylla.Manager.{ScyllaManager}
use wsgateway.Client.Library.{Beast, Network}
use wsgateway.Client.{HttpRequest, build_request, set_host, error_text, choose_port}
use wsgateway.Websocket.Registry.{Frame}
use wsgateway.Websocket.Certificate.{Peer}
use wsgateway.Websocket.Listener.{Listener, Request, returned, on_close, on_complete}
use wsgateway.Websocket.Gateway.{
  Gateway, Target, Dropped, on_after_create, on_close_frame, destroyed_at, on_read, port_left,
}

module _ (b : Beast) where
  -- Where a coroutine stands: not dispatched, behind `co_spawn`, at one of its four waits, behind
  -- its result, and behind its handler.
  pub data Stage : Type 0 where
    absent waiting : Stage
    resolving connecting : Bytes → HttpRequest b → Stage
    writing reading : HttpRequest b → Stage
    done : Bytes → Stage
    answered : Stage

  -- The coroutine up to its first wait.
  abbrev pub begin : Bytes → Result (HttpRequest b) → Stage
  begin port (err e) = done (error_text b)
  begin port (ok q) = resolving port q

  -- The result behind the last wait.
  abbrev pub answer : Option Response → Stage
  answer none = done (error_text b)
  answer (some res) = done (build_response res)

  -- From one wait to the next, over what the network does there.
  abbrev pub advance : Network (HttpRequest b) → Bytes → Stage → Stage
  advance n host (resolving port q) =
      if n.resolve host port then connecting port q else done (error_text b)
  advance n host (connecting port q) =
      if n.connect host port then writing (set_host b host q) else done (error_text b)
  advance n host (writing q) = if n.write q then reading q else done (error_text b)
  advance n host (reading q) = answer (n.read q)
  advance n host s = s

  -- Whether the coroutine stands at a wait.
  abbrev pub at_wait : Stage → Bool
  at_wait (resolving port q) = true
  at_wait (connecting port q) = true
  at_wait (writing q) = true
  at_wait (reading q) = true
  at_wait s = false

  -- The request that is written where the coroutine stands.
  abbrev pub to_write : Stage → Option (HttpRequest b)
  to_write (writing q) = some q
  to_write s = none

  pub record Flight : Type 0 where
    pub socket : ℕ
    pub request : Request
    pub stage : Stage

  -- A request that the network was given to write, with the socket and the message that it is for.
  pub record Written : Type 0 where
    pub socket : ℕ
    pub request : Request
    pub sent : HttpRequest b

  -- A frame that was handed to a socket, with the number of its flight.
  pub record Send : Type 0 where
    pub number : ℕ
    pub socket : ℕ
    pub frame : Frame

  abbrev pub log_written : Flight → List Written → List Written
  log_written f ws = elim (to_write f.stage) [
    | none ↦ ws
    | some q ↦ record { socket = f.socket; request = f.request; sent = q } ∷ ws
  ]

  abbrev pub log_send : ℕ → Option (ℕ × Frame) → List Send → List Send
  log_send i none ss = ss
  log_send i (some (socket, frame)) ss = record { number = i; socket = socket; frame = frame } ∷ ss

-- The gateway, the listeners of sockets that are destroyed, the flights by their numbers, how many
-- were dispatched, and what was written and sent, the latest first.
pub record Air (b : Beast) (S : Type 0) : Type 0 where
  pub gateway : Gateway S
  pub closed : List (ℕ × Listener)
  pub flight : ℕ → Flight b
  pub dispatched : ℕ
  pub written : List (Written b)
  pub sends : List (Send b)

-- A gateway without flights.
abbrev pub at_rest : {S : Type 0} (b : Beast) → Gateway S → Air b S
at_rest b g = record {
  gateway = g;
  closed = [];
  flight =
      λ i. record { socket = 0; request = record { message = []; arrived = [] }; stage = absent };
  dispatched = 0;
  written = [];
  sends = [];
}

-- The listener that a socket holds.
abbrev pub object_of : List (ℕ × Listener) → List (ℕ × Listener) → ℕ → Option Listener
object_of live closed socket = elim (lookup socket live) [
  | some l ↦ some l
  | none ↦ lookup socket closed
]

abbrev pub object : {b : Beast} {S : Type 0} → Air b S → ℕ → Option Listener
object a socket = object_of a.gateway.listeners a.closed socket

abbrev pub set_stage : {b : Beast} {S : Type 0} → Air b S → ℕ → Stage b → Air b S
set_stage a i s = record a { flight = at i (record (a.flight i) { stage = s }) a.flight }

-- A message that is dispatched takes the next number.
abbrev pub launch : {b : Beast} {S : Type 0} → Air b S → ℕ → Option Request → Air b S
launch a socket none = a
launch a socket (some r) = record a {
  flight = at a.dispatched (record { socket = socket; request = r; stage = waiting }) a.flight;
  dispatched = a.dispatched + 1;
}

module _ (b : Beast) (d : Driver) (m : ScyllaManager) where
  open d use {State}

  -- The first part of the coroutine of flight i, for the listener l and the port that it draws.
  abbrev pub begun : ℕ → Listener → Bytes → Air b State → Air b State
  begun i l port a =
      let r = (a.flight i).request in
      set_stage a i
        (begin b port (create_request r.message >>= λ q. build_request b q l.client_id r.arrived))

  -- The socket's listener lives on behind the socket's end.
  abbrev pub buried : Air b State → ℕ → Listener → Air b State
  buried a socket l = record a {
    gateway = destroyed_at d m a.gateway socket l;
    closed = insert socket (on_close d m l a.gateway.registry).0 a.closed;
  }

  -- One step: a callback of the framework, or a coroutine from one wait to the next. A network that
  -- is given at a step is what it does at that step.
  pub data Step (t : Target) : Air b State → Air b State → Type 0 where
    creates :
        (a : Air b State) (g : Gateway State) (socket : ℕ) (params : Parameters) (peer : Peer)
        (dropped : List Dropped)
        → lookup socket a.gateway.listeners ≡ none
        → lookup socket a.closed ≡ none
        → on_after_create d m t a.gateway socket params peer ≡ some (g, dropped)
        → Step t a (record a { gateway = g })
    closes :
        (a : Air b State) (g : Gateway State) (socket : ℕ)
        → on_close_frame d m a.gateway socket ≡ some g
        → Step t a (record a { gateway = g })
    reads :
        (a : Air b State) (g : Gateway State) (socket : ℕ) (size : ℤ) (input : Bytes) (now : ℕ)
        (r : Option Request)
        → on_read d m a.gateway socket size input now ≡ some (g, r)
        → Step t a (launch (record a { gateway = g }) socket r)
    destroys :
        (a : Air b State) (socket : ℕ) (l : Listener)
        → lookup socket a.gateway.listeners ≡ some l
        → Step t a (buried a socket l)
    starts :
        (a : Air b State) (i draw : ℕ) (l : Listener) (port : Bytes)
        → (a.flight i).stage ≡ waiting
        → lookup (a.flight i).socket a.gateway.listeners ≡ some l
        → choose_port draw l.http_server_port ≡ some port
        → Step t a (
            begun i l port
              (record a { gateway = port_left d m a.gateway (a.flight i).socket l port }))
    starts_closed :
        (a : Air b State) (i draw : ℕ) (l : Listener) (port : Bytes)
        → (a.flight i).stage ≡ waiting
        → lookup (a.flight i).socket a.gateway.listeners ≡ none
        → lookup (a.flight i).socket a.closed ≡ some l
        → choose_port draw l.http_server_port ≡ some port
        → Step t a (
            begun i l port (record a {
              closed = insert (a.flight i).socket (record l { http_server_port = port }) a.closed;
            }))
    advances :
        (a : Air b State) (i : ℕ) (n : Network (HttpRequest b)) (l : Listener)
        → at_wait b (a.flight i).stage ≡ true
        → object a (a.flight i).socket ≡ some l
        → Step t a (record (set_stage a i (advance b n l.http_server_address (a.flight i).stage)) {
          written = log_written b (a.flight i) a.written;
        })
    completes :
        (a : Air b State) (i : ℕ) (result : Bytes)
        → (a.flight i).stage ≡ done result
        → Step t a (record (set_stage a i answered) {
          sends = log_send b i (on_complete (a.flight i).socket (returned result)) a.sends;
        })

  pub data Reach (t : Target) (a : Air b State) : Air b State → Type 0 where
    here : Reach t a a
    next : {h k : Air b State} → Reach t a h → Step t h k → Reach t a k
