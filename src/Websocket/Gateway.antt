-- ===== src/Websocket/Gateway.antt =====
-- `WSInstanceListener` of src/websocket/WebSocketListener.h and .cpp: the connections that the
-- gateway holds, over the registry and the listeners.
pub mod Maps
pub mod Serves
pub mod Invariant
pub mod Reconnect
pub mod Delivery
pub mod Calls
use mathlib.Core.Option
use wsgateway.Prelude.{
  ℕ, suc, ◌+◌, ◌-◌, ◌%◌, ◌^◌, ◌≡◌, Bool, true, false, List, [], ◌∷◌, ◌++◌, Option, none, some,
  Bytes, codes, empty, lookup, insert, erase, bytes_eq, nat_eq, if◌then◌else◌,
}
use wsgateway.Std.Number.{ℤ}
use wsgateway.Scylla.Driver.{Driver}
use wsgateway.Scylla.Manager.{ScyllaManager}
use wsgateway.Client.{choose_port}
use wsgateway.Controller.{Parameters, client_id_key}
use wsgateway.Websocket.Registry.{Registry, add_client}
use wsgateway.Websocket.Certificate.{Peer, peer_name}
use wsgateway.Websocket.Listener.{Listener, Request, new_listener, on_close, read_message}

-- The fields of `Config` that a new connection reads.
pub record Target : Type 0 where
  pub http_request_address : Bytes
  pub http_request_port : Bytes
  pub use_mtls : Bool

-- The registry, the live sockets with their listeners, and the counter SOCKETS, an int32 as its bit
-- pattern.
pub record Gateway (S : Type 0) : Type 0 where
  pub registry : Registry S
  pub listeners : List (ℕ × Listener)
  pub sockets : ℕ

-- A close frame that is prepared for a socket; the program drops the coroutine that would send it.
pub data Dropped : Type 0 where
  close : ℕ → ℕ → Bytes → Dropped

-- `SOCKETS ++` and `SOCKETS --`
abbrev pub count_up : ℕ → ℕ
count_up n = (n + 1) % 2 ^ 32

abbrev pub count_down : ℕ → ℕ
count_down n = (n + 2 ^ 32 - 1) % 2 ^ 32

-- The two checks of the client name: they prepare a close frame, and go on.
abbrev pub check_client : ℕ → Bytes → List Dropped
check_client socket client =
    if empty client then close socket 2 (codes "ClientId paramter is empty") ∷ [] else []

module _ (d : Driver) (m : ScyllaManager) where
  open d use {State}

  -- `onAfterCreate_NonBlocking` behind the lookup of the client name, but for the block that reads
  -- the certificate: the name there is not used.
  abbrev pub register : Target → Gateway State → ℕ → Bytes → Gateway State × List Dropped
  register t g socket client = (
    record {
      registry = add_client d m g.registry client socket;
      listeners =
          insert socket (new_listener client t.http_request_address t.http_request_port)
            g.listeners;
      sockets = count_up g.sockets;
    },
    check_client socket client,
  )

  -- `onAfterCreate_NonBlocking`: `none` where the program reads through the end of the parameters,
  -- through a null string or an unset buffer.
  unfoldable pub on_after_create :
      Target → Gateway State → ℕ → Parameters → Peer → Option (Gateway State × List Dropped)
  on_after_create t g socket params peer = elim (lookup client_id_key params) [
    | none ↦ none
    | some none ↦ none
    | some (some client) ↦
        Option.map (λ common_name. register t g socket client) (peer_name t.use_mtls peer)
  ]

  -- The state behind the close of a socket's listener.
  abbrev pub closed : Gateway State → Listener → Gateway State
  closed g l = record g { registry = (on_close d m l g.registry).1 }

  -- The states behind a close frame, the destruction and a read at a socket with the listener l.
  abbrev pub closed_at : Gateway State → ℕ → Listener → Gateway State
  closed_at g socket l = record (closed g l) {
    listeners = insert socket (on_close d m l g.registry).0 g.listeners;
  }

  abbrev pub destroyed_at : Gateway State → ℕ → Listener → Gateway State
  destroyed_at g socket l = record (closed g l) {
    listeners = erase socket g.listeners;
    sockets = count_down g.sockets;
  }

  abbrev pub read_at : Gateway State → ℕ → ℤ → Bytes → ℕ → Listener → Gateway State × Option Request
  read_at g socket size input now l =
      let r = read_message l size input now in
      (record g { listeners = insert socket r.0 g.listeners }, r.1)

  -- `onClose` on a close frame at a socket. A socket that is not live has no listener to call.
  unfoldable pub on_close_frame : Gateway State → ℕ → Option (Gateway State)
  on_close_frame g socket = Option.map (closed_at g socket) (lookup socket g.listeners)

  -- `onBeforeDestroy_NonBlocking`, behind which the framework destroys the socket and its listener.
  unfoldable pub on_before_destroy : Gateway State → ℕ → Option (Gateway State)
  on_before_destroy g socket = Option.map (destroyed_at g socket) (lookup socket g.listeners)

  -- `readMessage` at a socket.
  unfoldable pub on_read :
      Gateway State → ℕ → ℤ → Bytes → ℕ → Option (Gateway State × Option Request)
  on_read g socket size input now =
      Option.map (read_at g socket size input now) (lookup socket g.listeners)

  -- The state behind the first statement of `asyncHttpClient`, which has the listener's port by
  -- reference.
  abbrev pub port_left : Gateway State → ℕ → Listener → Bytes → Gateway State
  port_left g socket l port = record g {
    listeners = insert socket (record l { http_server_port = port }) g.listeners;
  }

  -- That statement at a socket, with the number that the generator draws.
  unfoldable pub on_choose_port : Gateway State → ℕ → ℕ → Option (Gateway State)
  on_choose_port g socket draw = elim (lookup socket g.listeners) [
    | none ↦ none
    | some l ↦ Option.map (port_left g socket l) (choose_port draw l.http_server_port)
  ]

  -- One step of the gateway. A new socket is none of the live ones.
  pub data Step (t : Target) : Gateway State → Gateway State → Type 0 where
    creates :
        {g g' : Gateway State} (socket : ℕ) (params : Parameters) (peer : Peer)
        (dropped : List Dropped)
        → lookup socket g.listeners ≡ none
        → on_after_create t g socket params peer ≡ some (g', dropped)
        → Step t g g'
    reads :
        {g g' : Gateway State} (socket : ℕ) (size : ℤ) (input : Bytes) (now : ℕ)
        (r : Option Request)
        → on_read g socket size input now ≡ some (g', r)
        → Step t g g'
    closes : {g g' : Gateway State} (socket : ℕ) → on_close_frame g socket ≡ some g' → Step t g g'
    chooses :
        {g g' : Gateway State} (socket draw : ℕ)
        → on_choose_port g socket draw ≡ some g'
        → Step t g g'
    destroys :
        {g g' : Gateway State} (socket : ℕ) → on_before_destroy g socket ≡ some g' → Step t g g'

  pub data Reach (t : Target) (g : Gateway State) : Gateway State → Type 0 where
    here : Reach t g g
    next : {h k : Gateway State} → Reach t g h → Step t h k → Reach t g k
