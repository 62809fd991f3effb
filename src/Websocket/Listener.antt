-- ===== src/Websocket/Listener.antt =====
-- `WebSocketListener` of src/websocket/WebSocketListener.h and .cpp: one connection's listener.
pub mod Messages
pub mod Answers
use wsgateway.Prelude.{
  ℕ, ◌-◌, ◌/◌, Bool, true, false, List, [], ◌∷◌, ◌++◌, Option, none, some, Bytes, codes, take,
  if◌then◌else◌, ◌==◌,
}
use wsgateway.Std.Number.{ℤ, pos, negsuc, to_string}
use wsgateway.Scylla.Driver.{Driver}
use wsgateway.Scylla.Manager.{ScyllaManager}
use wsgateway.Websocket.Registry.{Registry, Frame, text, set_client_not_available}

-- The listener's fields; of the pointer to the registry's one instance, whether it is set.
pub record Listener : Type 0 where
  pub message_buffer : Bytes
  pub client_id : Bytes
  pub http_server_address : Bytes
  pub http_server_port : Bytes
  pub component_set : Bool

-- The constructor.
unfoldable pub new_listener : Bytes → Bytes → Bytes → Listener
new_listener id host port = record {
  message_buffer = [];
  client_id = id;
  http_server_address = host;
  http_server_port = port;
  component_set = false;
}

-- What `readMessage` hands to `asyncHttpClient`: the message and the time in decimal. The host, the
-- port and the client are the listener's own fields.
pub record Request : Type 0 where
  pub message : Bytes
  pub arrived : Bytes

-- `onPing` returns the pong that answers it, `onPong` nothing.
pub data Answer : Type 0 where
  pong : ℕ → Bytes → Answer

unfoldable pub on_ping : ℕ → Bytes → Option Answer
on_ping socket message = some (pong socket message)

unfoldable pub on_pong : ℕ → Bytes → Option Answer
on_pong socket message = none

-- `onClose`; the code and the message are not used.
module _ (d : Driver) (m : ScyllaManager) where
  open d use {State}

  unfoldable pub on_close : Listener → Registry State → Listener × Registry State
  on_close l r = (record l { component_set = true }, set_client_not_available d m r l.client_id)

-- `readMessage` at the time `now` in nanoseconds: the listener behind it, and what it dispatches.
unfoldable pub read_message : Listener → ℤ → Bytes → ℕ → Listener × Option Request
read_message l (pos n) input now =
    if n == 0
    then (
      record l { message_buffer = [] },
      some (record { message = l.message_buffer; arrived = to_string now }),
    )
    else (record l { message_buffer = l.message_buffer ++ take n input }, none)
read_message l (negsuc n) input now = (l, none)

-- What the coroutine gives to the handler that `readMessage` leaves with it.
pub data Completion : Type 0 where
  threw : Bytes → Completion
  returned : Bytes → Completion

-- The coroutine by which the executor sends a result, with its fields.
pub record SendMessageCoroutine : Type 0 where
  pub m_socket : ℕ
  pub m_message : Bytes

-- Its `act`: the frame, and the socket that it is handed to.
abbrev pub act : SendMessageCoroutine → ℕ × Frame
act c = (c.m_socket, text c.m_message)

-- The handler: an exception is logged, an empty result is dropped, any other result is given to
-- the executor, to be sent to the socket as one text frame.
unfoldable pub on_complete : ℕ → Completion → Option (ℕ × Frame)
on_complete socket (threw what) = none
on_complete socket (returned []) = none
on_complete socket (returned (c ∷ s)) = some (act (record { m_socket = socket; m_message = c ∷ s }))
