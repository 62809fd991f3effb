-- ===== src/Websocket/Registry.antt =====
-- `WebSocketComponent` of src/websocket/WebSocketComponents.h, as one thread runs it. A socket is a
-- number, the identity of its object.
pub mod Laws
pub mod Race
pub mod Finishes
pub mod Agreement
use wsgateway.Prelude.{
  ℕ, Bool, true, false, List, [], ◌∷◌, Option, none, some, Bytes, codes, lookup, insert, erase,
  bytes_eq,
}
use wsgateway.Scylla.Driver.{Driver, Run}
use wsgateway.Scylla.Manager.{ScyllaManager, insert_data, delete_data}

abbrev pub Clients : Type 0
Clients = List (Bytes × ℕ)

-- The errors that the methods log: an insert that failed, with the client and the server, and a
-- delete that failed.
pub data LogLine : Type 0 where
  insert_failed : Bytes → Bytes → LogLine
  delete_failed : Bytes → LogLine

-- The map of the clients, the database's session behind `dbManager`, and the errors that the
-- methods have logged, the latest first.
pub record Registry (S : Type 0) : Type 0 where
  pub clients : Clients
  pub session : S
  pub errors : List LogLine

pub data Frame : Type 0 where
  text binary : Bytes → Frame

abbrev pub not_available : Bytes
not_available = codes "NA"

-- A line is logged where the statement failed.
abbrev pub log_failure : Bool → LogLine → List LogLine → List LogLine
log_failure true line errors = errors
log_failure false line errors = line ∷ errors

module _ (d : Driver) (m : ScyllaManager) where
  open d use {State}

  -- A method's end: the session behind its statement, and an error logged if it failed.
  abbrev pub after : Registry State → Clients → Run State Bool → LogLine → Registry State
  after r clients run line = record {
    clients = clients;
    session = run.session;
    errors = log_failure run.value line r.errors;
  }

  unfoldable pub add_client : Registry State → Bytes → ℕ → Registry State
  add_client r client socket =
      after r (insert client socket r.clients)
        (insert_data d m client m.m_app_server_name r.session)
        (insert_failed client m.m_app_server_name)

  unfoldable pub set_client_not_available : Registry State → Bytes → Registry State
  set_client_not_available r client =
      after r (erase client r.clients) (insert_data d m client not_available r.session)
        (insert_failed client m.m_app_server_name)

  unfoldable pub remove_client : Registry State → Bytes → Registry State
  remove_client r client =
      after r (erase client r.clients) (delete_data d m client r.session) (delete_failed client)

-- `sendTextMessageToClient` and `sendBinaryMessageToClient`: the frame and the socket that it is
-- handed to.
unfoldable pub send_text_message : Clients → Bytes → Bytes → Option (ℕ × Frame)
send_text_message clients client message = elim (lookup client clients) [
  | none ↦ none
  | some socket ↦ some (socket, text message)
]

unfoldable pub send_binary_message : Clients → Bytes → Bytes → Option (ℕ × Frame)
send_binary_message clients client message = elim (lookup client clients) [
  | none ↦ none
  | some socket ↦ some (socket, binary message)
]
