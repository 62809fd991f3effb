-- ===== src/Tests/Websocket.antt =====
-- src/websocket/WebSocketListener.cpp at concrete inputs, with the table in memory.
use wsgateway.Prelude.{
  ◌≡◌, ◌≢◌, ◌↔◌, ◌⊎◌, refl, true, false, [], none, some, codes, arith, lookup, insert, bytes_eq,
  nat_eq,
}
use wsgateway.Scylla.Manager.{insert_data, execute_query, insert_query}
use wsgateway.Scylla.Table.Memory.{
  vehicles, memory, memory_cql, Rows, run_text, run_insert, store, strip,
}
use wsgateway.Controller.{ws_parameters, ws1_parameters}
use wsgateway.Websocket.Registry.{add_client, set_client_not_available}
use wsgateway.Websocket.Registry.Agreement.{perform_all, AllStored, InTable}
use wsgateway.Websocket.Listener.{Listener, new_listener}
use wsgateway.Websocket.Certificate.{Certificate, Peer, plain, secure, peer_name, peer_name_lem}
use wsgateway.Websocket.Gateway.{
  Reach, here, next, creates, Gateway, Target, register, on_after_create, on_before_destroy,
  destroyed_at, here, next, creates,
}
use wsgateway.Websocket.Gateway.Calls.{calls, Reach-InTable}
use wsgateway.Websocket.Gateway.{closed_at, closes, on_close_frame}
use wsgateway.Websocket.Gateway.Invariant.{IsValid, Reach-IsValid}
use wsgateway.Websocket.Gateway.Reconnect.{reconnect-Lost, Lost, endpoints_register}
use wsgateway.Tests.Registry.{no_clients, car, IsName-car, IsName-gate, none_agree}

abbrev pub target : Target
target = record {
  http_request_address = codes "127.0.0.1";
  http_request_port = codes "8080";
  use_mtls = false;
}

abbrev listener : Listener
listener = record {
  message_buffer = [];
  client_id = car;
  http_server_address = codes "127.0.0.1";
  http_server_port = codes "8080";
  component_set = false;
}

abbrev pub no_sockets : Gateway Rows
no_sockets = record { registry = no_clients; listeners = []; sockets = 0 }

abbrev pub one_socket : Gateway Rows
one_socket = (register memory vehicles target no_sockets 7 car).0

pub no_sockets-IsValid : IsValid target no_sockets
unfolding lookup
no_sockets-IsValid = record {
  serves = λ c k e. absurd (cc);
  unique = tt;
  counted = refl;
  aims = λ k l e. absurd (cc);
}

opened :
    on_after_create memory vehicles target no_sockets 7 (ws_parameters car none) plain
    ≡ some (one_socket, [])
unfolding on_after_create ws_parameters lookup peer_name
opened = refl

-- The first client connects.
pub first_opened : Reach memory vehicles target no_sockets one_socket
unfolding lookup
first_opened = next here (creates 7 (ws_parameters car none) plain [] refl opened)

pub port_given : target.http_request_port ≢ []
port_given e = cc

Reach-IsValid_example : IsValid target one_socket
Reach-IsValid_example =
    Reach-IsValid memory vehicles target port_given first_opened no_sockets-IsValid

abbrev two_sockets : Gateway Rows
two_sockets = (register memory vehicles target one_socket 9 car).0

abbrev pub first_listener : Listener
first_listener = new_listener car (codes "127.0.0.1") (codes "8080")

pub first_live : lookup 7 one_socket.listeners ≡ some first_listener
unfolding lookup insert
first_live = refl

first_gone :
    on_before_destroy memory vehicles two_sockets 7
    ≡ some (destroyed_at memory vehicles two_sockets 7 first_listener)
unfolding on_before_destroy lookup insert
first_gone = refl

reconnect-Lost_example :
    Lost memory vehicles target car 9 (destroyed_at memory vehicles two_sockets 7 first_listener)
unfolding new_listener
reconnect-Lost_example =
    reconnect-Lost memory vehicles target one_socket
      (destroyed_at memory vehicles two_sockets 7 first_listener) 7 9 first_listener first_live
      (omega arith) first_gone

-- A certificate without an organization.
abbrev unorganized : Certificate
unorganized = record { common_name = some car; organization = none }

unorganized_unread :
    ((peer_name true (secure (some unorganized)) ≡ none)
      ↔ ((some car ≡ none) ⊎ (unorganized.organization ≡ none)))
    × (peer_name false plain ≡ some [])
    × (peer_name true (secure none) ≡ some [])
    × (peer_name true plain ≡ some [])
unorganized_unread = peer_name_lem unorganized plain

-- With mutual TLS, a client whose certificate says car1 takes the name car2.
abbrev secured : Target
secured = record target { use_mtls = true }

abbrev car_certificate : Peer
car_certificate =
    secure (some (record { common_name = some car; organization = some (codes "fleet") }))

car_read : peer_name true car_certificate ≢ none
unfolding peer_name
car_read e = cc

car2_registered :
    (on_after_create memory vehicles secured no_sockets 7
        (ws_parameters (codes "car2") none)
        car_certificate
      ≡ some (register memory vehicles secured no_sockets 7 (codes "car2")))
    × (on_after_create memory vehicles secured no_sockets 7 ws1_parameters car_certificate
        ≡ some (register memory vehicles secured no_sockets 7 (codes "VIN1234567890")))
car2_registered =
    endpoints_register memory vehicles secured no_sockets 7 (codes "car2") none car_certificate
      car_read

-- The first client connects, and the other end closes.
abbrev closed_socket : Gateway Rows
closed_socket = closed_at memory vehicles one_socket 7 first_listener

opened_and_closed : Reach memory vehicles target no_sockets closed_socket
unfolding lookup insert on_close_frame
opened_and_closed = next first_opened (closes 7 refl)

opened_and_closed_stored :
    AllStored memory vehicles no_clients (calls memory vehicles target opened_and_closed)
unfolding opened_and_closed first_opened lookup ws_parameters insert insert_data execute_query
    insert_query run_text run_insert store strip add_client set_client_not_available new_listener
opened_and_closed_stored = ((IsName-car, refl), ((IsName-car, refl), tt))

Reach-InTable_example :
    (perform_all memory vehicles no_clients (calls memory vehicles target opened_and_closed)
      ≡ closed_socket.registry)
    × InTable memory vehicles memory_cql closed_socket.registry
Reach-InTable_example =
    Reach-InTable memory vehicles target memory_cql IsName-gate (λ e. cc) opened_and_closed
      opened_and_closed_stored none_agree
