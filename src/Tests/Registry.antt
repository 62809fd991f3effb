-- ===== src/Tests/Registry.antt =====
-- src/websocket/WebSocketComponents.h at concrete inputs, with the table in memory.
use wsgateway.Prelude.{
  at, ℕ, zero, suc, ◌≡◌, refl, true, false, [], some, Bytes, codes, same, arith, lookup, bytes_eq,
  nat_eq,
}
use wsgateway.Scylla.Manager.{insert_data, execute_query, insert_query}
use wsgateway.Scylla.Cql.{IsName}
use wsgateway.Scylla.Table.Memory.{
  vehicles, memory, memory_cql, Rows, run_text, run_insert, store, strip,
}
use wsgateway.Websocket.Registry.{Registry, text, not_available, add_client, send_text_message}
use wsgateway.Websocket.Registry.Laws.{add_client_lem}
use wsgateway.Websocket.Registry.Agreement.{InTable}
use wsgateway.Websocket.Registry.Finishes.{IsHeld, Finishes, Moves-Finishes}
use wsgateway.Websocket.Registry.Race.{
  System, leave, finished, before, Moves, start, then_move, acquires, IsExclusive, inside, holding,
  stale_table,
}

-- The registry on the table in memory.
abbrev pub no_clients : Registry Rows
no_clients = record { clients = []; session = []; errors = [] }

abbrev pub car : Bytes
car = codes "car1"

pub IsName-car : IsName car
IsName-car = (ground arith, ground arith)

pub IsName-gate : IsName (codes "gate1")
IsName-gate = (ground arith, ground arith)

car_stored : (insert_data memory vehicles car (codes "gate1") []).value ≡ true
unfolding insert_data execute_query insert_query run_text run_insert store strip
car_stored = refl

add_client_lem_example :
    let r' = add_client memory vehicles no_clients car 7 in
    ((message : Bytes) → send_text_message r'.clients car message ≡ some (7, text message))
    × (lookup car r'.session ≡ some (codes "gate1"))
    × ((v : Bytes)
        → same car v ≡ false
        → (lookup v r'.clients ≡ lookup v no_clients.clients)
          × (lookup v r'.session ≡ lookup v no_clients.session))
    × (r'.errors ≡ [])
add_client_lem_example =
    add_client_lem memory vehicles memory_cql no_clients car 7 IsName-car IsName-gate car_stored

pub none_agree : InTable memory vehicles memory_cql no_clients
unfolding lookup
none_agree v = ((λ e. absurd (cc)), (λ e. absurd (cc)))

-- Two threads, and the first has taken the lock.
none_inside : (i : ℕ) → inside ((before car 7).place i) ≡ false
none_inside zero = refl
none_inside (suc zero) = refl
none_inside (suc (suc n)) = refl

abbrev entered : System
entered = record (before car 7) {
  lock = true;
  place = at 0 (holding (leave car)) (before car 7).place;
}

Moves-Finishes_example :
    IsExclusive entered × IsHeld entered × ((i : ℕ) → Finishes (codes "gate1") i entered)
Moves-Finishes_example =
    Moves-Finishes (codes "gate1") (before car 7) refl none_inside
      (then_move start (acquires (before car 7) 0 (leave car) refl refl))

stale_table_example :
    (s : System) × Moves (codes "gate1") (before car 7) s
    × ((i : ℕ) → s.place i ≡ finished)
    × (lookup car s.clients ≡ some 7)
    × (lookup car s.table ≡ some not_available)
stale_table_example = stale_table (codes "gate1") car 7
