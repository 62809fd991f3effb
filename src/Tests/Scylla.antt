-- ===== src/Tests/Scylla.antt =====
-- src/ScyllaDBManager.h at concrete inputs, on the table in memory.
use wsgateway.Prelude.{
  ◌≡◌, refl, ◌↔◌, true, [], ◌∷◌, ◌++◌, none, some, Bytes, codes, Lacks, arith, lookup, bytes_eq,
}
use wsgateway.Std.Number.{to_string, pos, long_max}
use wsgateway.Scylla.Manager.{
  ScyllaManager, nothing, connect_ports, insert_query, delete_query, select_query, view_query,
  insert_data, delete_data, query_table, execute_query,
}
use wsgateway.Scylla.Connect.{connect_ports_list}
use wsgateway.Scylla.Text.{quote, IsClosed, queries-IsClosed, insert_query_injection}
use wsgateway.Scylla.Handles.{Balanced, query_table-Balanced}
use wsgateway.Scylla.Cql.{IsName}
use wsgateway.Scylla.Table.Memory.{
  vehicles, memory, memory_cql, Rows, run_text, run_insert, run_delete, run_select, store, strip,
}
use wsgateway.Scylla.Table.Refines.{insert_data_lem, delete_data_lem, query_table_lem, answer_of}

abbrev one_row : Rows
one_row = (codes "car1", codes "gate1") ∷ []

abbrev listed : ScyllaManager
listed = record vehicles { m_scylladb_port = codes "9042,9043" }

two_hosts : connect_ports vehicles (codes "a,b") ≡ 9042 ∷ []
unfolding connect_ports wsgateway.Utilis.Split.split wsgateway.Std.Number.strtol
two_hosts = refl

insert_text :
    insert_query vehicles (codes "car1") (codes "gate1")
    ≡ codes "INSERT INTO vin.vehicles (vin, host) VALUES ('car1', 'gate1');"
unfolding insert_query
insert_text = refl

connect_ports_list_example : connect_ports listed (codes "a,b") ≡ []
unfolding to_string
connect_ports_list_example =
    connect_ports_list listed (codes "a,b") 9042 (codes "9043") (omega arith) refl

Lacks-car1 : Lacks quote (codes "car1")
Lacks-car1 = ground arith

Lacks-gate2 : Lacks quote (codes "gate2")
Lacks-gate2 = ground arith

Lacks-names : Lacks quote (codes "vin") × Lacks quote (codes "vehicles")
Lacks-names = ground arith

queries-IsClosed_example :
    IsClosed (insert_query vehicles (codes "car1") (codes "gate2"))
    × IsClosed (delete_query vehicles (codes "car1"))
    × IsClosed (select_query vehicles (codes "car1"))
    × (¬ IsClosed (view_query vehicles (codes "gate2")))
queries-IsClosed_example =
    queries-IsClosed vehicles Lacks-names (codes "car1") (codes "gate2") Lacks-car1 Lacks-gate2

insert_query_injection_example :
    insert_query vehicles
      (codes "car2" ++ (codes "', '" ++ (codes "evil" ++ codes "');")))
      (codes "gate1")
    ≡ insert_query vehicles (codes "car2") (codes "evil")
      ++ (codes "', '" ++ (codes "gate1" ++ codes "');"))
insert_query_injection_example =
    insert_query_injection vehicles (codes "car2") (codes "evil") (codes "gate1")

query_table-Balanced_example :
    Balanced (query_table memory vehicles (codes "car1") one_row).calls
    ↔ ((query_table memory vehicles (codes "car1") one_row).value ≡ nothing)
query_table-Balanced_example = query_table-Balanced memory vehicles (codes "car1") one_row

IsName-car1 : IsName (codes "car1")
IsName-car1 = (ground arith, ground arith)

IsName-gate2 : IsName (codes "gate2")
IsName-gate2 = (ground arith, ground arith)

stored : (insert_data memory vehicles (codes "car1") (codes "gate2") one_row).value ≡ true
unfolding insert_data execute_query insert_query run_text run_insert store strip
stored = refl

insert_data_lem_example :
    lookup
      (codes "car1")
      (insert_data memory vehicles (codes "car1") (codes "gate2") one_row).session
    ≡ some (codes "gate2")
insert_data_lem_example =
    insert_data_lem memory vehicles memory_cql (codes "car1") (codes "gate2") one_row IsName-car1
      IsName-gate2 stored (codes "car1")

removed : (delete_data memory vehicles (codes "car1") one_row).value ≡ true
unfolding delete_data execute_query delete_query run_text run_delete strip
removed = refl

delete_data_lem_example :
    lookup (codes "car1") (delete_data memory vehicles (codes "car1") one_row).session ≡ none
delete_data_lem_example =
    delete_data_lem memory vehicles memory_cql (codes "car1") one_row IsName-car1 removed
      (codes "car1")

query_table_lem_example :
    ((query_table memory vehicles (codes "car1") one_row).value
      ≡ answer_of (lookup (codes "car1") one_row))
    × ((v : Bytes)
        → lookup v (query_table memory vehicles (codes "car1") one_row).session ≡ lookup v one_row)
unfolding lookup run_text run_select strip
query_table_lem_example =
    query_table_lem memory vehicles memory_cql (codes "car1") one_row IsName-car1
