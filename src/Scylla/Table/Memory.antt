-- ===== src/Scylla/Table/Memory.antt =====
-- A database in memory that reads the program's statements, for the table vehicles in the keyspace
-- vin: an instance of what the program relies on.
use wsgateway.Prelude.{
  ◌≡◌, inr, List, [], ◌∷◌, ◌++◌, Option, none, some, if◌then◌else◌, ◌==◌, Bytes, codes, Lacks,
  lookup, insert, erase, lookup-insert, lookup-erase, bytes_eq,
}
use wsgateway.Std.Stream.{cut_at, cut_at-append}
use wsgateway.Scylla.Driver.{Driver, Row}
use wsgateway.Scylla.Manager.{ScyllaManager}
use wsgateway.Scylla.Text.{quote}
use wsgateway.Scylla.Cql.{Cql, host_rows, set_host, drop_host, get_host}

abbrev pub vehicles : ScyllaManager
vehicles = record {
  m_keyspace = codes "vin";
  m_table = codes "vehicles";
  m_app_server_name = codes "gate1";
  m_scylladb_server_name = codes "127.0.0.1";
  m_scylladb_port = codes "9042";
}

-- The rest of a text behind a prefix.
unfoldable pub strip : Bytes → Bytes → Option Bytes
strip [] s = some s
strip (c ∷ p) [] = none
strip (c ∷ p) (d ∷ s) = if c == d then strip p s else none

abbrev pub Rows : Type 0
Rows = List (Bytes × Bytes)

abbrev insert_front : Bytes
insert_front = codes "INSERT INTO vin.vehicles (vin, host) VALUES ('"

abbrev delete_front : Bytes
delete_front = codes "DELETE FROM vin.vehicles WHERE vin = '"

abbrev select_front : Bytes
select_front = codes "SELECT host FROM vin.vehicles WHERE vin = '"

unfoldable pub store : Bytes → Option Bytes → Rows → Rows × Option (List Row)
store vin none m = (m, none)
store vin (some t) m = (insert vin (cut_at quote t).0 m, some [])

unfoldable pub run_insert : Bytes → Rows → Rows × Option (List Row)
unfolding store
run_insert s m = let vin = cut_at quote s in store vin.0 (strip (codes ", '") vin.1) m

unfoldable pub run_delete : Bytes → Rows → Rows × Option (List Row)
run_delete s m = (erase (cut_at quote s).0 m, some [])

unfoldable pub run_select : Bytes → Rows → Rows × Option (List Row)
run_select s m = (m, some (host_rows (lookup (cut_at quote s).0 m)))

unfoldable pub run_text : Bytes → Rows → Rows × Option (List Row)
run_text q m = elim (strip insert_front q) [
  | some s ↦ run_insert s m
  | none ↦ elim (strip delete_front q) [
    | some s ↦ run_delete s m
    | none ↦ elim (strip select_front q) [ some s ↦ run_select s m | none ↦ (m, none) ]
  ]
]

abbrev pub memory : Driver
memory = record { State = Rows; execute = run_text }

pub run_insert_lem :
    (vin host : Bytes) (m : Rows)
    → Lacks quote vin
    → Lacks quote host
    → run_text (set_host vehicles vin host) m ≡ (insert vin host m, some [])
unfolding run_text run_insert strip
run_insert_lem vin host m h k = rw (
  cut_at-append quote vin (codes ", '" ++ (host ++ codes "');")) h,
  cut_at-append quote host (codes ");") k,
)

pub run_delete_lem :
    (vin : Bytes) (m : Rows)
    → Lacks quote vin
    → run_text (drop_host vehicles vin) m ≡ (erase vin m, some [])
unfolding run_text run_delete strip
run_delete_lem vin m h = rw (cut_at-append quote vin (codes ";") h)

pub run_select_lem :
    (vin : Bytes) (m : Rows)
    → Lacks quote vin
    → run_text (get_host vehicles vin) m ≡ (m, some (host_rows (lookup vin m)))
unfolding run_text run_select strip
run_select_lem vin m h = rw (cut_at-append quote vin (codes ";") h)

abbrev pub memory_cql : Cql memory vehicles
memory_cql = record {
  hosts = λ s v. lookup v s;
  inserted =
      λ vin host s h k ran v. rw (run_insert_lem vin host s h.0 k.0) (lookup-insert vin v host s);
  deleted = λ vin s h ran v. rw (run_delete_lem vin s h.0) (lookup-erase vin v s);
  selected = λ vin s h. inr (rw (run_select_lem vin s h.0));
  select_keeps = λ vin s h v. rw (run_select_lem vin s h.0);
}
