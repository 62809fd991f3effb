-- ===== src/Scylla/Manager.antt =====
-- `ScyllaDBManager`: its fields, the texts of its queries and its methods.
use wsgateway.Prelude.{
  ℕ, Bool, true, false, not, List, [], ◌∷◌, ◌++◌, Option, none, some, if◌then◌else◌, ◌==◌, length,
  empty, Bytes, codes, lookup, bytes_eq,
}
use wsgateway.Std.Number.{ℤ, to_unsigned, strtol, at_end, to_string_ℤ}
use wsgateway.Utilis.Split.{split}
use wsgateway.Scylla.Driver.{
  Driver, Row, Call, acquire, release, statement, future, result, iterator, Run,
}

pub record ScyllaManager : Type 0 where
  pub m_keyspace : Bytes
  pub m_table : Bytes
  pub m_app_server_name : Bytes
  pub m_scylladb_server_name : Bytes
  pub m_scylladb_port : Bytes

-- The constructor; the keyspace and the table are empty at first.
unfoldable pub new_manager : Bytes → Bytes → Bytes → ScyllaManager
new_manager scylladb_server_name app_server_name port = record {
  m_keyspace = [];
  m_table = [];
  m_app_server_name = app_server_name;
  m_scylladb_server_name = scylladb_server_name;
  m_scylladb_port = port;
}

-- The port that `connect` reads out of the whole port text, if the text ends behind it.
abbrev pub read_port : Bytes → List ℕ
read_port text =
    let (port, end) = strtol text in if at_end end then to_unsigned 16 port ∷ [] else []

-- The loop over the port tokens; the offset `i` that it adds stays 0.
unfoldable pub loop_ports : Bytes → List Bytes → List ℕ
loop_ports text [] = []
loop_ports text (p ∷ ps) = (if empty p then [] else read_port text) ++ loop_ports text ps

-- The arguments of `cass_cluster_set_port` in `connect(hosts)`, in their order.
unfoldable pub connect_ports : ScyllaManager → Bytes → List ℕ
connect_ports m hosts =
    let hosts_vec = split hosts b',' in
    let ports_vec = split m.m_scylladb_port b',' in
    if not (length ports_vec == length hosts_vec)
    then read_port m.m_scylladb_port
    else loop_ports m.m_scylladb_port ports_vec

-- `connect`, over the driver's connection with the contact points and the ports that are set.
unfoldable pub connect :
    {S : Type 0} → (Bytes → List ℕ → S → S × Bool) → ScyllaManager → Bytes → S → Run S Bool
connect cass_connect m hosts s =
    let r = cass_connect hosts (connect_ports m hosts) s in
    record { session = r.0; calls = acquire future ∷ release future ∷ []; value = r.1 }

-- The texts of the queries. `++` groups to the right, as the texts are read.
unfoldable pub keyspace_query : Bytes → Bytes → ℤ → Bytes
keyspace_query keyspace strategy replication_factor =
    codes "CREATE KEYSPACE IF NOT EXISTS "
    ++ (keyspace
        ++ (codes " WITH replication = {'class': '"
            ++ (strategy
                ++ (codes "', 'replication_factor': "
                    ++ (to_string_ℤ replication_factor
                        ++ codes "} AND TABLETS = {'enabled': false};")))))

abbrev pub table_name : ScyllaManager → Bytes
table_name m = m.m_keyspace ++ (codes "." ++ m.m_table)

unfoldable pub table_query : ScyllaManager → Bytes
table_query m =
    codes "CREATE TABLE IF NOT EXISTS "
    ++ (table_name m ++ codes " (vin text PRIMARY KEY, host text);")

unfoldable pub view_create_query : ScyllaManager → Bytes
view_create_query m =
    codes "CREATE MATERIALIZED VIEW IF NOT EXISTS "
    ++ (table_name m
        ++ (codes "_by_host AS SELECT host, vin FROM "
            ++ (table_name m
                ++ codes " WHERE host IS NOT NULL AND vin IS NOT NULL PRIMARY KEY (host, vin);")))

unfoldable pub select_query : ScyllaManager → Bytes → Bytes
select_query m vin =
    codes "SELECT host FROM " ++ (table_name m ++ (codes " WHERE vin = '" ++ (vin ++ codes "';")))

unfoldable pub view_query : ScyllaManager → Bytes → Bytes
view_query m host =
    codes "SELECT vin FROM " ++ (table_name m ++ (codes "_by_host WHERE host == '" ++ host))

unfoldable pub insert_query : ScyllaManager → Bytes → Bytes → Bytes
insert_query m vin host =
    codes "INSERT INTO "
    ++ (table_name m
        ++ (codes " (vin, host) VALUES ('" ++ (vin ++ (codes "', '" ++ (host ++ codes "');")))))

unfoldable pub delete_query : ScyllaManager → Bytes → Bytes
delete_query m vin =
    codes "DELETE FROM " ++ (table_name m ++ (codes " WHERE vin = '" ++ (vin ++ codes "';")))

-- What `query_table` returns. A null column leaves the pointer that it reads unset.
pub data Answer : Type 0 where
  nothing : Answer
  found : Bytes → Answer
  unset : Answer

-- The host in the first row; the handles that the branch frees.
abbrev pub first_host : List Row → Answer × List Call
first_host [] = (nothing, release result ∷ release future ∷ [])
first_host (row ∷ rows) = elim (lookup (codes "host") row) [
  | none ↦ (unset, release future ∷ [])
  | some h ↦ (found h, release future ∷ [])
]

-- The loop over the rows of the view; a null column gives no text to append.
unfoldable pub collect_vins : List Row → List (Option Bytes) → List (Option Bytes)
collect_vins [] vins = vins
collect_vins (row ∷ rows) vins = collect_vins rows (vins ++ lookup (codes "vin") row ∷ [])

-- What `query_table` reads from the future and frees.
abbrev pub read_rows : Option (List Row) → Answer × List Call
read_rows none = (nothing, release future ∷ [])
read_rows (some rows) = let b = first_host rows in (b.0, acquire result ∷ b.1)

-- What `query_materialized_view` reads from the future and frees.
abbrev pub read_vins : Option (List Row) → List (Option Bytes) × List Call
read_vins none = ([], release future ∷ [])
read_vins (some rows) = (
  collect_vins rows [],
  acquire result ∷ acquire iterator ∷ release iterator ∷ release result ∷ release future ∷ [],
)

module _ (d : Driver) where
  open d use {State, execute}

  -- `execute_query`
  unfoldable pub execute_query : Bytes → State → Run State Bool
  execute_query query s =
      let r = execute query s in
      record {
        session = r.0;
        calls = acquire statement ∷ acquire future ∷ release statement ∷ release future ∷ [];
        value = elim r.1 [ none ↦ false | some rows ↦ true ];
      }

  unfoldable pub create_keyspace :
      ScyllaManager → Bytes → Bytes → ℤ → State → ScyllaManager × Run State Bool
  create_keyspace m keyspace strategy replication_factor s = (
    record m { m_keyspace = keyspace },
    execute_query (keyspace_query keyspace strategy replication_factor) s,
  )

  unfoldable pub create_table : ScyllaManager → Bytes → State → ScyllaManager × Run State Bool
  create_table m table s =
      let m' = record m { m_table = table } in (m', execute_query (table_query m') s)

  unfoldable pub create_materialized_view : ScyllaManager → State → Run State Bool
  create_materialized_view m s = execute_query (view_create_query m) s

  unfoldable pub insert_data : ScyllaManager → Bytes → Bytes → State → Run State Bool
  insert_data m vin host s = execute_query (insert_query m vin host) s

  unfoldable pub delete_data : ScyllaManager → Bytes → State → Run State Bool
  delete_data m vin s = execute_query (delete_query m vin) s

  -- `query_table`
  unfoldable pub query_table : ScyllaManager → Bytes → State → Run State Answer
  query_table m vin s =
      let r = execute (select_query m vin) s in
      let a = read_rows r.1 in
      record {
        session = r.0;
        calls = acquire statement ∷ acquire future ∷ release statement ∷ a.1;
        value = a.0;
      }

  -- `query_materialized_view`
  unfoldable pub query_materialized_view :
      ScyllaManager → Bytes → State → Run State (List (Option Bytes))
  query_materialized_view m host s =
      let r = execute (view_query m host) s in
      let a = read_vins r.1 in
      record {
        session = r.0;
        calls = acquire statement ∷ acquire future ∷ release statement ∷ a.1;
        value = a.0;
      }
