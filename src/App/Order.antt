-- ===== src/App/Order.antt =====
-- The order of the start: what has been done where the process exits, and where it serves.
use wsgateway.Prelude.{ℕ, ◌≡◌, ◌≢◌, Bool, true, false, List, [], ◌∷◌, Bytes, if◌then◌else◌, arith}
use wsgateway.Std.Number.{pos, to_signed}
use wsgateway.Config.{Config}
use wsgateway.Scylla.Driver.{Driver}
use wsgateway.Scylla.Manager.{
  ScyllaManager, new_manager, connect, create_keyspace, create_table, create_materialized_view,
  execute_query, keyspace_query, table_query, view_create_query,
}
use wsgateway.App.Startup.{make_manager, connecting, exited, serving, run}

module _ (d : Driver) where
  open d use {State, execute}

  -- The session behind a list of statements, each run where the one before has succeeded, and
  -- whether all have succeeded.
  abbrev pub run_all : List Bytes → State → State × Bool
  run_all [] s = (s, true)
  run_all (q ∷ qs) s =
      let r = execute_query d q s in
      let more = run_all qs r.session in if r.value then more else (r.session, false)

-- The manager behind the start.
abbrev pub ready : Config → ScyllaManager
ready c = record (make_manager c) {
  m_keyspace = c.scylladb_keyspace_name;
  m_table = c.scylladb_table_name;
}

-- The three statements of the start, of the configured keyspace and table.
abbrev pub statements : Config → List Bytes
statements c =
    keyspace_query c.scylladb_keyspace_name c.scylladb_strategy
      (to_signed 32 (pos c.scylladb_replication_factor))
    ∷ table_query (ready c)
    ∷ view_create_query (ready c)
    ∷ []

module _ (d : Driver) (cass_connect : Bytes → List ℕ → d.State → d.State × Bool) where
  open d use {State}

  -- The connection comes first and nothing is run without it. Then the three statements are run in
  -- their order, each only if the one before has succeeded, and the session is theirs. The start
  -- goes on, with the configured keyspace and table, exactly if the connection and all three
  -- succeed.
  pub run_lem :
      (c : Config) (s : State)
      → let joined = connect cass_connect (make_manager c) c.scylladb_address s in
        let all = run_all d (statements c) joined.session in
        let start = run d cass_connect c (make_manager c) s in
        (joined.value ≡ false
          → (start.session ≡ joined.session) × (start.outcome ≡ exited connecting))
        × (joined.value ≡ true → start.session ≡ all.0)
        × (joined.value ≡ true → all.1 ≡ true → start.outcome ≡ serving (ready c))
        × (joined.value ≡ true → all.1 ≡ false → (m : ScyllaManager) → start.outcome ≢ serving m)
  unfolding run connect create_keyspace create_table create_materialized_view new_manager
  run_lem c s = (
    (λ off. (ground arith, ground arith)),
    (λ on. ground arith),
    (λ on all. ground arith),
    (λ on some_failed m e. ground arith),
  )
