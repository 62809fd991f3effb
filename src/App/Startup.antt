-- ===== src/App/Startup.antt =====
-- The statements of `run` of src/App.cpp to the database, step by step, before anything else.
use wsgateway.Prelude.{ℕ, Bool, List, Bytes, if◌then◌else◌}
use wsgateway.Std.Number.{pos, to_signed}
use wsgateway.Config.{Config}
use wsgateway.Scylla.Driver.{Driver, Run}
use wsgateway.Scylla.Manager.{
  ScyllaManager, new_manager, connect, create_keyspace, create_table, create_materialized_view,
}

-- The component `scyllaDBManager`.
abbrev pub make_manager : Config → ScyllaManager
make_manager c = new_manager c.scylladb_address c.host_ip c.scylladb_port

-- `exit(-1)` at one of the four steps, or the manager with which the start goes on.
pub data Stage : Type 0 where
  connecting keyspace table view : Stage

pub data Outcome : Type 0 where
  exited : Stage → Outcome
  serving : ScyllaManager → Outcome

pub record Start (S : Type 0) : Type 0 where
  pub session : S
  pub outcome : Outcome

module _ (d : Driver) (cass_connect : Bytes → List ℕ → d.State → d.State × Bool) where
  open d use {State}

  -- The steps from the last to the first. A step that fails ends the process there.
  abbrev pub after_view : ScyllaManager → Run State Bool → Start State
  after_view m r = record {
    session = r.session;
    outcome = if r.value then serving m else exited view;
  }

  abbrev pub after_table : ScyllaManager × Run State Bool → Start State
  after_table (m, r) =
      if r.value
      then after_view m (create_materialized_view d m r.session)
      else record { session = r.session; outcome = exited table }

  abbrev pub after_keyspace : Config → ScyllaManager × Run State Bool → Start State
  after_keyspace c (m, r) =
      if r.value
      then after_table (create_table d m c.scylladb_table_name r.session)
      else record { session = r.session; outcome = exited keyspace }

  -- `run` from the connection to the router. The replication factor is cast from an unsigned to a signed 32-bit number.
  unfoldable pub run : Config → ScyllaManager → State → Start State
  run c m s =
      let joined = connect cass_connect m c.scylladb_address s in
      if joined.value
      then after_keyspace c (
          create_keyspace d m c.scylladb_keyspace_name c.scylladb_strategy
            (to_signed 32 (pos c.scylladb_replication_factor)) joined.session)
      else record { session = joined.session; outcome = exited connecting }
