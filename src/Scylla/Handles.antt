-- ===== src/Scylla/Handles.antt =====
-- The handles that each method of `ScyllaDBManager` takes and frees.
use wsgateway.Prelude.{
  ℕ, ◌+◌, ◌≡◌, refl, ◌↔◌, List, [], ◌∷◌, Option, none, some, arith, Bytes, bytes_eq,
}
use wsgateway.Scylla.Driver.{
  Driver, Row, Handle, statement, future, result, iterator, Call, acquire, release,
}
use wsgateway.Scylla.Manager.{
  ScyllaManager, nothing, execute_query, query_table, query_materialized_view, select_query,
  view_query, read_rows, read_vins,
}

-- How often a handle of a kind is taken, and how often it is freed.
abbrev is_kind : Handle → Handle → ℕ
is_kind statement statement = 1
is_kind future future = 1
is_kind result result = 1
is_kind iterator iterator = 1
is_kind _ _ = 0

abbrev pub acquired : Handle → List Call → ℕ
acquired h [] = 0
acquired h (acquire k ∷ cs) = is_kind h k + acquired h cs
acquired h (release k ∷ cs) = acquired h cs

abbrev pub released : Handle → List Call → ℕ
released h [] = 0
released h (acquire k ∷ cs) = released h cs
released h (release k ∷ cs) = is_kind h k + released h cs

abbrev pub Balanced : List Call → Type 0
Balanced cs = (h : Handle) → acquired h cs ≡ released h cs

-- The calls around what a query's future is read with.
abbrev around : List Call → List Call
around cs = acquire statement ∷ acquire future ∷ release statement ∷ cs

vins-Balanced : (o : Option (List Row)) → Balanced (around (read_vins o).1)
vins-Balanced none statement = refl
vins-Balanced none h = refl
vins-Balanced (some rows) statement = refl
vins-Balanced (some rows) h = refl

rows-Balanced :
    (o : Option (List Row)) → (read_rows o).0 ≡ nothing → Balanced (around (read_rows o).1)
rows-Balanced none e statement = refl
rows-Balanced none e h = refl
rows-Balanced (some []) e statement = refl
rows-Balanced (some []) e h = refl
rows-Balanced (some (row ∷ rows)) e h = absurd (ground arith)

Balanced-rows :
    (o : Option (List Row)) → Balanced (around (read_rows o).1) → (read_rows o).0 ≡ nothing
Balanced-rows none b = refl
Balanced-rows (some []) b = refl
Balanced-rows (some (row ∷ rows)) b = absurd (ground (arith, b result))

module _ (d : Driver) where
  open d use {State, execute}

  -- A query that only succeeds or fails frees what it takes, on both branches.
  pub execute_query-Balanced :
      (query : Bytes) (s : State) → Balanced (execute_query d query s).calls
  unfolding execute_query
  execute_query-Balanced query s statement = refl
  execute_query-Balanced query s h = refl

  -- The query by host frees what it takes, whether it succeeds or fails.
  pub query_materialized_view-Balanced :
      (m : ScyllaManager) (host : Bytes) (s : State)
      → Balanced (query_materialized_view d m host s).calls
  unfolding query_materialized_view
  query_materialized_view-Balanced m host s = vins-Balanced (execute (view_query m host) s).1

  -- The query by client frees what it takes exactly when it finds no row: otherwise it keeps the
  -- result.
  pub query_table-Balanced :
      (m : ScyllaManager) (vin : Bytes) (s : State)
      → Balanced (query_table d m vin s).calls ↔ ((query_table d m vin s).value ≡ nothing)
  unfolding query_table
  query_table-Balanced m vin s =
      let o = (execute (select_query m vin) s).1 in (Balanced-rows o, rows-Balanced o)
