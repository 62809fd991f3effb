-- ===== src/Scylla/Table/Refines.antt =====
-- The methods of the manager refine the operations of a map from clients to hosts.
use wsgateway.Prelude.{
  ◌≡◌, refl, sym, List, ◌∙◌, ap, ◌⊎◌, inl, inr, true, Option, none, some, if◌then◌else◌, Bytes,
  same, arith, lookup, bytes_eq,
}
use wsgateway.Scylla.Driver.{Driver, Row}
use wsgateway.Scylla.Manager.{
  ScyllaManager, insert_query, delete_query, select_query, insert_data, delete_data, query_table,
  execute_query, Answer, nothing, found, read_rows,
}
use wsgateway.Scylla.Cql.{IsName, Cql, host_rows, get_host}

-- What a successful query answers for a host of the map.
abbrev pub answer_of : Option Bytes → Answer
answer_of none = nothing
answer_of (some h) = found h

-- The same, with nothing where the statement failed.
abbrev pub answer_where : Option (List Row) → Option Bytes → Answer
answer_where none host = nothing
answer_where (some rows) host = answer_of host

module _ (d : Driver) (m : ScyllaManager) (c : Cql d m) where
  open d use {State, execute}
  open c use {hosts}

  -- On a database that keeps its promises, and for names without a quote and a NUL, an insert that
  -- returns true has stored the host for the client, and has changed nothing else.
  pub insert_data_lem :
      (vin host : Bytes) (s : State)
      → IsName vin
      → IsName host
      → (insert_data d m vin host s).value ≡ true
      → (v : Bytes)
      → hosts (insert_data d m vin host s).session v ≡ (if same vin v then some host else hosts s v)
  unfolding insert_data execute_query insert_query
  insert_data_lem vin host s h k t v = c.inserted vin host s h k (λ e. ground arith) v

  -- On a database that keeps its promises, and for a name without a quote and a NUL, a delete that
  -- returns true has removed the client, and has changed nothing else.
  pub delete_data_lem :
      (vin : Bytes) (s : State)
      → IsName vin
      → (delete_data d m vin s).value ≡ true
      → (v : Bytes)
      → hosts (delete_data d m vin s).session v ≡ (if same vin v then none else hosts s v)
  unfolding delete_data execute_query delete_query
  delete_data_lem vin s h t v = c.deleted vin s h (λ e. ground arith) v

  answer_rows : (o : Option Bytes) → (read_rows (some (host_rows o))).0 ≡ answer_of o
  unfolding lookup
  answer_rows none = refl
  answer_rows (some h) = refl

  -- On a database that keeps its promises, and for a name without a quote and a NUL, a query
  -- answers with nothing where the statement that selects the client's host fails, and otherwise
  -- with the host of the client, or with nothing if the client has none; it changes no host.
  pub query_table_lem :
      (vin : Bytes) (s : State)
      → IsName vin
      → ((query_table d m vin s).value ≡ answer_where (execute (get_host m vin) s).1 (hosts s vin))
        × ((v : Bytes) → hosts (query_table d m vin s).session v ≡ hosts s v)
  unfolding query_table select_query
  query_table_lem vin s h = (answer (c.selected vin s h), c.select_keeps vin s h)
    where
      answer :
          ((execute (get_host m vin) s).1 ≡ none)
            ⊎ ((execute (get_host m vin) s).1 ≡ some (host_rows (hosts s vin)))
          → (query_table d m vin s).value
            ≡ answer_where (execute (get_host m vin) s).1 (hosts s vin)
      answer (inl e) = ap (λ o. (read_rows o).0) e ∙ ap (λ o. answer_where o (hosts s vin)) (sym e)
      answer (inr e) =
          ap (λ o. (read_rows o).0) e
          ∙ answer_rows (hosts s vin)
          ∙ ap (λ o. answer_where o (hosts s vin)) (sym e)
