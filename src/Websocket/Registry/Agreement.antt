-- ===== src/Websocket/Registry/Agreement.antt =====
-- The map of src/websocket/WebSocketComponents.h and the table in the database, when one thread
-- runs its methods one after another.
use wsgateway.Prelude.{
  ℕ, ◌≡◌, ◌≢◌, refl, ◌↔◌, inl, inr, Bool, true, false, List, [], ◌∷◌, Option, none, some, Bytes,
  same, if◌then◌else◌, arith, lookup, lookup-insert, lookup-erase, bytes_eq, Bool-cases,
}
use wsgateway.Scylla.Driver.{Driver}
use wsgateway.Scylla.Manager.{ScyllaManager, insert_data, delete_data}
use wsgateway.Scylla.Cql.{Cql, IsName}
use wsgateway.Scylla.Table.Refines.{insert_data_lem, delete_data_lem}
use wsgateway.Websocket.Registry.Laws.{IsName-not_available}
use wsgateway.Websocket.Registry.{
  Registry, not_available, add_client, set_client_not_available, remove_client,
}

abbrev pub is_some {ℓ} : {A : Type ℓ} → Option A → Bool
is_some none = false
is_some (some a) = true

-- A call of one of the three methods that change the registry.
pub data Action : Type 0 where
  adds : Bytes → ℕ → Action
  leaves removes : Bytes → Action

module _ (d : Driver) (m : ScyllaManager) where
  open d use {State}

  abbrev pub perform : Registry State → Action → Registry State
  perform r (adds client socket) = add_client d m r client socket
  perform r (leaves client) = set_client_not_available d m r client
  perform r (removes client) = remove_client d m r client

  abbrev pub perform_all : Registry State → List Action → Registry State
  perform_all r [] = r
  perform_all r (a ∷ more) = perform_all (perform r a) more

  -- The client's name fits a statement, and the statement succeeds.
  abbrev pub IsStored : Registry State → Action → Type 0
  IsStored r (adds client socket) =
      IsName client × ((insert_data d m client m.m_app_server_name r.session).value ≡ true)
  IsStored r (leaves client) =
      IsName client × ((insert_data d m client not_available r.session).value ≡ true)
  IsStored r (removes client) = IsName client × ((delete_data d m client r.session).value ≡ true)

  abbrev pub AllStored : Registry State → List Action → Type 0
  AllStored r [] = Unit
  AllStored r (a ∷ more) = IsStored r a × AllStored (perform r a) more

  module _ (c : Cql d m) where
    open c use {hosts}

    -- The client of a call, the host that its statement leaves for the client, and whether the map
    -- has a socket for it then.
    abbrev pub client_of : Action → Bytes
    client_of (adds client socket) = client
    client_of (leaves client) = client
    client_of (removes client) = client

    abbrev pub row_of : Action → Option Bytes
    row_of (adds client socket) = some m.m_app_server_name
    row_of (leaves client) = some not_available
    row_of (removes client) = none

    abbrev pub holds : Action → Bool
    holds (adds client socket) = true
    holds (leaves client) = false
    holds (removes client) = false

    pub perform-lookup :
        (r : Registry State) (a : Action) (v : Bytes)
        → is_some (lookup v (perform r a).clients)
          ≡ (if same (client_of a) v then holds a else is_some (lookup v r.clients))
    unfolding add_client set_client_not_available remove_client
    perform-lookup r (adds client socket) v =
        ground (arith, lookup-insert client v socket r.clients)
    perform-lookup r (leaves client) v = ground (arith, lookup-erase client v r.clients)
    perform-lookup r (removes client) v = ground (arith, lookup-erase client v r.clients)

    pub perform-hosts :
        IsName m.m_app_server_name
        → (r : Registry State) (a : Action) (v : Bytes) → IsStored r a
        → hosts (perform r a).session v
          ≡ (if same (client_of a) v then row_of a else hosts r.session v)
    unfolding add_client set_client_not_available remove_client
    perform-hosts server r (adds client socket) v s =
        insert_data_lem d m c client m.m_app_server_name r.session s.0 server s.1 v
    perform-hosts server r (leaves client) v s =
        insert_data_lem d m c client not_available r.session s.0 IsName-not_available s.1 v
    perform-hosts server r (removes client) v s = delete_data_lem d m c client r.session s.0 s.1 v

    -- The map has a socket for exactly the clients for which the table names this server.
    abbrev pub InTable : Registry State → Type 0
    InTable r =
        (v : Bytes)
        → (is_some (lookup v r.clients) ≡ true) ↔ (hosts r.session v ≡ some m.m_app_server_name)

    module _ (server : IsName m.m_app_server_name)
        (named : m.m_app_server_name ≢ not_available) where
      pub holds-row : (a : Action) → (holds a ≡ true) ↔ (row_of a ≡ some m.m_app_server_name)
      holds-row (adds client socket) = ((λ e. refl), (λ e. refl))
      holds-row (leaves client) = ((λ e. absurd (cc)), (λ e. absurd (named (cc))))
      holds-row (removes client) = ((λ e. absurd (cc)), (λ e. absurd (cc)))

      perform-InTable :
          (r : Registry State) (a : Action) → IsStored r a → InTable r → InTable (perform r a)
      perform-InTable r a s h v = elim (Bool-cases (same (client_of a) v)) [
        | inl hit ↦ rw (perform-lookup r a v, perform-hosts server r a v s, hit) (holds-row a)
        | inr miss ↦ rw (perform-lookup r a v, perform-hosts server r a v s, miss) (h v)
      ]

      -- On a database that keeps its promises, for a server whose name is not "NA", and for names
      -- without a quote and a NUL: if the map has a socket for exactly the clients for which the
      -- table names this server, this still holds after any calls of the registry's methods, one
      -- after another, whose statements succeed.
      pub perform_all-InTable :
          (r : Registry State) (more : List Action)
          → AllStored r more
          → InTable r
          → InTable (perform_all r more)
      perform_all-InTable r [] s h = h
      perform_all-InTable r (a ∷ more) s h =
          perform_all-InTable (perform r a) more s.1 (perform-InTable r a s.0 h)
