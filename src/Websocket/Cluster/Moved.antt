-- ===== src/Websocket/Cluster/Moved.antt =====
-- A client that goes from one gateway to another one, and what `onBeforeDestroy_NonBlocking` of
-- src/websocket/WebSocketListener.cpp then does to the table.
use wsgateway.Prelude.{
  ℕ, ◌≡◌, ap, refl, sym, ◌∙◌, true, false, arith, some, Bytes, lookup, lookup-insert_self, bytes_eq,
  nat_eq, nat_refl, ◌==◌, same_refl,
}
use wsgateway.Scylla.Driver.{Driver}
use wsgateway.Scylla.Manager.{ScyllaManager, insert_data}
use wsgateway.Scylla.Cql.{Cql, IsName}
use wsgateway.Scylla.Table.Refines.{insert_data_lem}
use wsgateway.Websocket.Registry.{not_available, add_client, set_client_not_available}
use wsgateway.Websocket.Registry.Laws.{IsName-not_available}
use wsgateway.Websocket.Listener.{Listener, on_close}
use wsgateway.Websocket.Gateway.{Gateway, Target, register, on_before_destroy, destroyed_at}
use wsgateway.Websocket.Gateway.Invariant.{mapped}
use wsgateway.Websocket.Cluster.{Cluster, manager_of, cql_of, view, behind}

module _ (d : Driver) (m : ScyllaManager) (name : ℕ → Bytes) (t : ℕ → Target) where
  open d use {State}

  -- The cluster behind a new connection of a client at gateway j.
  abbrev pub joined : Cluster State → ℕ → ℕ → Bytes → Cluster State
  joined c j socket client =
      behind c j (register d (manager_of m (name j)) (t j) (view c j) socket client).0

module _ (d : Driver) (m : ScyllaManager) (cql : Cql d m) (name : ℕ → Bytes) (t : ℕ → Target) where
  open d use {State}
  open cql use {hosts}

  hosts-insert :
      (server client host : Bytes) (s : State)
      → IsName client
      → IsName host
      → (insert_data d (manager_of m server) client host s).value ≡ true
      → hosts (insert_data d (manager_of m server) client host s).session client ≡ some host
  unfolding cql_of
  hosts-insert server client host s fits host_fits stored =
      insert_data_lem d (manager_of m server) (cql_of cql server) client host s fits host_fits
        stored client
      ∙ rw (same_refl client) refl

  hosts-destroyed :
      (g f : Gateway State) (i old : ℕ) (l : Listener)
      → lookup old g.listeners ≡ some l
      → IsName l.client_id
      → (insert_data d (manager_of m (name i)) l.client_id not_available g.registry.session).value
        ≡ true
      → on_before_destroy d (manager_of m (name i)) g old ≡ some f
      → hosts f.registry.session l.client_id ≡ some not_available
  unfolding on_before_destroy on_close set_client_not_available
  hosts-destroyed g f i old l live fits stored e =
      let (l', live', done) =
        mapped (destroyed_at d (manager_of m (name i)) g old) (lookup old g.listeners) e in
      let same_one : l' ≡ l = ground arith in
      ap (λ k. hosts k.registry.session l.client_id) (sym done)
      ∙ rw same_one (
          hosts-insert (name i) l.client_id not_available g.registry.session fits
            IsName-not_available stored)

  -- A client that is connected at a gateway connects at another one, and then its socket at the
  -- first gateway is destroyed, all statements succeeding: before that the table names the second
  -- gateway, behind it the table says that the client is not available, and the second gateway's
  -- map still has the client's socket.
  pub moved-Lost :
      (c : Cluster State) (i j old new : ℕ) (l : Listener) (f : Gateway State)
      → (i == j) ≡ false
      → lookup old (c.node i).listeners ≡ some l
      → IsName l.client_id
      → IsName (name j)
      → (insert_data d (manager_of m (name j)) l.client_id (name j) c.session).value ≡ true
      → let e = joined d m name t c j new l.client_id in
        (insert_data d (manager_of m (name i)) l.client_id not_available e.session).value ≡ true
        → on_before_destroy d (manager_of m (name i)) (view e i) old ≡ some f
        → let k = behind e i f in
          (hosts e.session l.client_id ≡ some (name j))
          × (hosts k.session l.client_id ≡ some not_available)
          × (lookup l.client_id (k.node j).registry.clients ≡ some new)
  unfolding add_client
  moved-Lost c i j old new l f apart live fits server joins leaves e =
      let other_way : (j == i) ≡ false = ground arith in
      (
        hosts-insert (name j) l.client_id (name j) c.session fits server joins,
        hosts-destroyed (view (joined d m name t c j new l.client_id) i) f i old l
            (rw other_way live) fits leaves e,
        rw (apart, nat_refl j) (lookup-insert_self l.client_id new (c.node j).registry.clients),
      )
