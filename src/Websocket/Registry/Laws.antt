-- ===== src/Websocket/Registry/Laws.antt =====
-- What the registry promises: the map and the table after each operation.
use wsgateway.Prelude.{
  ℕ, ◌≡◌, ◌∙◌, true, false, ◌∷◌, none, some, Bytes, same, same_refl, arith, lookup, lookup-insert,
  lookup-erase, lookup-insert_self, lookup-erase_self, bytes_eq,
}
use wsgateway.Scylla.Driver.{Driver}
use wsgateway.Scylla.Manager.{ScyllaManager, insert_data, delete_data}
use wsgateway.Scylla.Cql.{IsName, Cql}
use wsgateway.Scylla.Table.Refines.{insert_data_lem, delete_data_lem}
use wsgateway.Websocket.Registry.{
  Registry, text, not_available, add_client, insert_failed, set_client_not_available, remove_client,
  send_text_message, send_binary_message,
}

pub IsName-not_available : IsName not_available
IsName-not_available = (omega arith, omega arith)

module _ (d : Driver) (m : ScyllaManager) (c : Cql d m) where
  open d use {State}
  open c use {hosts}

  -- On a database that keeps its promises, and for names without a quote and a NUL: after a client
  -- is added whose insert succeeds, messages to it go to the new socket, the table names this
  -- server for it, and other clients' sockets and hosts are as before.
  pub add_client_lem :
      (r : Registry State) (client : Bytes) (socket : ℕ)
      → IsName client
      → IsName m.m_app_server_name
      → (insert_data d m client m.m_app_server_name r.session).value ≡ true
      → let r' = add_client d m r client socket in
        ((message : Bytes)
          → send_text_message r'.clients client message ≡ some (socket, text message))
        × (hosts r'.session client ≡ some m.m_app_server_name)
        × ((v : Bytes)
            → same client v ≡ false
            → (lookup v r'.clients ≡ lookup v r.clients) × (hosts r'.session v ≡ hosts r.session v))
        × (r'.errors ≡ r.errors)
  unfolding add_client send_text_message
  add_client_lem r client socket h k stored = (
    (λ message. rw (lookup-insert_self client socket r.clients, send_text_message)),
    insert_data_lem d m c client m.m_app_server_name r.session h k stored client
        ∙ rw (same_refl client),
    (λ v other. (
      rw (lookup-insert client v socket r.clients, other),
      insert_data_lem d m c client m.m_app_server_name r.session h k stored v ∙ rw other,
    )),
    rw stored,
  )

  -- On a database that keeps its promises, and for a name without a quote and a NUL: after a client
  -- is set not available by an insert that succeeds, no message to it finds a socket, the table
  -- holds "NA" for it, and other clients' sockets and hosts are as before.
  pub set_client_not_available_lem :
      (r : Registry State) (client : Bytes)
      → IsName client
      → (insert_data d m client not_available r.session).value ≡ true
      → let r' = set_client_not_available d m r client in
        ((message : Bytes) → send_text_message r'.clients client message ≡ none)
        × (hosts r'.session client ≡ some not_available)
        × ((v : Bytes)
            → same client v ≡ false
            → (lookup v r'.clients ≡ lookup v r.clients) × (hosts r'.session v ≡ hosts r.session v))
        × (r'.errors ≡ r.errors)
  unfolding set_client_not_available send_text_message
  set_client_not_available_lem r client h stored = (
    (λ message. rw (lookup-erase_self client r.clients, send_text_message)),
    insert_data_lem d m c client not_available r.session h IsName-not_available stored client
        ∙ rw (same_refl client),
    (λ v other. (
      rw (lookup-erase client v r.clients, other),
      insert_data_lem d m c client not_available r.session h IsName-not_available stored v
          ∙ rw other,
    )),
    rw stored,
  )

  -- On a database that keeps its promises, and for a name without a quote and a NUL: after a client
  -- is removed by a delete that succeeds, no message to it finds a socket, the table holds no host
  -- for it, and other clients' sockets and hosts are as before.
  pub remove_client_lem :
      (r : Registry State) (client : Bytes)
      → IsName client
      → (delete_data d m client r.session).value ≡ true
      → let r' = remove_client d m r client in
        ((message : Bytes) → send_binary_message r'.clients client message ≡ none)
        × (hosts r'.session client ≡ none)
        × ((v : Bytes)
            → same client v ≡ false
            → (lookup v r'.clients ≡ lookup v r.clients) × (hosts r'.session v ≡ hosts r.session v))
        × (r'.errors ≡ r.errors)
  unfolding remove_client send_binary_message
  remove_client_lem r client h stored = (
    (λ message. rw (lookup-erase_self client r.clients, send_binary_message)),
    delete_data_lem d m c client r.session h stored client ∙ rw (same_refl client),
    (λ v other. (
      rw (lookup-erase client v r.clients, other),
      delete_data_lem d m c client r.session h stored v ∙ rw other,
    )),
    rw stored,
  )

module _ (d : Driver) (m : ScyllaManager) where
  open d use {State}

  -- An insert that fails is logged, and the map of the clients is changed all the same.
  pub add_client_failed :
      (r : Registry State) (client : Bytes) (socket : ℕ)
      → (insert_data d m client m.m_app_server_name r.session).value ≡ false
      → let r' = add_client d m r client socket in
        (r'.errors ≡ insert_failed client m.m_app_server_name ∷ r.errors)
        × (lookup client r'.clients ≡ some socket)
  unfolding add_client
  add_client_failed r client socket failed = (rw failed, lookup-insert_self client socket r.clients)
