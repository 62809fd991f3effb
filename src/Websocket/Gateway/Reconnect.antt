-- ===== src/Websocket/Gateway/Reconnect.antt =====
-- A client that connects through the controller's endpoints, and one that connects again before
-- its old socket is gone.
use mathlib.Core.Path.{subst}
use wsgateway.Prelude.{
  Option-cases, inl, inr, ℕ, ◌≡◌, ◌≢◌, refl, ap, sym, ◌∙◌, Option, none, some, arith, Bytes, codes,
  lookup, insert, lookup-insert, lookup-erase, lookup-insert_self, lookup-erase_self, bytes_eq,
  nat_eq,
}
use wsgateway.Controller.{ws_parameters, ws1_parameters}
use wsgateway.Scylla.Driver.{Driver}
use wsgateway.Scylla.Manager.{ScyllaManager}
use wsgateway.Websocket.Registry.{add_client, set_client_not_available, send_text_message, text}
use wsgateway.Websocket.Listener.{Listener, new_listener, on_close}
use wsgateway.Websocket.Gateway.{
  Gateway, Target, register, on_after_create, on_before_destroy, destroyed_at,
}
use mathlib.Core.Option
use wsgateway.Websocket.Certificate.{Peer, peer_name}
use wsgateway.Websocket.Gateway.Invariant.{mapped}

module _ (d : Driver) (m : ScyllaManager) (t : Target) where
  open d use {State}

  -- A connection through ws/by-id registers the name in its path, also if that is empty, and
  -- whatever the header X-Client-ID and a certificate say; one through ws registers the fixed name.
  -- It has no result only where it is read from a certificate that lacks one of its names.
  pub endpoints_register :
      (g : Gateway State) (socket : ℕ) (client : Bytes) (id : Option Bytes) (peer : Peer)
      → peer_name t.use_mtls peer ≢ none
      → (on_after_create d m t g socket (ws_parameters client id) peer
          ≡ some (register d m t g socket client))
        × (on_after_create d m t g socket ws1_parameters peer
            ≡ some (register d m t g socket (codes "VIN1234567890")))
  unfolding on_after_create ws_parameters ws1_parameters lookup
  endpoints_register g socket client id peer full =
      elim (Option-cases (peer_name t.use_mtls peer)) [
        | inl gone ↦ absurd (full gone)
        | inr (name, read) ↦ (
          ap (Option.map (λ n. register d m t g socket client)) read,
          ap (Option.map (λ n. register d m t g socket (codes "VIN1234567890"))) read,
        )
      ]

  -- A message to a client that has connected goes to its newest socket, while that is all that has
  -- happened.
  pub register_reaches :
      (g : Gateway State) (socket : ℕ) (client message : Bytes)
      → send_text_message (register d m t g socket client).0.registry.clients client message
        ≡ some (socket, text message)
  unfolding add_client send_text_message
  register_reaches g socket client message =
      rw (lookup-insert_self client socket g.registry.clients, send_text_message)

  -- The client is served at the socket, and no message to it finds a socket.
  abbrev pub Lost : Bytes → ℕ → Gateway State → Type 0
  Lost client socket g =
      ((l : Listener) × (lookup socket g.listeners ≡ some l) × (l.client_id ≡ client))
      × ((message : Bytes) → send_text_message g.registry.clients client message ≡ none)

  destroyed-Lost :
      (g : Gateway State) (old new : ℕ) (l : Listener)
      → old ≢ new
      → Lost l.client_id new (destroyed_at d m (register d m t g new l.client_id).0 old l)
  unfolding on_close set_client_not_available send_text_message new_listener
  destroyed-Lost g old new l differ = (
    (
      fresh,
      lookup-erase old new (insert new fresh g.listeners)
          ∙ ground (arith, lookup-insert_self new fresh g.listeners),
      refl,
    ),
    (λ message. rw (
      lookup-erase_self l.client_id (register d m t g new l.client_id).0.registry.clients,
      send_text_message,
    )),
  )
    where
      fresh : Listener
      fresh = new_listener l.client_id t.http_request_address t.http_request_port

  -- A client that is connected at a socket connects again at another one, and then the old socket
  -- is destroyed: the new socket is live and its listener serves the client, but no message to the
  -- client finds a socket.
  pub reconnect-Lost :
      (g g' : Gateway State) (old new : ℕ) (l : Listener)
      → lookup old g.listeners ≡ some l
      → old ≢ new
      → on_before_destroy d m (register d m t g new l.client_id).0 old ≡ some g'
      → Lost l.client_id new g'
  unfolding on_before_destroy
  reconnect-Lost g g' old new l live differ e =
      let h = (register d m t g new l.client_id).0 in
      let (l', live', done) = mapped (destroyed_at d m h old) (lookup old h.listeners) e in
      let fresh = new_listener l.client_id t.http_request_address t.http_request_port in
      let same_listener : l' ≡ l = ground (arith, lookup-insert new old fresh g.listeners) in
      subst (Lost l.client_id new) (ap (destroyed_at d m h old) (sym same_listener) ∙ done)
        (destroyed-Lost g old new l differ)
