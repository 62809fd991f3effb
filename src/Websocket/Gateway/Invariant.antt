-- ===== src/Websocket/Gateway/Invariant.antt =====
-- What holds of the gateway after any steps.
use mathlib.Core.Option
use mathlib.Core.Path.{subst}
use wsgateway.Prelude.{
  ℕ, ◌%◌, ◌^◌, ◌≡◌, ◌≢◌, [], Option-cases, refl, ap, inl, inr, true, List, Option, none, some,
  arith, length, Bytes, lookup, bytes_eq, nat_eq,
}
use wsgateway.Scylla.Driver.{Driver}
use wsgateway.Scylla.Manager.{ScyllaManager}
use wsgateway.Websocket.Registry.{add_client, set_client_not_available}
use wsgateway.Websocket.Certificate.{Peer, peer_name}
use wsgateway.Websocket.Listener.{Listener, new_listener, on_close, read_message}
use wsgateway.Websocket.Gateway.{
  Gateway, Target, register, on_after_create, on_before_destroy, on_close_frame, on_read, Step,
  creates, reads, closes, destroys, chooses, on_choose_port, port_left, Reach, here, next,
  closed_at, destroyed_at, read_at, Dropped,
}
use wsgateway.Controller.{Parameters, client_id_key}
use wsgateway.Std.Number.{ℤ, pos, negsuc}
use wsgateway.Client.{choose_port}
use wsgateway.Client.Forward.{choose_port-ne-nil}
use wsgateway.Websocket.Gateway.Serves.{
  Serves, AllAim, Aims, insert-Serves, erase-Serves, replace-Serves, remove-Serves, insert-AllAim,
  erase-AllAim,
}
use wsgateway.Websocket.Gateway.Maps.{
  Unique, length-insert_new, length-insert_old, length-erase, insert-Unique, erase-Unique,
}

pub record IsValid {S : Type 0} (t : Target) (g : Gateway S) : Type 0 where
  pub serves : Serves g.registry.clients g.listeners
  pub unique : Unique g.listeners
  pub counted : g.sockets ≡ length g.listeners % 2 ^ 32
  pub aims : AllAim t g.listeners

pub mapped :
    {A B : Type 0} (f : A → B) (o : Option A) {b : B}
    → Option.map f o ≡ some b
    → (a : A) × (o ≡ some a) × (f a ≡ b)
mapped f none e = absurd (cc)
mapped f (some a) e = (a, refl, cc)

module _ (d : Driver) (m : ScyllaManager) (t : Target) where
  open d use {State}

  pub created :
      (g g' : Gateway State) (socket : ℕ) (params : Parameters) (peer : Peer)
      (dropped : List Dropped)
      → on_after_create d m t g socket params peer ≡ some (g', dropped)
      → (client : Bytes) × ((register d m t g socket client).0 ≡ g')
  unfolding on_after_create
  created g g' socket params peer dropped e = from (lookup client_id_key params) e
    where
      from :
          (o : Option (Option Bytes))
          → ◌≡◌ {A = Option (Gateway State × List Dropped)}
              (elim o [
                | none ↦ none
                | some none ↦ none
                | some (some client) ↦
                    Option.map
                      (λ common_name. register d m t g socket client)
                      (peer_name t.use_mtls peer)
              ])
              (some (g', dropped))
          → (client : Bytes) × ((register d m t g socket client).0 ≡ g')
      from none h = absurd (cc)
      from (some none) h = absurd (cc)
      from (some (some client)) h =
          let (name, read, same_state) = mapped _ (peer_name t.use_mtls peer) h in
          (client, ap (λ p. p.0) same_state)

  pub chosen :
      (g g' : Gateway State) (socket draw : ℕ)
      → on_choose_port d m g socket draw ≡ some g'
      → (l : Listener) × (port : Bytes) × (lookup socket g.listeners ≡ some l)
        × (choose_port draw l.http_server_port ≡ some port)
        × (port_left d m g socket l port ≡ g')
  unfolding on_choose_port
  chosen g g' socket draw e = elim (Option-cases (lookup socket g.listeners)) [
    | inl gone ↦ ground (arith, gone)
    | inr (l, live) ↦
        let (port, found, done) =
          mapped (port_left d m g socket l) (choose_port draw l.http_server_port)
            (rw (on_choose_port, live) at e) in
        (l, port, live, found, done)
  ]

module _ (d : Driver) (m : ScyllaManager) (t : Target) (port_given : t.http_request_port ≢ []) where
  open d use {State}

  register-IsValid :
      (g : Gateway State) (socket : ℕ) (client : Bytes)
      → lookup socket g.listeners ≡ none
      → IsValid t g
      → IsValid t (register d m t g socket client).0
  unfolding add_client new_listener
  register-IsValid g socket client new v =
      let l = new_listener client t.http_request_address t.http_request_port in
      record {
        serves = insert-Serves g.registry.clients g.listeners client socket l new refl v.serves;
        unique = insert-Unique socket l g.listeners v.unique;
        counted = omega (arith, v.counted, length-insert_new socket l g.listeners new);
        aims = insert-AllAim t g.listeners socket l (refl, port_given) v.aims;
      }

  closed-IsValid :
      (g : Gateway State) (socket : ℕ) (l : Listener)
      → lookup socket g.listeners ≡ some l
      → IsValid t g
      → IsValid t (closed_at d m g socket l)
  unfolding on_close set_client_not_available
  closed-IsValid g socket l live v =
      let l' = record l { component_set = true } in
      record {
        serves =
            replace-Serves _ g.listeners socket l l' live refl
              (erase-Serves g.registry.clients g.listeners l.client_id v.serves);
        unique = insert-Unique socket l' g.listeners v.unique;
        counted = omega (arith, v.counted, length-insert_old socket l' l g.listeners live);
        aims = insert-AllAim t g.listeners socket l' (v.aims socket l live) v.aims;
      }

  destroyed-IsValid :
      (g : Gateway State) (socket : ℕ) (l : Listener)
      → lookup socket g.listeners ≡ some l
      → IsValid t g
      → IsValid t (destroyed_at d m g socket l)
  unfolding on_close set_client_not_available
  destroyed-IsValid g socket l live v = record {
    serves = remove-Serves g.registry.clients g.listeners socket l live v.serves;
    unique = erase-Unique socket g.listeners v.unique;
    counted = omega (arith, v.counted, length-erase socket l g.listeners v.unique live);
    aims = erase-AllAim t g.listeners socket v.aims;
  }

  read_message-client :
      (l : Listener) (size : ℤ) (input : Bytes) (now : ℕ)
      → (read_message l size input now).0.client_id ≡ l.client_id
  unfolding read_message
  read_message-client l (pos n) input now = ground arith
  read_message-client l (negsuc n) input now = refl

  read_message-Aims :
      (l : Listener) (size : ℤ) (input : Bytes) (now : ℕ)
      → Aims t l
      → Aims t (read_message l size input now).0
  unfolding read_message
  read_message-Aims l (pos n) input now h = ground arith
  read_message-Aims l (negsuc n) input now h = h

  port_left-IsValid :
      (g : Gateway State) (socket : ℕ) (l : Listener) (port : Bytes)
      → lookup socket g.listeners ≡ some l
      → port ≢ []
      → IsValid t g
      → IsValid t (port_left d m g socket l port)
  port_left-IsValid g socket l port live full v =
      let l' = record l { http_server_port = port } in
      record {
        serves = replace-Serves g.registry.clients g.listeners socket l l' live refl v.serves;
        unique = insert-Unique socket l' g.listeners v.unique;
        counted = omega (arith, v.counted, length-insert_old socket l' l g.listeners live);
        aims = insert-AllAim t g.listeners socket l' ((v.aims socket l live).0, full) v.aims;
      }

  read-IsValid :
      (g : Gateway State) (socket : ℕ) (size : ℤ) (input : Bytes) (now : ℕ) (l : Listener)
      → lookup socket g.listeners ≡ some l
      → IsValid t g
      → IsValid t (read_at d m g socket size input now l).0
  read-IsValid g socket size input now l live v =
      let l' = (read_message l size input now).0 in
      record {
        serves =
            replace-Serves g.registry.clients g.listeners socket l l' live
              (read_message-client l size input now) v.serves;
        unique = insert-Unique socket l' g.listeners v.unique;
        counted = omega (arith, v.counted, length-insert_old socket l' l g.listeners live);
        aims =
            insert-AllAim t g.listeners socket l'
              (read_message-Aims l size input now (v.aims socket l live)) v.aims;
      }

  -- Every step keeps the gateway valid.
  pub Step-IsValid : {g g' : Gateway State} → Step d m t g g' → IsValid t g → IsValid t g'
  unfolding on_read on_close_frame on_before_destroy
  Step-IsValid {g} {g'} (creates socket params peer dropped new e) v =
      let (client, done) = created d m t g g' socket params peer dropped e in
      subst (IsValid t) done (register-IsValid g socket client new v)
  Step-IsValid {g} (reads socket size input now r e) v =
      let (l, live, done) = mapped _ (lookup socket g.listeners) e in
      subst (IsValid t) (ap (λ p. p.0) done) (read-IsValid g socket size input now l live v)
  Step-IsValid {g} (closes socket e) v =
      let (l, live, done) = mapped _ (lookup socket g.listeners) e in
      subst (IsValid t) done (closed-IsValid g socket l live v)
  Step-IsValid {g} {g'} (chooses socket draw e) v =
      let (l, port, live, found, done) = chosen d m t g g' socket draw e in
      subst (IsValid t) done (
        port_left-IsValid g socket l port live
          (choose_port-ne-nil draw l.http_server_port port found) v)
  Step-IsValid {g} (destroys socket e) v =
      let (l, live, done) = mapped _ (lookup socket g.listeners) e in
      subst (IsValid t) done (destroyed-IsValid g socket l live v)

  -- If the configured port of the application is not empty, then from a valid gateway every gateway
  -- that is reached is valid: each socket in the registry is live and its listener serves the
  -- client that it is registered for, no socket has two listeners, SOCKETS is the number of live
  -- sockets modulo 2 ^ 32, and each listener sends to the application's address and has a port.
  pub Reach-IsValid : {g g' : Gateway State} → Reach d m t g g' → IsValid t g → IsValid t g'
  Reach-IsValid here v = v
  Reach-IsValid (next r s) v = Step-IsValid s (Reach-IsValid r v)
