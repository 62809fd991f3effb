-- ===== src/Websocket/Gateway/Calls.antt =====
-- The calls of the registry's methods in a run of the gateway of
-- src/websocket/WebSocketListener.cpp.
use mathlib.Core.Option
use wsgateway.Prelude.{
  ℕ, ◌≡◌, ◌≢◌, refl, ap, ◌∙◌, List, [], ◌∷◌, ◌++◌, Option, none, some, Bytes, lookup, nat_eq,
  bytes_eq,
}
use mathlib.Core.Path.{subst}
use wsgateway.Scylla.Driver.{Driver}
use wsgateway.Scylla.Manager.{ScyllaManager}
use wsgateway.Scylla.Cql.{Cql, IsName}
use wsgateway.Controller.{client_id_key}
use wsgateway.Websocket.Certificate.{peer_name}
use wsgateway.Websocket.Registry.{Registry, not_available}
use wsgateway.Websocket.Registry.Agreement.{
  Action, adds, leaves, perform, perform_all, AllStored, InTable, perform_all-InTable,
}
use wsgateway.Websocket.Listener.{Listener, on_close}
use wsgateway.Websocket.Gateway.{
  Gateway, Target, Dropped, register, on_after_create, on_before_destroy, on_close_frame, on_read,
  on_choose_port, closed_at, destroyed_at, read_at, Step, creates, reads, closes, chooses, destroys,
  Reach, here, next,
}
use wsgateway.Websocket.Gateway.Invariant.{mapped, chosen}

-- The call of a new connection with a parameter, and that of a listener that closes.
abbrev pub create_call : Option (Option Bytes) → ℕ → List Action
create_call none socket = []
create_call (some none) socket = []
create_call (some (some client)) socket = adds client socket ∷ []

abbrev pub close_call : Option Listener → List Action
close_call none = []
close_call (some l) = leaves l.client_id ∷ []

module _ (d : Driver) (m : ScyllaManager) (t : Target) where
  open d use {State}

  -- The calls that a step makes, and those of a run, in their order.
  abbrev pub step_calls : {g h : Gateway State} → Step d m t g h → List Action
  step_calls (creates socket params peer dropped new e) =
      create_call (lookup client_id_key params) socket
  step_calls (reads socket size input now r e) = []
  step_calls {g} (closes socket e) = close_call (lookup socket g.listeners)
  step_calls (chooses socket draw e) = []
  step_calls {g} (destroys socket e) = close_call (lookup socket g.listeners)

  abbrev pub calls : {g h : Gateway State} → Reach d m t g h → List Action
  calls here = []
  calls (next r s) = calls r ++ step_calls s

  perform_all-append :
      (r : Registry State) (xs ys : List Action)
      → perform_all d m r (xs ++ ys) ≡ perform_all d m (perform_all d m r xs) ys
  perform_all-append r [] ys = refl
  perform_all-append r (a ∷ xs) ys = perform_all-append (perform d m r a) xs ys

  create-perform :
      (g : Gateway State) (socket : ℕ) (o : Option (Option Bytes)) (name : Option Bytes)
      (h : Gateway State) (dropped : List Dropped)
      → ◌≡◌ {A = Option (Gateway State × List Dropped)}
          (elim o [
            | none ↦ none
            | some none ↦ none
            | some (some client) ↦ Option.map (λ common_name. register d m t g socket client) name
          ])
          (some (h, dropped))
      → perform_all d m g.registry (create_call o socket) ≡ h.registry
  create-perform g socket none name h dropped e = absurd (cc)
  create-perform g socket (some none) name h dropped e = absurd (cc)
  create-perform g socket (some (some client)) name h dropped e =
      let (x, read, same) = mapped (λ common_name. register d m t g socket client) name e in
      ap (λ p. p.0.registry) same

  pub Step-perform :
      {g h : Gateway State} (s : Step d m t g h)
      → perform_all d m g.registry (step_calls s) ≡ h.registry
  unfolding on_after_create on_read on_choose_port on_close_frame on_before_destroy on_close
  Step-perform {g} {h} (creates socket params peer dropped new e) =
      create-perform g socket (lookup client_id_key params) (peer_name t.use_mtls peer) h dropped e
  Step-perform {g} {h} (reads socket size input now r e) =
      let (l, live, same) =
        mapped (read_at d m g socket size input now) (lookup socket g.listeners) e in
      ap (λ p. p.0.registry) same
  Step-perform {g} {h} (closes socket e) =
      let (l, live, same) = mapped (closed_at d m g socket) (lookup socket g.listeners) e in
      ap (λ o. perform_all d m g.registry (close_call o)) live ∙ ap (λ k. k.registry) same
  Step-perform {g} {h} (chooses socket draw e) =
      let (l, port, live, found, same) = chosen d m t g h socket draw e in ap (λ k. k.registry) same
  Step-perform {g} {h} (destroys socket e) =
      let (l, live, same) = mapped (destroyed_at d m g socket) (lookup socket g.listeners) e in
      ap (λ o. perform_all d m g.registry (close_call o)) live ∙ ap (λ k. k.registry) same

  Reach-perform :
      {g h : Gateway State} (r : Reach d m t g h)
      → perform_all d m g.registry (calls r) ≡ h.registry
  Reach-perform here = refl
  Reach-perform {g} (next r s) =
      perform_all-append g.registry (calls r) (step_calls s)
      ∙ ap (λ x. perform_all d m x (step_calls s)) (Reach-perform r)
      ∙ Step-perform s

  -- On a database that keeps its promises, for a server whose name is not "NA": after any steps of
  -- the gateway from a state in which the map has a socket for exactly the clients for which the
  -- table names this server, the map and the table still agree, if the statements that the steps
  -- make are of names without a quote and a NUL and succeed. The registry is changed by the calls
  -- of these steps alone.
  pub Reach-InTable :
      (c : Cql d m)
      → IsName m.m_app_server_name
      → m.m_app_server_name ≢ not_available
      → {g h : Gateway State} (r : Reach d m t g h) → AllStored d m g.registry (calls r)
      → InTable d m c g.registry
      → (perform_all d m g.registry (calls r) ≡ h.registry) × InTable d m c h.registry
  Reach-InTable c server named {g} r stored before = (
    Reach-perform r,
    subst (InTable d m c) (Reach-perform r)
        (perform_all-InTable d m c server named g.registry (calls r) stored before),
  )
