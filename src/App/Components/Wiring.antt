-- ===== src/App/Components/Wiring.antt =====
-- How the components of src/AppComponent.h are wired.
use wsgateway.Prelude.{◌≡◌, refl, ap, ◌∙◌, Bool, List, [], ◌∷◌, Option, none, some, Bytes, codes}
use wsgateway.Config.{Config}
use wsgateway.Ssl.{Openssl}
use wsgateway.App.Startup.{make_manager}
use wsgateway.App.Providers.{Provider, connection_providers, request_address}
use wsgateway.App.Components.Library.{
  Kind, config_kind, executor_kind, providers_kind, router_kind, handler_kind, json_mapper_kind,
  data_mapper_kind, manager_kind, request_executor_kind, io_context_kind, work_guard_kind,
  Environment, EnvironmentLaws, named, of_kind,
}
use wsgateway.App.Components.{
  Component, configuration, connection_list, router, http_handler, websocket_handler, mapper,
  manager, request_executor, io_context, work_guard, Build, built, exits, make_executor, Parts,
  config_at, manager_at, build, prepare, ◌>>=◌, or_throw, or_exit, as_config,
}

-- What the environment holds when `AppComponent` is built, the latest first.
abbrev pub components : Config → List Provider → List (Kind × Bytes × Component)
components c ps =
    (request_executor_kind, codes "clientExcecutor", request_executor (request_address c))
    ∷ (manager_kind, codes "scyllaDBManager", manager (make_manager c))
    ∷ (handler_kind, codes "websocket", websocket_handler (make_executor c))
    ∷ (data_mapper_kind, [], mapper)
    ∷ (data_mapper_kind, codes "clientObjectMapper", mapper)
    ∷ (json_mapper_kind, [], mapper)
    ∷ (handler_kind, codes "http", http_handler router (make_executor c))
    ∷ (router_kind, [], router)
    ∷ (providers_kind, [], connection_list ps)
    ∷ (executor_kind, [], make_executor c)
    ∷ (config_kind, [], configuration c)
    ∷ []

comes :
    {A B : Type 0} {o : Option A} {a : A} {b : Build B} (f : A → Build B)
    → o ≡ some a
    → f a ≡ b
    → or_throw o >>= f ≡ b
comes f h g = rw h g

exits_or :
    {A B : Type 0} {o : Option A} {a : A} {b : Build B} (f : A → Build B)
    → o ≡ some a
    → f a ≡ b
    → or_exit o >>= f ≡ b
exits_or f h g = rw h g

comes_config :
    {B : Type 0} {o : Option Component} {c : Config} {b : Build B} (f : Config → Build B)
    → o ≡ some (configuration c)
    → f c ≡ b
    → (or_throw o >>= as_config) >>= f ≡ b
comes_config f h g = rw h g

module _ (e : Environment Component) (laws : EnvironmentLaws e) (o : Openssl)
    (opens : Provider → Bool) (c : Config) where
  open e use {State, get, get_named}

  creates :
      (k : Kind) (n : Bytes) (x : Component) (s : State) (cs : List (Kind × Bytes × Component))
      → laws.held s ≡ cs
      → named k n cs ≡ none
      → (t : State) × (e.create k n x s ≡ some t) × (laws.held t ≡ (k, n, x) ∷ cs)
  creates k n x s cs h new =
      let (t, made, held) = laws.create_new k n x s (rw h new) in
      (t, made, held ∙ ap (λ xs. (k, n, x) ∷ xs) h)

  gets :
      (k : Kind) (s : State) (cs : List (Kind × Bytes × Component)) (x : Component)
      → laws.held s ≡ cs
      → of_kind k cs ≡ x ∷ []
      → get k s ≡ some x
  gets k s cs x h only = laws.get_only k s x (rw h only)

  pub build-components :
      (ps : List Provider)
      → connection_providers o opens c ≡ some ps
      → (s : State) × (build e o opens c e.empty ≡ built s) × (laws.held s ≡ components c ps)
  unfolding build
  build-components ps opened =
      let x = make_executor c in
      let (s1, e1, h1) = creates config_kind [] (configuration c) e.empty [] laws.held_empty refl in
      let g1 = gets config_kind s1 _ (configuration c) h1 refl in
      let (s2, e2, h2) = creates executor_kind [] x s1 _ h1 refl in
      let g2 = gets config_kind s2 _ (configuration c) h2 refl in
      let (s3, e3, h3) = creates providers_kind [] (connection_list ps) s2 _ h2 refl in
      let (s4, e4, h4) = creates router_kind [] router s3 _ h3 refl in
      let r4 = gets router_kind s4 _ router h4 refl in
      let x4 = gets executor_kind s4 _ x h4 refl in
      let (s5, e5, h5) = creates handler_kind (codes "http") (http_handler router x) s4 _ h4 refl in
      let (s6, e6, h6) = creates json_mapper_kind [] mapper s5 _ h5 refl in
      let (s7, e7, h7) =
        creates data_mapper_kind (codes "clientObjectMapper") mapper s6 _ h6 refl in
      let (s8, e8, h8) = creates data_mapper_kind [] mapper s7 _ h7 refl in
      let x8 = gets executor_kind s8 _ x h8 refl in
      let (s9, e9, h9) =
        creates handler_kind (codes "websocket") (websocket_handler x) s8 _ h8 refl in
      let g9 = gets config_kind s9 _ (configuration c) h9 refl in
      let (s10, e10, h10) =
        creates manager_kind (codes "scyllaDBManager") (manager (make_manager c)) s9 _ h9 refl in
      let g10 = gets config_kind s10 _ (configuration c) h10 refl in
      let (s11, e11, h11) =
        creates request_executor_kind (codes "clientExcecutor")
          (request_executor (request_address c)) s10 _ h10 refl in
      let last =
        comes _ x8
          (comes _ e9 (comes_config _ g9 (comes _ e10 (comes_config _ g10 (ap or_throw e11))))) in
      let rest = comes _ e3 (
        comes _ e4
          (comes _ r4 (comes _ x4 (comes _ e5 (comes _ e6 (comes _ e7 (comes _ e8 last))))))) in
      (
        s11,
        comes _ e1 (comes_config _ g1 (comes _ e2 (comes_config _ g2 (exits_or _ opened rest)))),
        h11,
      )

  -- What `run` looks up before it connects.
  pub components_found :
      (ps : List Provider) (s : State)
      → laws.held s ≡ components c ps
      → (config_at e o opens s ≡ built c) × (manager_at e o opens s ≡ built (make_manager c))
  components_found ps s h =
      let found = gets config_kind s _ (configuration c) h refl in
      let named_one =
        laws.get_held manager_kind (codes "scyllaDBManager") s (manager (make_manager c))
          (rw h refl) in
      (rw found refl, rw named_one refl)

  -- A provider that does not open ends the process before the router is there.
  pub build-exits : connection_providers o opens c ≡ none → build e o opens c e.empty ≡ exits
  unfolding build
  build-exits failed =
      let (s1, e1, h1) = creates config_kind [] (configuration c) e.empty [] laws.held_empty refl in
      let g1 = gets config_kind s1 _ (configuration c) h1 refl in
      let (s2, e2, h2) = creates executor_kind [] (make_executor c) s1 _ h1 refl in
      let g2 = gets config_kind s2 _ (configuration c) h2 refl in
      comes _ e1 (comes_config _ g1 (comes _ e2 (comes_config _ g2 (rw failed refl))))

  -- What the other files look up when a socket comes, a message is dispatched, a frame is sent and
  -- a server starts.
  pub record Serves (s : State) : Type 0 where
    pub config_found : get config_kind s ≡ some (configuration c)
    pub executor_found : get executor_kind s ≡ some (make_executor c)
    pub io_context_found : get io_context_kind s ≡ some io_context
    pub manager_found :
        get_named manager_kind (codes "scyllaDBManager") s ≡ some (manager (make_manager c))
    pub http_found :
        get_named handler_kind (codes "http") s ≡ some (http_handler router (make_executor c))

  -- In an environment that keeps its documentation: where the providers can be opened, no component
  -- asks for one that is not there yet, so the start comes up to the threads; it then has the
  -- router that the HTTP handler serves, the controller has the WebSocket handler, which runs on
  -- the configured executor like the HTTP one, there is one server for each provider that was
  -- opened, and every component that is looked up later is found.
  pub prepare-Serves :
      (ps : List Provider)
      → connection_providers o opens c ≡ some ps
      → (s : State) × (parts : Parts) × (build e o opens c e.empty >>= prepare e o opens
          ≡ built (s, parts))
        × (parts ≡ record {
          served_router = router;
          object_mapper = mapper;
          websocket_connection_handler = websocket_handler (make_executor c);
          providers = ps;
        })
        × Serves s
  unfolding prepare
  prepare-Serves ps opened =
      let (s, made, h) = build-components ps opened in
      let r = gets router_kind s _ router h refl in
      let j = gets json_mapper_kind s _ mapper h refl in
      let w =
        laws.get_held handler_kind (codes "websocket") s (websocket_handler (make_executor c))
          (rw h refl) in
      let p = gets providers_kind s _ (connection_list ps) h refl in
      let (s1, e1, h1) = creates io_context_kind [] io_context s _ h refl in
      let (s2, e2, h2) = creates work_guard_kind [] work_guard s1 _ h1 refl in
      (
        s2,
        _,
        rw made (comes _ r (rw (j, w, p) (comes _ e1 (comes _ e2 refl)))),
        refl,
        record {
          config_found = gets config_kind s2 _ (configuration c) h2 refl;
          executor_found = gets executor_kind s2 _ (make_executor c) h2 refl;
          io_context_found = gets io_context_kind s2 _ io_context h2 refl;
          manager_found = laws.get_held manager_kind (codes "scyllaDBManager") s2 _ (rw h2 refl);
          http_found = laws.get_held handler_kind (codes "http") s2 _ (rw h2 refl);
        },
      )
