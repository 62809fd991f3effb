-- ===== src/App/Launch.antt =====
-- The whole start of src/App.cpp, from the variables of the process to the threads.
use wsgateway.Prelude.{
  ℕ, ◌≡◌, ◌≢◌, refl, ap, ◌∙◌, Bool, true, false, List, [], none, some, Bytes, arith, lookup, nat_eq,
  bytes_eq,
}
use wsgateway.Utilis.EnvUtils.{Env}
use wsgateway.Utilis.Ip.{Resolver}
use wsgateway.Config.{Config, new_config}
use wsgateway.Config.Reading.{new_config-Given}
use wsgateway.Ssl.{Openssl}
use wsgateway.Scylla.Driver.{Driver}
use wsgateway.Scylla.Manager.{ScyllaManager, connect}
use wsgateway.Websocket.Gateway.{Gateway, Target}
use wsgateway.Websocket.Gateway.Invariant.{IsValid}
use wsgateway.App.Providers.{Provider, connection_providers}
use wsgateway.App.Startup.{make_manager, Start, Outcome, exited, serving, run}
use wsgateway.App.Order.{run_all, statements, ready, run_lem}
use wsgateway.App.Components.{
  Component, router, websocket_handler, mapper, Build, built, thrown, exits, make_executor, Parts,
  config_at, manager_at, build, prepare,
}
use wsgateway.App.Components.Library.{Environment, EnvironmentLaws}
use wsgateway.App.Components.Wiring.{
  Serves, prepare-Serves, build-exits, components, build-components, components_found,
}

-- What the listeners of new connections read of the configuration.
abbrev pub target_of : Config → Target
target_of c = record {
  http_request_address = c.http_request_address;
  http_request_port = c.http_request_port;
  use_mtls = c.use_mtls;
}

-- The gateway before its first connection, over the session that the start leaves.
abbrev pub fresh : {S : Type 0} → S → Gateway S
fresh s = record {
  registry = record { clients = []; session = s; errors = [] };
  listeners = [];
  sockets = 0;
}

-- How a start ends: with an exception that `run` catches, with `exit(-1)`, or before its threads,
-- with what they use.
pub data Launch (S E : Type 0) : Type 0 where
  caught ended : S → Launch S E
  starts : S → ScyllaManager → E → Parts → Launch S E

module _ (e : Environment Component) (o : Openssl) (opens : Provider → Bool) (d : Driver)
    (cass_connect : Bytes → List ℕ → d.State → d.State × Bool) where
  open d use {State}

  -- Behind the statements to the database.
  abbrev pub behind_prepare : State → ScyllaManager → Build (e.State × Parts) → Launch State e.State
  behind_prepare s m thrown = caught s
  behind_prepare s m exits = ended s
  behind_prepare s m (built (held, parts)) = starts s m held parts

  -- Behind the components.
  abbrev pub behind_run : e.State → Start State → Launch State e.State
  behind_run held start = elim start.outcome [
    | exited stage ↦ ended start.session
    | serving m ↦ behind_prepare start.session m (prepare e o opens held)
  ]

  -- Behind the lookups of the configuration and the manager.
  abbrev pub behind_lookups :
      e.State → State → Build Config → Build ScyllaManager → Launch State e.State
  behind_lookups held s (built c) (built m) = behind_run held (run d cass_connect c m s)
  behind_lookups held s thrown m = caught s
  behind_lookups held s exits m = ended s
  behind_lookups held s (built c) thrown = caught s
  behind_lookups held s (built c) exits = ended s

  abbrev pub behind_build : State → Build e.State → Launch State e.State
  behind_build s thrown = caught s
  behind_build s exits = ended s
  behind_build s (built held) =
      behind_lookups held s (config_at e o opens held) (manager_at e o opens held)

  -- `run` up to its threads.
  unfoldable pub launch : Env → Resolver → State → Launch State e.State
  launch env r s = behind_build s (build e o opens (new_config env r) e.empty)

  module _ (laws : EnvironmentLaws e) (env : Env) (r : Resolver) (s : State) where
    abbrev pub c : Config
    c = new_config env r

    abbrev pub joined : State × Bool
    joined =
        let j = connect cass_connect (make_manager c) c.scylladb_address s in (j.session, j.value)

    abbrev pub all : State × Bool
    all = run_all d (statements c) joined.0

    -- The start comes through.
    pub record Starts (ps : List Provider) : Type 0 where
      pub held : e.State
      pub parts : Parts
      pub launched : launch env r s ≡ starts all.0 (ready c) held parts
      pub wired : parts ≡ record {
        served_router = router;
        object_mapper = mapper;
        websocket_connection_handler = websocket_handler (make_executor c);
        providers = ps;
      }
      pub serves : Serves e laws o opens c held
      pub port_given : (target_of c).http_request_port ≢ []
      pub valid : IsValid (target_of c) (fresh all.0)

    fresh-IsValid : (x : State) → IsValid (target_of c) (fresh x)
    unfolding lookup
    fresh-IsValid x = record {
      serves = λ v k h. absurd (cc);
      unique = tt;
      counted = refl;
      aims = λ k l h. absurd (cc);
    }

    launch-none : connection_providers o opens c ≡ none → launch env r s ≡ ended s
    unfolding launch
    launch-none failed = ap (behind_build s) (build-exits e laws o opens c failed)

    abbrev steps : Start State
    steps = run d cass_connect c (make_manager c) s

    launch_built :
        (ps : List Provider) (held : e.State)
        → build e o opens c e.empty ≡ built held
        → laws.held held ≡ components c ps
        → launch env r s ≡ behind_run held steps
    unfolding launch
    launch_built ps held made h =
        let (found, named_one) = components_found e laws o opens c ps held h in
        ap (behind_build s) made
        ∙ ap (λ x. behind_lookups held s x (manager_at e o opens held)) found
        ∙ ap (behind_lookups held s (built c)) named_one

    behind_run_ended :
        (held : e.State) (start : Start State)
        → ((m : ScyllaManager) → start.outcome ≢ serving m)
        → behind_run held start ≡ ended start.session
    behind_run_ended held start none_serves = by_outcome start.outcome refl
      where
        by_outcome :
            (x : Outcome)
            → start.outcome ≡ x
            → behind_run held (record start { outcome = x }) ≡ ended start.session
        by_outcome (exited stage) h = refl
        by_outcome (serving m) h = absurd (none_serves m h)

    behind_run_starts :
        (held held' : e.State) (parts : Parts) (start : Start State) (m : ScyllaManager)
        → start.outcome ≡ serving m
        → prepare e o opens held ≡ built (held', parts)
        → behind_run held start ≡ starts start.session m held' parts
    behind_run_starts held held' parts start m served prepared = rw (served, prepared) refl

    launch-Starts :
        (ps : List Provider)
        → connection_providers o opens c ≡ some ps
        → joined.1 ≡ true
        → all.1 ≡ true
        → Starts ps
    launch-Starts ps opened on stored =
        let (held', parts, came, wired, serves) = prepare-Serves e laws o opens c ps opened in
        let (held, made, h) = build-components e laws o opens c ps opened in
        let prepared : prepare e o opens held ≡ built (held', parts) = rw made at came in
        let order = run_lem d cass_connect c s in
        record {
          held = held';
          parts = parts;
          launched =
              launch_built ps held made h
              ∙ behind_run_starts held held' parts steps (ready c) (order.2 on stored) prepared
              ∙ ap (λ x. starts x (ready c) held' parts) (order.1 on);
          wired = wired;
          serves = serves;
          port_given = (new_config-Given env r).1.1.0;
          valid = fresh-IsValid all.0;
        }

    -- The start, whatever the environment says, in an environment of components that keeps its
    -- documentation. Where a provider cannot be opened the process exits, and the database has seen
    -- nothing. Where all are open, the connection to the database comes next: without it the
    -- process exits. Then come the three statements, and the process exits behind the first one
    -- that fails. If all succeed, the start comes through to its threads: on the providers, with
    -- the configured keyspace and table, wired as the components say, with all that is looked up
    -- later in its place; the configured port of the application is not empty, and the gateway
    -- without connections is a valid one. No exception is thrown in any of these cases.
    pub launch_lem :
        (connection_providers o opens c ≡ none → launch env r s ≡ ended s)
        × ((ps : List Provider)
            → connection_providers o opens c ≡ some ps
            → (joined.1 ≡ false → launch env r s ≡ ended joined.0)
              × (joined.1 ≡ true → all.1 ≡ false → launch env r s ≡ ended all.0)
              × (joined.1 ≡ true → all.1 ≡ true → Starts ps))
    launch_lem = (
      launch-none,
      λ ps opened.
          let (held, made, h) = build-components e laws o opens c ps opened in
          let order = run_lem d cass_connect c s in
          (
            (λ off.
                launch_built ps held made h
                ∙ behind_run_ended held steps (λ m served. ground (arith, served, (order.0 off).1))
                ∙ ap ended (order.0 off).0),
            (λ on failed.
                launch_built ps held made h
                ∙ behind_run_ended held steps (order.3 on failed)
                ∙ ap ended (order.1 on)),
            launch-Starts ps opened,
          ),
    )
