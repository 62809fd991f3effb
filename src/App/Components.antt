-- ===== src/App/Components.antt =====
-- The components of src/AppComponent.h, what `run` of src/App.cpp takes from the environment before
-- it starts the threads, and what the other files look up there later.
pub mod Library
pub mod Wiring
use wsgateway.Prelude.{
  ◌&&◌, ℕ, ◌≡◌, Bool, true, false, List, [], ◌∷◌, Option, none, some, Bytes, codes,
}
use wsgateway.Std.Number.{ℤ, pos, to_signed}
use wsgateway.Config.{Config}
use wsgateway.Ssl.{Openssl}
use wsgateway.Scylla.Manager.{ScyllaManager}
use wsgateway.App.Startup.{make_manager}
use wsgateway.App.Providers.{Provider, Address, connection_providers, request_address}
use wsgateway.App.Components.Library.{
  Kind, config_kind, executor_kind, providers_kind, router_kind, handler_kind, json_mapper_kind,
  data_mapper_kind, manager_kind, request_executor_kind, io_context_kind, work_guard_kind,
  Environment,
}

-- What a component is made of.
pub data Component : Type 0 where
  configuration : Config → Component
  executor : ℤ → ℤ → ℤ → Component
  connection_list : List Provider → Component
  router : Component
  http_handler : Component → Component → Component
  websocket_handler : Component → Component
  mapper : Component
  manager : ScyllaManager → Component
  request_executor : Address → Component
  io_context work_guard : Component

-- A start that comes through, one that is left by an exception, and one in which the process exits.
pub data Build (A : Type 0) : Type 0 where
  built : A → Build A
  thrown exits : Build A

infixl 5 ◌>>=◌
abbrev pub ◌>>=◌ : {A B : Type 0} → Build A → (A → Build B) → Build B
built a >>= f = f a
thrown >>= f = thrown
exits >>= f = exits

abbrev pub or_throw : {A : Type 0} → Option A → Build A
or_throw none = thrown
or_throw (some a) = built a

abbrev pub or_exit : {A : Type 0} → Option A → Build A
or_exit none = exits
or_exit (some a) = built a

abbrev pub as_config : Component → Build Config
as_config (configuration c) = built c
as_config c = thrown

abbrev pub as_providers : Component → Build (List Provider)
as_providers (connection_list ps) = built ps
as_providers c = thrown

abbrev pub as_manager : Component → Build ScyllaManager
as_manager (manager m) = built m
as_manager c = thrown

-- The executor: its numbers are unsigned in the configuration and signed as arguments.
abbrev pub make_executor : Config → Component
make_executor c =
    executor (to_signed 32 (pos c.number_of_worker_threads))
      (to_signed 32 (pos c.number_of_io_threads)) (to_signed 32 (pos c.number_of_timer_threads))

-- What `run` holds when it starts the threads, with the controller's mapper and handler.
pub record Parts : Type 0 where
  pub served_router : Component
  pub object_mapper : Component
  pub websocket_connection_handler : Component
  pub providers : List Provider

module _ (e : Environment Component) (o : Openssl) (opens : Provider → Bool) where
  open e use {State, create, get, get_named}

  abbrev pub config_at : State → Build Config
  config_at s = or_throw (get config_kind s) >>= as_config

  -- What `run` looks up before it connects.
  abbrev pub manager_at : State → Build ScyllaManager
  manager_at s = or_throw (get_named manager_kind (codes "scyllaDBManager") s) >>= as_manager

  -- `AppComponent`: its members in their order, c being what `Config` reads.
  unfoldable pub build : Config → State → Build State
  build c s = do
    s1 ← or_throw (create config_kind [] (configuration c) s)
    c2 ← config_at s1
    s2 ← or_throw (create executor_kind [] (make_executor c2) s1)
    c3 ← config_at s2
    providers ← or_exit (connection_providers o opens c3)
    s3 ← or_throw (create providers_kind [] (connection_list providers) s2)
    s4 ← or_throw (create router_kind [] router s3)
    r ← or_throw (get router_kind s4)
    x ← or_throw (get executor_kind s4)
    s5 ← or_throw (create handler_kind (codes "http") (http_handler r x) s4)
    s6 ← or_throw (create json_mapper_kind [] mapper s5)
    s7 ← or_throw (create data_mapper_kind (codes "clientObjectMapper") mapper s6)
    s8 ← or_throw (create data_mapper_kind [] mapper s7)
    y ← or_throw (get executor_kind s8)
    s9 ← or_throw (create handler_kind (codes "websocket") (websocket_handler y) s8)
    c10 ← config_at s9
    s10 ← or_throw (create manager_kind (codes "scyllaDBManager") (manager (make_manager c10)) s9)
    c11 ← config_at s10
    or_throw (
        create request_executor_kind (codes "clientExcecutor")
          (request_executor (request_address c11)) s10)

  -- `WsController::createShared`: the mapper and the handler that the controller takes.
  abbrev pub make_controller : State → Build (Component × Component)
  make_controller s = do
    j ← or_throw (get json_mapper_kind s)
    h ← or_throw (get_named handler_kind (codes "websocket") s)
    built (j, h)

  -- `run` behind the statements to the database, up to the thread of the `io_context`.
  unfoldable pub prepare : State → Build (State × Parts)
  prepare s = do
    r ← or_throw (get router_kind s)
    controller ← make_controller s
    ps ← or_throw (get providers_kind s) >>= as_providers
    s1 ← or_throw (create io_context_kind [] io_context s)
    s2 ← or_throw (create work_guard_kind [] work_guard s1)
    built (
      s2,
      record {
        served_router = r;
        object_mapper = controller.0;
        websocket_connection_handler = controller.1;
        providers = ps;
      },
    )
