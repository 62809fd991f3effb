-- ===== src/App/Service.antt =====
-- The program from its start in src/App.cpp to the response that a client gets.
use wsgateway.Prelude.{ℕ, List, Bool, Bytes, nat_eq}
use wsgateway.Http.Response.{Response}
use wsgateway.Utilis.EnvUtils.{Env}
use wsgateway.Utilis.Ip.{Resolver}
use wsgateway.Config.{Config}
use wsgateway.Ssl.{Openssl}
use wsgateway.Scylla.Driver.{Driver}
use wsgateway.Client.Library.{Beast}
use wsgateway.Websocket.Gateway.{register}
use wsgateway.Websocket.Flights.{Air, at_rest}
use wsgateway.Websocket.Flights.Replies.{Replies}
use wsgateway.App.Providers.{Provider}
use wsgateway.App.Order.{ready}
use wsgateway.App.Components.{Component}
use wsgateway.App.Components.Library.{Environment, EnvironmentLaws}
use wsgateway.App.Launch.{target_of, fresh, all}

-- The flights behind a new connection of a client.
abbrev pub connected :
    {b : Beast} (d : Driver) (c : Config) → Air b d.State → ℕ → Bytes → Air b d.State
connected d c a socket client = record a {
  gateway = (register d (ready c) (target_of c) a.gateway socket client).0;
}

module _ (e : Environment Component) (o : Openssl) (opens : Provider → Bool) (d : Driver)
    (cass_connect : Bytes → List ℕ → d.State → d.State × Bool) (laws : EnvironmentLaws e)
    (env : Env) (r : Resolver) (s : d.State) (b : Beast) where
  open d use {State}

  -- The gateway of the process, before its first connection.
  abbrev pub first_state : Air b State
  first_state = at_rest b (fresh (all e o opens d cass_connect laws env r s).0)
