-- ===== src/Tests/Service.antt =====
-- A process without variables, and a client that connects to it and sends a request.
use wsgateway.Prelude.{List, [], codes, nat_eq}
use wsgateway.Config.{new_config}
use wsgateway.Scylla.Manager
use wsgateway.Scylla.Manager.{execute_query}
use wsgateway.Scylla.Table.Memory.{Rows}
use wsgateway.Websocket.Flights.{Air}
use wsgateway.Websocket.Flights.Replies.{Replies}
use wsgateway.App.Providers.{Provider, tcp}
use wsgateway.App.Ports.{made}
use wsgateway.App.Service.{first_state, connected}
use wsgateway.Tests.Registry.{car}
use wsgateway.Tests.Client.{beast}
use wsgateway.Tests.Utilis.{no_env, offline}
use wsgateway.Tests.App.{openssl, opens, joins}
use wsgateway.Tests.Start.{environment, environment_laws, willing}

abbrev default_ports : List Provider
default_ports = made opens tcp (codes "0.0.0.0") 8020 0 24

abbrev begun : Air beast Rows
begun = first_state environment openssl opens willing joins environment_laws no_env offline [] beast

abbrev connected_once : Air beast Rows
connected_once = connected willing (new_config no_env offline) begun 7 car
