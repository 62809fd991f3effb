-- ===== src/Lib.antt =====
-- wsgateway: a WebSocket gateway. A client connects by WebSocket under a name; every message that
-- it sends is an HTTP request as text, which the gateway forwards to an application, and the
-- response goes back to the client as text. A table in ScyllaDB says which gateway a client is
-- connected to.
--
-- The parts, the files that model them, and the code:
--   Prelude      names, tests, lists, texts and dictionaries that the other files share.
--   Std          string streams with their flags, stoi, strtol and to_string, as the C++ library
--                documents them.
--   Utilis       src/utilis/split.h (Split), src/utilis/ipUtils.h (Ip), src/utilis/env.h
--                (EnvUtils).
--   Config       the constructor of src/config.h.
--   Http         src/utilis/HttpParser.h: createRequestFromBuffer is Parser.create_request, and
--                buildResponseStringBuffer is Response.build_response.
--   Client       src/utilis/boostBeastClient.h: asyncHttpClient is async_http_client. Library holds
--                what it uses of Boost.Beast.
--   Scylla       src/ScyllaDBManager.h: Manager has one function for each method and one for each
--                statement's text; Cql is what is relied on of the database, stated of the
--                language's statements by table, columns and values; Table refines it.
--   Websocket    Registry is src/websocket/WebSocketComponents.h (Registry.Race with several
--                threads, Registry.Finishes for the lock, Registry.Agreement against the table,
--                Gateway.Calls for the calls that a run makes), Listener and Gateway are the two
--                classes of src/websocket/WebSocketListener.h and .cpp, Certificate the names that
--                the second one reads. Flights has the coroutines of all sockets in the air: Frames
--                says what is dispatched, Delivery and Forwarded what is asked of the application,
--                Responses, Once, Landing and Quiet what is sent back, Outbox how it goes out. Over
--                has the runs over one network, Course and Plans one coroutine through all of them,
--                and Asked, Concludes, Replies and Refusals a whole exchange. Cluster is several
--                gateways over one table.
--   Controller   src/controler/WsController.h.
--   Ssl          src/utilis/sslContext.h; State is printStateCB.
--   App          src/AppComponent.h (Providers, Components) and src/App.cpp (Startup, Launch,
--                Lifecycle). Service is the program from its start to a response.
--   Tests        sample inputs, and the theorems at concrete inputs.
--
-- How they interact: App.Launch.launch is the whole start. In it App.Components.build fills the
-- environment, App.Startup.run connects the manager and creates the keyspace, the table and the view,
-- and App.Components.prepare looks up what the servers need; App.Lifecycle.Step then starts a server
-- for each provider and ends the process behind them.
-- An endpoint of Controller hands parameters to Websocket.Gateway.on_after_create, which registers
-- the client (Registry.add_client, with a statement to the database) and gives the socket a
-- listener. Listener.read_message gathers the frames and dispatches the whole message; the
-- coroutine that this starts runs Client.async_http_client, which reads the message with Http, and
-- hands the result to Listener.on_complete: in one piece in Gateway.Delivery.on_forward, and from
-- wait to wait in Flights.Step. on_before_destroy and on_close_frame set the client not available.
--
-- State: records for the program's objects, passed through each operation; the native natural
-- numbers with the wrap-around written out (ports modulo 2 ^ 16, SOCKETS modulo 2 ^ 32, size_t
-- modulo 2 ^ 64); a text is a list of its bytes; maps are association lists (the unordered map of a
-- message's headers too, which the client walks in an order that is a parameter). A socket is the
-- number of its object. Exceptions are values of Std.Number.Result. Where the code reads through an
-- end iterator or a null string, or takes the last byte of an empty text, the model has no result.
--
-- Interleavings: Gateway.Step runs one callback or one start of a coroutine at a time, and
-- on_forward runs a coroutine from its start to its handler as one step. Flights.Step breaks it up:
-- asyncHttpClient is left at each of its four waits, and any callback or other coroutine may come
-- between. Its handler holds the socket and the socket its listener, so the listener to which the
-- coroutine refers lives on behind the socket's end (Flights.buried). Registry.Race breaks
-- addClient, setClientNotAvailable and removeClient into the steps of their threads, and
-- App.Lifecycle is the main thread, the servers and the thread of the io_context. Flights.Outbox adds
-- the executor, which sends what the handlers gave to it in any order, and in Cluster.Act one of
-- several gateways makes a step, over the session that all have.
--
-- Fuel: the loops over a stream take a number that bounds their rounds. Each round of getline takes
-- at least one byte or ends the stream, so the length of the text and two more is enough; the loop
-- over the providers runs an 8-bit number, so 257 rounds are enough.
--
-- Parameters: the environment of the process and oatpp's, the resolver, OpenSSL, the Cassandra
-- driver, Boost.Beast's container of fields, the network and the generator's draws.
-- Client.Library.BeastLaws, Scylla.Cql, App.Components.Library.EnvironmentLaws and
-- Ssl.State.FlagLaws state what is relied on; Tests.Client, Scylla.Table.Memory, Tests.Start and
-- Tests.App fill them.
--
-- Not modelled: what is only written to the log or the terminal, besides the text of printStateCB;
-- the time limit of a connection, which is one of the network's failures; what Boost.Beast throws
-- of its own, as for a TRACE request with a body; an exception inside a thread, which ends the
-- process; the data races of a listener whose callbacks run on one thread and its coroutines on
-- another, each statement being a step; the parts of a frame as the framework writes them; the
-- routing and the handshake, which are the framework's; the build files and scripts.
pub mod Prelude
pub mod Std
pub mod Utilis
pub mod Http
pub mod Config
pub mod Ssl
pub mod App
pub mod Scylla
pub mod Client
pub mod Controller
pub mod Websocket
pub mod Tests
