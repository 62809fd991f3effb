-- ===== src/Websocket.antt =====
-- src/websocket: the registry of connected clients, the listener of a connection, and the listener
-- of new connections.
pub mod Registry
pub mod Listener
pub mod Certificate
pub mod Gateway
pub mod Cluster
pub mod Flights
