-- ===== src/Tests.antt =====
-- Sample inputs, tests of the definitions, and the theorems at concrete inputs.
mod Utilis
mod Http
mod Scylla
mod Registry
mod Websocket
mod Cluster
mod Client
mod App
mod Flights
mod Replies
mod Threads
mod Start
mod Service
