-- ===== src/Scylla.antt =====
-- src/ScyllaDBManager.h: the table of clients in ScyllaDB, over the driver's session.
pub mod Driver
pub mod Manager
pub mod Connect
pub mod Text
pub mod Handles
pub mod Cql
pub mod Table
