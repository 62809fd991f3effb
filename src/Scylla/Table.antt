-- ===== src/Scylla/Table.antt =====
-- The table as a client of the manager relies on it: a map from clients to hosts.
pub mod Memory
pub mod Refines
