-- ===== src/Utilis.antt =====
-- The helpers under src/utilis: text splitting, addresses and environment variables.
pub mod Split
pub mod Ip
pub mod EnvUtils
