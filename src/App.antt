-- ===== src/App.antt =====
-- src/AppComponent.h and src/App.cpp: what the process builds when it starts, and the order in
-- which it does so.
pub mod Providers
pub mod Ports
pub mod Startup
pub mod Order
pub mod Lifecycle
pub mod Components
pub mod Launch
pub mod Service
