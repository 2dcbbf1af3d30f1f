-- ===== src/Handlers.antt =====
-- src/sip/handlers/mod.rs.
pub mod Events
pub mod Media
pub mod Calls
