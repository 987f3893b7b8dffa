-- ===== src/Connection.antt =====
-- Connections to servers: what their errors mean, keeping them alive, and recovering a session.
pub mod Failure
pub mod Lifecycle
pub mod Recovery
pub mod Manager
pub mod Arbitration
