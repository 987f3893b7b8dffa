-- ===== src/Approval.antt =====
-- Approvals: persisted entries, the consent manager, the session's memory and the gate of a call.
pub mod Entry
pub mod Consent
pub mod Session
pub mod Project
pub mod Gate
