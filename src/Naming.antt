-- ===== src/Naming.antt =====
-- types.ts: tool names with their server prefixes, and the selectors that match them.
pub mod Prefix
pub mod Namespace
pub mod Deferred
pub mod Glob
pub mod Owner
pub mod Ownership
mod Tests
