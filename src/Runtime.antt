-- ===== src/Runtime.antt =====
-- The life of the extension's runtime.
pub mod Owner
