-- ===== src/Executor.antt =====
-- Executor servers, whose programs pause for an approval or an input.
pub mod Pauses
