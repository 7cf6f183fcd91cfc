-- ===== src/Cmd.antt =====
-- The programs of cmd that do more than wire the parts together.
pub mod Reconcile
pub mod Server
pub mod StatusChecker
