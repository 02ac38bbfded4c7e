-- ===== src/Notify.antt =====
-- The package notify.
pub mod Stat
