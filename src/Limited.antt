-- ===== src/Limited.antt =====
-- The package limited: request rate limits, semaphores and bandwidth limits.
pub mod ApiRate
pub mod Semaphore
pub mod Rate
pub mod Conn
pub mod Listener
