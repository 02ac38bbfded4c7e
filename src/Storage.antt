-- ===== src/Storage.antt =====
-- storage: the storages of a cluster.
pub mod Mount
pub mod Tests
