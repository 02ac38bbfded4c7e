-- ===== src/Utils.antt =====
-- utils: helpers that the other packages share.
pub mod SyncMap
pub mod Encoding
pub mod Tests
