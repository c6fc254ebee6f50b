-- ===== src/Storage.antt =====
-- The storage layer, src/storage/.
pub mod Fnv
pub mod Wal
pub mod Memtable
pub mod Page
pub mod Cache
pub mod Compaction
