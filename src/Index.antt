-- ===== src/Index.antt =====
-- src/index: the indices beside the storage.
pub mod Bloom
pub mod Graph
pub mod Fuzzy
pub mod Bm25
pub mod Manager
