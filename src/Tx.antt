-- ===== src/Tx.antt =====
-- Transactions and versions, src/tx/.
pub mod Mvcc
pub mod Hamt
pub mod Session
