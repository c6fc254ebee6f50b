-- ===== src/Tests.antt =====
-- The theorems of the other modules at concrete inputs, and runs of the definitions.
pub mod Inputs
pub mod Levels
pub mod Log
pub mod Buffers
pub mod Transactions
pub mod Runs
pub mod Graphs
pub mod Indices
pub mod Clients
