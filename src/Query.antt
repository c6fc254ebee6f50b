-- ===== src/Query.antt =====
-- The query side, src/query/: the planner, the merge of ranked lists, and the record schemas.
pub mod Planner
pub mod Schema
