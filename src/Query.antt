-- ===== src/Query.antt =====
-- query/: paths, ranking and queries over a published graph.
pub mod Path
pub mod Types
pub mod Find
pub mod Snapshot
pub mod Rank
