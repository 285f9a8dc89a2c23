-- ===== src/Graph.antt =====
-- graph/facts.go: the fact schema and its validation.
pub mod Types
pub mod Vocabulary
pub mod Validate
pub mod Identity
pub mod WellFormed
mod Loops
pub mod Admission
pub mod Consistent
pub mod Evidence
mod NodeTable
pub mod Soundness
pub mod Distinguish
pub mod Examples
