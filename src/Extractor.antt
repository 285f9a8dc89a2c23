-- ===== src/Extractor.antt =====
-- extractor/ and extractors/registry/: what an extractor contributes, checked when it comes in.
pub mod Types
pub mod Extension
pub mod Metadata
pub mod Contribution
pub mod Language
pub mod Registry
pub mod Examples
pub mod PageIndex
pub mod FileView
