-- ===== src/Sqlite.antt =====
-- storage/sqlite/: how rows are inserted in batches, and the versions of a graph in the tables of the database.
pub mod Batch
pub mod Batches
pub mod Tables
pub mod Versions
pub mod Publication
pub mod Traverse
mod Examples
