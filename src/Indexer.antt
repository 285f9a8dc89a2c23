-- ===== src/Indexer.antt =====
-- indexer/: the owner of a workspace, its queue of changed paths, and its control protocol.
pub mod Types
pub mod EventPath
pub mod Queue
pub mod Lifecycle
mod Unique
pub mod Invariant
pub mod Workers
pub mod Runs
pub mod Operations
pub mod Soundness
pub mod Wakeup
pub mod Pending
pub mod Delivery
pub mod Backoff
pub mod Rests
pub mod Stalls
pub mod Below
mod Examples
