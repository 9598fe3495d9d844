-- ===== src/Master.antt =====
-- The master: its state in memory, its scheduler, its RPC handlers and its watchers.
pub mod State
pub mod Config
pub mod Job
pub mod Pending
pub mod Events
pub mod Terminal
pub mod Replies
pub mod Manifest
pub mod Scan
pub mod Fetch
pub mod Ready
pub mod Batch
pub mod Progress
pub mod Result
pub mod Delete
pub mod Watch
pub mod Staleness
pub mod Gc
pub mod Create
pub mod Validity
pub mod Calls
pub mod Changes
pub mod Invariant
pub mod Runs
pub mod History
pub mod Timeline
pub mod Retention
pub mod Silence
pub mod Replay
pub mod Cancel
pub mod Listing
pub mod Watchers
