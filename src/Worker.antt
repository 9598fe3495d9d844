-- ===== src/Worker.antt =====
-- The worker process, crates/cvd-worker: the parts of it that are more than calls of the system.
pub mod Clock
pub mod Backoff
pub mod FsIo
pub mod Prebuild
pub mod Lifecycle
