-- ===== src/Queues.antt =====
-- The queues between the manifest readers, the scanners and the workers.
pub mod Bounded
