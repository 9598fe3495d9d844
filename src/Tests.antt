-- ===== src/Tests.antt =====
-- Small states, and the theorems at concrete inputs.
pub mod Fixtures
pub mod Jobs
pub mod Parts
pub mod Worker
pub mod Scan
pub mod Files
pub mod Clock
pub mod Config
