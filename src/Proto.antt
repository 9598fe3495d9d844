-- ===== src/Proto.antt =====
-- The messages of proto/master.proto that the master and the workers exchange, as the generated Rust
-- types have them. An int32 or int64 is an integer, a double its bit pattern, a string its code points.
pub mod Specs
pub mod Reports
