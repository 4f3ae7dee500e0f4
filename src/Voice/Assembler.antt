-- ===== src/Voice/Assembler.antt =====
-- crates/voicetastic-core/src/voice/assembler/mod.rs: reassembly.
pub mod Config
pub mod State
pub mod Finalize
pub mod Ingest
pub mod Accept
pub mod Tick
pub mod Shards
pub mod Table
