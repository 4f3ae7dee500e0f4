-- ===== src/Voice/Assembler/Shards.antt =====
-- crates/voicetastic-core/src/voice/assembler/state.rs: the counters of a state against its shards.
pub mod Slots
pub mod Counted
pub mod Ingest
pub mod Entry
pub mod Entries
pub mod Complete
pub mod Tick
