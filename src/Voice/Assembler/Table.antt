-- ===== src/Voice/Assembler/Table.antt =====
-- crates/voicetastic-core/src/voice/assembler: the table of messages in progress, its counts per
-- sender, and the laws of their operations.
pub mod Counts
pub mod Blacklist
pub mod Invariant
pub mod Insert
pub mod Outcome
pub mod Accept
pub mod Tick
pub mod Timeout
pub mod Rejected
