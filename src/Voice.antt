-- ===== src/Voice.antt =====
-- crates/voicetastic-core/src/voice: requests for missing chunks, and reassembly.
pub mod Nack
pub mod Types
pub mod Assembler
pub mod TxState
pub mod Outgoing
pub mod SendPrep
pub mod Sender
pub mod NackMode
