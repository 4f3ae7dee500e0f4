-- ===== src/Proto.antt =====
-- crates/voicetastic-proto: the wire format that every client shares.
pub mod Consts
pub mod Types
pub mod Error
pub mod Mac
pub mod Header
pub mod ReedSolomon
pub mod Builder
