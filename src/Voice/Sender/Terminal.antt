-- ===== src/Voice/Sender/Terminal.antt =====
-- crates/voicetastic-core/src/voice/sender.rs: the terminal statuses of a send.
pub mod Quiet
pub mod Moves
mod Accounts
pub mod Heard
mod Kept
pub mod Steps
pub mod Told
