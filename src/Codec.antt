-- ===== src/Codec.antt =====
-- crates/voicetastic-core/src/codec: frames of an encoded payload, and durations.
pub mod Frames
pub mod Walk
pub mod Packets
pub mod RoundTrip
pub mod Duration
pub mod Timeline
pub mod Fixed
pub mod Samples
