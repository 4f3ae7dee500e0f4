-- ===== src/Meshtastic/Protocol.antt =====
-- crates/voicetastic-core/src/meshtastic/service/protocol.rs and inbound.rs: from frames of the
-- radio to events, and from events to the snapshot of the device.
pub mod State
pub mod Decode
pub mod Service
pub mod Outbound
