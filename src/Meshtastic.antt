-- ===== src/Meshtastic.antt =====
-- crates/voicetastic-core/src/meshtastic: the radio link and its service.
pub mod Reconnect
pub mod Campaign
pub mod Serial
pub mod NodeIds
pub mod Messages
pub mod Pkc
pub mod Protocol
pub mod Connection
