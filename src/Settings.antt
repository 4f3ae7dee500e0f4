-- ===== src/Settings.antt =====
-- crates/voicetastic-core/src/settings: the client settings, their texts and their store.
pub mod Texts
pub mod Keys
pub mod Values
pub mod Store
pub mod Persist
pub mod Generic
pub mod RoundTrip
pub mod Outcome
pub mod Spelling
