-- ===== src/Tests.antt =====
-- Runs at concrete inputs, and the theorems at inputs that meet their hypotheses.
mod Stubs
mod Bursts
mod Campaigns
mod Frames
mod Requests
mod Tables
mod Senders
mod Completions
mod Codecs
mod Links
mod Services
mod Preferences
