-- ===== src/Voice/Assembler/Config.antt =====
-- crates/voicetastic-core/src/voice/assembler/config.rs: the tunable configuration. Durations are
-- in nanoseconds.
pub mod Cap
use voicetastic_core.Prelude.{
  ℕ, ◌/◌, ◌%◌, ◌^◌, min, max, Bool, true, Option, none, some, List, ltb, leb, ◌==◌, if◌then◌else◌,
}
use voicetastic_core.Proto.Consts.{
  secs, millis, dead_sender_timeout, nack_max_rounds, nack_window_ms,
}
use voicetastic_core.Proto.Types.{VoiceCodec}
use voicetastic_core.Proto.Builder.{div_ceil}

abbrev pub max_validation_strikes : ℕ
max_validation_strikes = 3

pub record AssemblerConfig : Type 0 where
  pub message_timeout : ℕ
  pub partial_play_on_timeout : Bool
  pub max_nack_rounds : ℕ
  pub nack_window : ℕ
  pub nack_backoff_base : ℕ
  pub completion_memory : ℕ
  pub dead_sender_timeout : ℕ
  pub supported_codecs : Option (List VoiceCodec)

unfoldable pub default_config : AssemblerConfig
default_config = record {
  message_timeout = secs 1200;
  partial_play_on_timeout = true;
  max_nack_rounds = nack_max_rounds;
  nack_window = millis nack_window_ms;
  nack_backoff_base = 3;
  completion_memory = secs 1200;
  dead_sender_timeout = dead_sender_timeout;
  supported_codecs = none;
}

-- `as_millis() as u64`
abbrev pub millis_of : ℕ → ℕ
millis_of d = d / 1_000_000

unfoldable pub sync_nack_cap_to_timeout : AssemblerConfig → AssemblerConfig
sync_nack_cap_to_timeout cfg =
    let window_ms = max (millis_of cfg.nack_window) 1 % 2 ^ 64 in
    let timeout_ms = millis_of cfg.message_timeout % 2 ^ 64 in
    record cfg {
      max_nack_rounds = min (div_ceil timeout_ms window_ms) 65535;
      completion_memory = max cfg.completion_memory cfg.message_timeout;
    }

unfoldable pub clamped : AssemblerConfig → AssemblerConfig
clamped cfg =
    let timeout = max cfg.message_timeout (millis 1) in
    record cfg {
      message_timeout = timeout;
      nack_window = max cfg.nack_window (millis 1);
      dead_sender_timeout = min (max cfg.dead_sender_timeout (millis 1)) timeout;
      completion_memory = max cfg.completion_memory timeout;
    }

-- The texts of `validate`, by what they say.
pub data ConfigError : Type 0 where
  zero_timeout zero_dead_sender late_dead_sender zero_window short_memory : ConfigError

-- `none` is `Ok(())`.
unfoldable pub validate : AssemblerConfig → Option ConfigError
validate cfg =
    if cfg.message_timeout == 0
    then some zero_timeout
    else if cfg.dead_sender_timeout == 0
    then some zero_dead_sender
    else if leb cfg.message_timeout cfg.dead_sender_timeout
    then some late_dead_sender
    else if cfg.nack_window == 0
    then some zero_window
    else if ltb cfg.completion_memory cfg.message_timeout
    then some short_memory
    else none
