-- ===== src/Voice/NackMode.antt =====
-- crates/voicetastic-core/src/settings/api.rs: VoiceNackMode::resolve.
pub mod Off
use voicetastic_core.Prelude.{ℕ, ◌*◌, max, Option, none, some}
use voicetastic_core.Proto.Consts.{secs, millis}
use voicetastic_core.Proto.Types.{
  ModemPreset, short_turbo, short_fast, short_slow, medium_fast, medium_slow, long_fast,
  long_moderate, long_slow, very_long_slow, pacing, fallback_pacing,
}

pub data VoiceNackMode : Type 0 where
  auto off conservative aggressive : VoiceNackMode

pub record NackParams : Type 0 where
  pub nack_window : ℕ
  pub backoff_base : ℕ
  pub max_nack_rounds : ℕ

unfoldable pub disabled : NackParams
disabled = record { nack_window = secs 3600; backoff_base = 0; max_nack_rounds = 0 }

abbrev pub fast_params : NackParams
fast_params = record { nack_window = millis 1500; backoff_base = 2; max_nack_rounds = 800 }

abbrev pub middle_params : NackParams
middle_params = record { nack_window = millis 3000; backoff_base = 2; max_nack_rounds = 400 }

abbrev pub slow_params : ℕ → NackParams
slow_params pace = record {
  nack_window = max (pace * 4) (millis 4000);
  backoff_base = 3;
  max_nack_rounds = 200;
}

abbrev pub pacing_of : Option ModemPreset → ℕ
pacing_of none = fallback_pacing
pacing_of (some preset) = pacing preset

unfoldable pub auto_params : Option ModemPreset → NackParams
auto_params none = slow_params (pacing_of none)
auto_params (some short_turbo) = fast_params
auto_params (some short_fast) = fast_params
auto_params (some short_slow) = fast_params
auto_params (some medium_fast) = fast_params
auto_params (some medium_slow) = middle_params
auto_params (some long_fast) = middle_params
auto_params (some long_moderate) = slow_params (pacing long_moderate)
auto_params (some long_slow) = slow_params (pacing long_slow)
auto_params (some very_long_slow) = slow_params (pacing very_long_slow)

unfoldable pub resolve_nack : VoiceNackMode → Option ModemPreset → NackParams
resolve_nack off preset = disabled
resolve_nack conservative preset = slow_params (pacing_of preset)
resolve_nack aggressive preset = fast_params
resolve_nack auto preset = auto_params preset
