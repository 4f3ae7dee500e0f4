-- ===== src/Settings/RoundTrip/Numbers.antt =====
-- A number in its range, set as a text.
use voicetastic_core.Prelude.{
  ℕ, ◌≤◌, ◌≡◌, refl, ap, ◌∙◌, Bool, true, false, Option, none, some, inl, inr, Option-cases, arith,
  ◌==◌,
}
use voicetastic_core.Prelude.Bits.{all_below, all_below_sound}
use voicetastic_core.Settings.Texts.{Text, to_string}
use voicetastic_core.Settings.Keys.{SettingKey}
use voicetastic_core.Settings.Values
use voicetastic_core.Settings.Values.{AppSettings, unwrap_or, clamp, mode_or}
use voicetastic_core.Settings.Store.{
  SettingsApi, store, set_voice_max_secs, set_reassembly_timeout_secs, set_voice_codec2_mode,
  set_voice_amrnb_mode, set_voice_opus_bitrate_kbps,
}
use voicetastic_core.Settings.Generic.{parse_u32, set_str, set_parsed, set_byte}

reads : ℕ → Option ℕ → Bool
reads n none = false
reads n (some m) = m == n

-- Every number that a setting can hold is read back from its digits.
number_table : all_below 3601 (λ n. reads n (parse_u32 (to_string n))) ≡ true
unfolding all_below reads parse_u32 to_string
number_table = refl

parse_u32-to_string : (n : ℕ) → n ≤ 3600 → parse_u32 (to_string n) ≡ some n
unfolding reads
parse_u32-to_string n h =
    let t =
      all_below_sound 3601 (λ m. reads m (parse_u32 (to_string m))) n number_table (omega arith) in
    elim (Option-cases (parse_u32 (to_string n))) [
      | inl e ↦ absurd (ground (arith, t, e))
      | inr (m, e) ↦ e ∙ ap some (ground (arith, t, e))
    ]

set-max_secs_parsed :
    (saved : Bool) (value : Text) (api : SettingsApi)
    → set_str saved SettingKey.voice_max_duration_secs value api
      ≡ set_parsed
          (parse_u32 value)
          (set_voice_max_secs saved)
          SettingKey.voice_max_duration_secs
          value
          api
unfolding set_str
set-max_secs_parsed saved value api = refl

pub set-max_secs :
    (saved : Bool) (n : ℕ) (api : SettingsApi)
    → 1 ≤ n
    → n ≤ 120
    → set_str saved SettingKey.voice_max_duration_secs (to_string n) api
      ≡ store saved SettingKey.voice_max_duration_secs
          (record api.inner { max_voice_duration_secs = some n })
          api
unfolding set_voice_max_secs
set-max_secs saved n api l h =
    rw (set-max_secs_parsed saved (to_string n) api, parse_u32-to_string n (omega arith))
      (ground arith)

pub max_secs_value :
    (s : AppSettings) → (1 ≤ Values.voice_max_secs s) × (Values.voice_max_secs s ≤ 120)
unfolding Values.voice_max_secs
max_secs_value s = ground (arith, Option-cases s.max_voice_duration_secs)

pub max_secs-stored :
    (n : ℕ) (s : AppSettings)
    → 1 ≤ n
    → n ≤ 120
    → Values.voice_max_secs (record s { max_voice_duration_secs = some n }) ≡ n
unfolding Values.voice_max_secs
max_secs-stored n s l h = ground arith

set-timeout_parsed :
    (saved : Bool) (value : Text) (api : SettingsApi)
    → set_str saved SettingKey.voice_reassembly_timeout_secs value api
      ≡ set_parsed
          (parse_u32 value)
          (set_reassembly_timeout_secs saved)
          SettingKey.voice_reassembly_timeout_secs
          value
          api
unfolding set_str
set-timeout_parsed saved value api = refl

pub set-timeout :
    (saved : Bool) (n : ℕ) (api : SettingsApi)
    → 10 ≤ n
    → n ≤ 3600
    → set_str saved SettingKey.voice_reassembly_timeout_secs (to_string n) api
      ≡ store saved SettingKey.voice_reassembly_timeout_secs
          (record api.inner { reassembly_timeout_secs = some n })
          api
unfolding set_reassembly_timeout_secs
set-timeout saved n api l h =
    rw (set-timeout_parsed saved (to_string n) api, parse_u32-to_string n (omega arith))
      (ground arith)

pub timeout_value :
    (s : AppSettings)
    → (10 ≤ Values.reassembly_timeout_secs s) × (Values.reassembly_timeout_secs s ≤ 3600)
unfolding Values.reassembly_timeout_secs
timeout_value s = ground (arith, Option-cases s.reassembly_timeout_secs)

pub timeout-stored :
    (n : ℕ) (s : AppSettings)
    → 10 ≤ n
    → n ≤ 3600
    → Values.reassembly_timeout_secs (record s { reassembly_timeout_secs = some n }) ≡ n
unfolding Values.reassembly_timeout_secs
timeout-stored n s l h = ground arith

set-codec2_mode_parsed :
    (saved : Bool) (value : Text) (api : SettingsApi)
    → set_str saved SettingKey.voice_codec2_mode value api
      ≡ set_parsed
          (parse_u32 value)
          (set_byte (set_voice_codec2_mode saved) SettingKey.voice_codec2_mode value)
          SettingKey.voice_codec2_mode
          value
          api
unfolding set_str
set-codec2_mode_parsed saved value api = refl

pub set-codec2_mode :
    (saved : Bool) (n : ℕ) (api : SettingsApi)
    → 0 ≤ n
    → n ≤ 5
    → set_str saved SettingKey.voice_codec2_mode (to_string n) api
      ≡ store saved SettingKey.voice_codec2_mode
          (record api.inner { voice_codec2_mode = some n })
          api
unfolding set_voice_codec2_mode
set-codec2_mode saved n api l h =
    rw (set-codec2_mode_parsed saved (to_string n) api, parse_u32-to_string n (omega arith))
      (ground arith)

pub codec2_mode_value :
    (s : AppSettings) → (0 ≤ Values.voice_codec2_mode s) × (Values.voice_codec2_mode s ≤ 5)
unfolding Values.voice_codec2_mode
codec2_mode_value s = ground (arith, Option-cases s.voice_codec2_mode)

pub codec2_mode-stored :
    (n : ℕ) (s : AppSettings)
    → 0 ≤ n
    → n ≤ 5
    → Values.voice_codec2_mode (record s { voice_codec2_mode = some n }) ≡ n
unfolding Values.voice_codec2_mode
codec2_mode-stored n s l h = ground arith

set-amrnb_mode_parsed :
    (saved : Bool) (value : Text) (api : SettingsApi)
    → set_str saved SettingKey.voice_amrnb_mode value api
      ≡ set_parsed
          (parse_u32 value)
          (set_byte (set_voice_amrnb_mode saved) SettingKey.voice_amrnb_mode value)
          SettingKey.voice_amrnb_mode
          value
          api
unfolding set_str
set-amrnb_mode_parsed saved value api = refl

pub set-amrnb_mode :
    (saved : Bool) (n : ℕ) (api : SettingsApi)
    → 0 ≤ n
    → n ≤ 7
    → set_str saved SettingKey.voice_amrnb_mode (to_string n) api
      ≡ store saved SettingKey.voice_amrnb_mode (record api.inner { voice_amrnb_mode = some n }) api
unfolding set_voice_amrnb_mode
set-amrnb_mode saved n api l h =
    rw (set-amrnb_mode_parsed saved (to_string n) api, parse_u32-to_string n (omega arith))
      (ground arith)

pub amrnb_mode_value :
    (s : AppSettings) → (0 ≤ Values.voice_amrnb_mode s) × (Values.voice_amrnb_mode s ≤ 7)
unfolding Values.voice_amrnb_mode
amrnb_mode_value s = ground (arith, Option-cases s.voice_amrnb_mode)

pub amrnb_mode-stored :
    (n : ℕ) (s : AppSettings)
    → 0 ≤ n
    → n ≤ 7
    → Values.voice_amrnb_mode (record s { voice_amrnb_mode = some n }) ≡ n
unfolding Values.voice_amrnb_mode
amrnb_mode-stored n s l h = ground arith

set-bitrate_parsed :
    (saved : Bool) (value : Text) (api : SettingsApi)
    → set_str saved SettingKey.voice_opus_bitrate_kbps value api
      ≡ set_parsed
          (parse_u32 value)
          (set_byte (set_voice_opus_bitrate_kbps saved) SettingKey.voice_opus_bitrate_kbps value)
          SettingKey.voice_opus_bitrate_kbps
          value
          api
unfolding set_str
set-bitrate_parsed saved value api = refl

pub set-bitrate :
    (saved : Bool) (n : ℕ) (api : SettingsApi)
    → 6 ≤ n
    → n ≤ 16
    → set_str saved SettingKey.voice_opus_bitrate_kbps (to_string n) api
      ≡ store saved SettingKey.voice_opus_bitrate_kbps
          (record api.inner { voice_opus_bitrate_kbps = some n })
          api
unfolding set_voice_opus_bitrate_kbps
set-bitrate saved n api l h =
    rw (set-bitrate_parsed saved (to_string n) api, parse_u32-to_string n (omega arith))
      (ground arith)

pub bitrate_value :
    (s : AppSettings)
    → (6 ≤ Values.voice_opus_bitrate_kbps s) × (Values.voice_opus_bitrate_kbps s ≤ 16)
unfolding Values.voice_opus_bitrate_kbps
bitrate_value s = ground (arith, Option-cases s.voice_opus_bitrate_kbps)

pub bitrate-stored :
    (n : ℕ) (s : AppSettings)
    → 6 ≤ n
    → n ≤ 16
    → Values.voice_opus_bitrate_kbps (record s { voice_opus_bitrate_kbps = some n }) ≡ n
unfolding Values.voice_opus_bitrate_kbps
bitrate-stored n s l h = ground arith
