-- ===== src/Settings/Values.antt =====
-- crates/voicetastic-core/src/settings/data.rs: the persisted fields, and the effective values.
use voicetastic_core.Prelude.{
  ℕ, Bool, true, false, Option, none, some, List, [], ◌∷◌, ltb, leb, if◌then◌else◌,
}
use voicetastic_core.Settings.Texts.{Text, codes, same_text}

pub record AppSettings : Type 0 where
  pub last_device : Option Text
  pub max_voice_duration_secs : Option ℕ
  pub reassembly_timeout_secs : Option ℕ
  pub voice_codec : Option Text
  pub voice_codec2_mode : Option ℕ
  pub voice_amrnb_mode : Option ℕ
  pub voice_opus_bitrate_kbps : Option ℕ
  pub voice_opus_bandwidth : Option Text
  pub voice_denoise_enabled : Option Bool
  pub voice_partial_play_on_timeout : Option Bool
  pub voice_fec_mode : Option Text
  pub voice_nack_mode : Option Text
  pub theme_mode : Option Text
  pub theme_contrast : Option Text

abbrev pub default_settings : AppSettings
default_settings = record {
  last_device = none;
  max_voice_duration_secs = none;
  reassembly_timeout_secs = none;
  voice_codec = none;
  voice_codec2_mode = none;
  voice_amrnb_mode = none;
  voice_opus_bitrate_kbps = none;
  voice_opus_bandwidth = none;
  voice_denoise_enabled = none;
  voice_partial_play_on_timeout = none;
  voice_fec_mode = none;
  voice_nack_mode = none;
  theme_mode = none;
  theme_contrast = none;
}

abbrev pub unwrap_or {ℓ} : {A : Type ℓ} → Option A → A → A
unwrap_or none d = d
unwrap_or (some a) d = a

abbrev pub clamp : ℕ → ℕ → ℕ → ℕ
clamp n low high = if ltb n low then low else if ltb high n then high else n

unfoldable pub voice_max_secs : AppSettings → ℕ
voice_max_secs s = clamp (unwrap_or s.max_voice_duration_secs 30) 1 120

unfoldable pub reassembly_timeout_secs : AppSettings → ℕ
reassembly_timeout_secs s = clamp (unwrap_or s.reassembly_timeout_secs 1200) 10 3600

-- `Some(m) if m <= limit`, else the default, which is the limit for both codecs.
abbrev pub mode_or : Option ℕ → ℕ → ℕ
mode_or none limit = limit
mode_or (some m) limit = if leb m limit then m else limit

unfoldable pub voice_codec2_mode : AppSettings → ℕ
voice_codec2_mode s = mode_or s.voice_codec2_mode 5

unfoldable pub voice_amrnb_mode : AppSettings → ℕ
voice_amrnb_mode s = mode_or s.voice_amrnb_mode 7

unfoldable pub voice_opus_bitrate_kbps : AppSettings → ℕ
voice_opus_bitrate_kbps s = clamp (unwrap_or s.voice_opus_bitrate_kbps 12) 6 16

-- `match .. { Some(KNOWN) => KNOWN, .., _ => DEFAULT }`
unfoldable pub known_or : Option Text → List Text → Text → Text
unfolding same_text
known_or none known d = d
known_or (some t) [] d = d
known_or (some t) (k ∷ known) d =
    let rest = known_or (some t) known d in if same_text k t then k else rest

unfoldable pub voice_codec : AppSettings → Text
unfolding known_or
voice_codec s =
    known_or s.voice_codec (codes "opus" ∷ codes "codec2" ∷ codes "amrnb" ∷ []) (codes "amrnb")

unfoldable pub voice_opus_bandwidth : AppSettings → Text
unfolding known_or
voice_opus_bandwidth s =
    known_or s.voice_opus_bandwidth (codes "narrow" ∷ codes "wide" ∷ []) (codes "wide")

unfoldable pub voice_denoise_enabled : AppSettings → Bool
voice_denoise_enabled s = unwrap_or s.voice_denoise_enabled false

unfoldable pub voice_partial_play_on_timeout : AppSettings → Bool
voice_partial_play_on_timeout s = unwrap_or s.voice_partial_play_on_timeout true

unfoldable pub voice_fec_mode : AppSettings → Text
unfolding known_or
voice_fec_mode s =
    known_or s.voice_fec_mode
      (codes "auto" ∷ codes "off" ∷ codes "light" ∷ codes "medium" ∷ codes "heavy" ∷ [])
      (codes "auto")

unfoldable pub voice_nack_mode : AppSettings → Text
unfolding known_or
voice_nack_mode s =
    known_or s.voice_nack_mode
      (codes "auto" ∷ codes "off" ∷ codes "conservative" ∷ codes "aggressive" ∷ []) (codes "auto")

unfoldable pub theme_mode : AppSettings → Text
unfolding known_or
theme_mode s =
    known_or s.theme_mode (codes "system" ∷ codes "light" ∷ codes "dark" ∷ []) (codes "dark")

unfoldable pub theme_contrast : AppSettings → Text
unfolding known_or
theme_contrast s =
    known_or s.theme_contrast (codes "standard" ∷ codes "high" ∷ []) (codes "standard")
