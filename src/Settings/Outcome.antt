-- ===== src/Settings/Outcome.antt =====
-- Which texts a setting takes, and what its descriptor says of that.
use voicetastic_core.Prelude.{
  ℕ, ◌≤◌, ◌≡◌, refl, sym, ap, ◌∙◌, Bool, true, false, not, ◌&&◌, ◌||◌, Option, none, some, List, [],
  ◌∷◌, inl, inr, Bool-cases, arith, ltb, leb, if◌then◌else◌,
}
use voicetastic_core.Settings.Texts.{Text, same_text, to_string}
use voicetastic_core.Settings.Keys.{
  SettingKey, codec_from_id, bandwidth_from_id, fec_from_id, nack_from_id, theme_mode_from_id,
  theme_contrast_from_id,
}
use voicetastic_core.Settings.Values.{AppSettings}
use voicetastic_core.Settings.Store.{
  SettingsApi, invalid, io, SettingsResult, persist_and_notify, set_voice_max_secs,
  set_reassembly_timeout_secs, set_voice_codec, set_voice_codec2_mode, set_voice_amrnb_mode,
  set_voice_opus_bitrate_kbps, set_voice_opus_bandwidth, set_voice_denoise_enabled,
  set_voice_partial_play_on_timeout, set_voice_fec_mode, set_voice_nack_mode, set_theme_mode,
  set_theme_contrast, store, reject,
}
use voicetastic_core.Settings.Generic.{
  parse_u32, parse_bool, set_str, set_parsed, set_byte, SettingKind, optional_string, int_range,
  enum, boolean, kind_of,
}

abbrev pub is_rejected : SettingsResult → Bool
is_rejected none = false
is_rejected (some io) = false
is_rejected (some (invalid key value)) = true

abbrev pub is_some {ℓ} : {A : Type ℓ} → Option A → Bool
is_some none = false
is_some (some a) = true

abbrev pub in_range : ℕ → ℕ → Option ℕ → Bool
in_range min max none = false
in_range min max (some n) = leb min n && leb n max

unfoldable pub member : Text → List Text → Bool
member value [] = false
member value (t ∷ variants) = same_text value t || member value variants

-- Whether a text is of a kind.
unfoldable pub fits : SettingKind → Text → Bool
unfolding member
fits optional_string value = true
fits (int_range min max) value = in_range min max (parse_u32 value)
fits (enum variants) value = member value variants
fits boolean value = is_some (parse_bool value)

pub not_rejected :
    (saved : Bool) (key : SettingKey) (api : SettingsApi)
    → is_rejected (persist_and_notify saved key api).1 ≡ false
unfolding persist_and_notify
not_rejected saved key api = elim (Bool-cases api.has_path) [
  | inl t ↦ elim (Bool-cases saved) [ inl u ↦ rw (t, u) refl | inr u ↦ rw (t, u) refl ]
  | inr t ↦ rw t refl
]

-- A setter that takes every value that parses.
parsed-rejected :
    {A : Type 0} (o : Option A) (set : A → SettingsApi → SettingsApi × SettingsResult)
    (key : SettingKey) (value : Text) (api : SettingsApi)
    → ((a : A) → is_rejected (set a api).1 ≡ false)
    → is_rejected (set_parsed o set key value api).1 ≡ not (is_some o)
parsed-rejected none set key value api h = refl
parsed-rejected (some a) set key value api h = h a

-- A setter that takes the numbers of a range.
ranged-rejected :
    (min max : ℕ) (o : Option ℕ) (set : ℕ → SettingsApi → SettingsApi × SettingsResult)
    (key : SettingKey) (value : Text) (api : SettingsApi)
    → ((n : ℕ) → is_rejected (set n api).1 ≡ not (leb min n && leb n max))
    → is_rejected (set_parsed o set key value api).1 ≡ not (in_range min max o)
ranged-rejected min max none set key value api h = refl
ranged-rejected min max (some n) set key value api h = h n

byte-rejected :
    (min max n : ℕ) (set : ℕ → SettingsApi → SettingsApi × SettingsResult) (key : SettingKey)
    (value : Text) (api : SettingsApi)
    → max ≤ 255
    → ((n : ℕ) → is_rejected (set n api).1 ≡ not (leb min n && leb n max))
    → is_rejected (set_byte set key value n api).1 ≡ not (leb min n && leb n max)
byte-rejected min max n set key value api w h = elim (Bool-cases (ltb 255 n)) [
  | inl t ↦ rw t (ground (arith, t))
  | inr t ↦ rw t (h n)
]

stored-rejected :
    (saved t : Bool) (key : SettingKey) (value : Text) (inner : AppSettings) (api : SettingsApi)
    → is_rejected (if t then store saved key inner api else reject key value api).1 ≡ not t
stored-rejected saved true key value inner api =
    not_rejected saved key (record api { inner = inner })
stored-rejected saved false key value inner api = refl

limited-rejected :
    (saved t : Bool) (key : SettingKey) (value : Text) (inner : AppSettings) (api : SettingsApi)
    → is_rejected (if t then reject key value api else store saved key inner api).1 ≡ t
limited-rejected saved true key value inner api = refl
limited-rejected saved false key value inner api =
    not_rejected saved key (record api { inner = inner })

below_limit : (limit n : ℕ) → ltb limit n ≡ not (leb 0 n && leb n limit)
below_limit limit n = ground arith

-- Each setting takes exactly the texts of the kind that its descriptor announces, and rejects every
-- other, whether the file can be written or not.
pub set_str-rejected :
    (saved : Bool) (key : SettingKey) (value : Text) (api : SettingsApi)
    → is_rejected (set_str saved key value api).1 ≡ not (fits (kind_of key) value)
unfolding set_str kind_of member fits
set_str-rejected saved SettingKey.last_device value api =
    not_rejected saved SettingKey.last_device _
set_str-rejected saved SettingKey.voice_max_duration_secs value api =
    ranged-rejected 1 120 (parse_u32 value) (set_voice_max_secs saved)
      SettingKey.voice_max_duration_secs value api
      (λ n.
        stored-rejected saved (leb 1 n && leb n 120) SettingKey.voice_max_duration_secs
          (to_string n) (record api.inner { max_voice_duration_secs = some n }) api)
set_str-rejected saved SettingKey.voice_reassembly_timeout_secs value api =
    ranged-rejected 10 3600 (parse_u32 value) (set_reassembly_timeout_secs saved)
      SettingKey.voice_reassembly_timeout_secs value api
      (λ n.
        stored-rejected saved (leb 10 n && leb n 3600) SettingKey.voice_reassembly_timeout_secs
          (to_string n) (record api.inner { reassembly_timeout_secs = some n }) api)
set_str-rejected saved SettingKey.voice_codec value api =
    parsed-rejected (codec_from_id value) (set_voice_codec saved) SettingKey.voice_codec value api
      (λ k. not_rejected saved SettingKey.voice_codec _)
    ∙ ap not (sym (ground arith))
set_str-rejected saved SettingKey.voice_codec2_mode value api =
    ranged-rejected 0 5 (parse_u32 value)
      (set_byte (set_voice_codec2_mode saved) SettingKey.voice_codec2_mode value)
      SettingKey.voice_codec2_mode value api
      (λ m.
        byte-rejected 0 5 m (set_voice_codec2_mode saved) SettingKey.voice_codec2_mode value api
          (omega arith)
          (λ n.
            limited-rejected saved (ltb 5 n) SettingKey.voice_codec2_mode (to_string n)
              (record api.inner { voice_codec2_mode = some n }) api
            ∙ below_limit 5 n))
set_str-rejected saved SettingKey.voice_amrnb_mode value api =
    ranged-rejected 0 7 (parse_u32 value)
      (set_byte (set_voice_amrnb_mode saved) SettingKey.voice_amrnb_mode value)
      SettingKey.voice_amrnb_mode value api
      (λ m.
        byte-rejected 0 7 m (set_voice_amrnb_mode saved) SettingKey.voice_amrnb_mode value api
          (omega arith)
          (λ n.
            limited-rejected saved (ltb 7 n) SettingKey.voice_amrnb_mode (to_string n)
              (record api.inner { voice_amrnb_mode = some n }) api
            ∙ below_limit 7 n))
set_str-rejected saved SettingKey.voice_opus_bitrate_kbps value api =
    ranged-rejected 6 16 (parse_u32 value)
      (set_byte (set_voice_opus_bitrate_kbps saved) SettingKey.voice_opus_bitrate_kbps value)
      SettingKey.voice_opus_bitrate_kbps value api
      (λ m.
        byte-rejected 6 16 m (set_voice_opus_bitrate_kbps saved) SettingKey.voice_opus_bitrate_kbps
          value api (omega arith)
          (λ n.
            stored-rejected saved (leb 6 n && leb n 16) SettingKey.voice_opus_bitrate_kbps
              (to_string n) (record api.inner { voice_opus_bitrate_kbps = some n }) api))
set_str-rejected saved SettingKey.voice_opus_bandwidth value api =
    parsed-rejected (bandwidth_from_id value) (set_voice_opus_bandwidth saved)
      SettingKey.voice_opus_bandwidth value api
      (λ k. not_rejected saved SettingKey.voice_opus_bandwidth _)
    ∙ ap not (sym (ground arith))
set_str-rejected saved SettingKey.voice_denoise_enabled value api =
    parsed-rejected (parse_bool value) (set_voice_denoise_enabled saved)
      SettingKey.voice_denoise_enabled value api
      (λ k. not_rejected saved SettingKey.voice_denoise_enabled _)
set_str-rejected saved SettingKey.voice_partial_play_on_timeout value api =
    parsed-rejected (parse_bool value) (set_voice_partial_play_on_timeout saved)
      SettingKey.voice_partial_play_on_timeout value api
      (λ k. not_rejected saved SettingKey.voice_partial_play_on_timeout _)
set_str-rejected saved SettingKey.voice_fec_mode value api =
    parsed-rejected (fec_from_id value) (set_voice_fec_mode saved) SettingKey.voice_fec_mode value
      api (λ k. not_rejected saved SettingKey.voice_fec_mode _)
    ∙ ap not (sym (ground arith))
set_str-rejected saved SettingKey.voice_nack_mode value api =
    parsed-rejected (nack_from_id value) (set_voice_nack_mode saved) SettingKey.voice_nack_mode
      value api (λ k. not_rejected saved SettingKey.voice_nack_mode _)
    ∙ ap not (sym (ground arith))
set_str-rejected saved SettingKey.theme_mode value api =
    parsed-rejected (theme_mode_from_id value) (set_theme_mode saved) SettingKey.theme_mode value
      api (λ k. not_rejected saved SettingKey.theme_mode _)
    ∙ ap not (sym (ground arith))
set_str-rejected saved SettingKey.theme_contrast value api =
    parsed-rejected (theme_contrast_from_id value) (set_theme_contrast saved)
      SettingKey.theme_contrast value api (λ k. not_rejected saved SettingKey.theme_contrast _)
    ∙ ap not (sym (ground arith))
