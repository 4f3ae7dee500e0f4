-- ===== src/Settings/RoundTrip.antt =====
-- The text of a setting can be set again, and changes nothing that is seen of it.
mod Ids
mod Numbers
use voicetastic_core.Prelude.{
  ℕ, ◌≤◌, ◌<◌, ◌≡◌, refl, sym, ap, ◌∙◌, Bool, true, false, ◌&&◌, Option, none, some, List, [], ◌∷◌,
  inl, inr, Bool-cases, Option-cases, arith, ltb, leb, ◌==◌, if◌then◌else◌, is_empty,
}
use voicetastic_core.Prelude.Bits.{all_below, all_below_sound}
use voicetastic_core.Voice.NackMode.{VoiceNackMode}
use voicetastic_core.Voice.SendPrep.{VoiceFecMode}
use voicetastic_core.Settings.Texts.{Text, to_string}
use voicetastic_core.Settings.Keys.{
  SettingKey, VoiceCodecKind, codec_id, codec_from_id, OpusBandwidthKind, bandwidth_id,
  bandwidth_from_id, fec_id, fec_from_id, nack_id, nack_from_id, ThemeModeKind, theme_mode_id,
  theme_mode_from_id, ThemeContrastKind, theme_contrast_id, theme_contrast_from_id, key_id,
  key_from_id,
}
use voicetastic_core.Settings.Values
use voicetastic_core.Settings.Values.{AppSettings, unwrap_or, clamp, mode_or}
use voicetastic_core.Settings.Store.{
  SettingsApi, SettingsResult, persist, persist_and_notify, store, set_last_device,
  set_voice_max_secs, set_reassembly_timeout_secs, set_voice_codec, set_voice_codec2_mode,
  set_voice_amrnb_mode, set_voice_opus_bitrate_kbps, set_voice_opus_bandwidth,
  set_voice_denoise_enabled, set_voice_partial_play_on_timeout, set_voice_fec_mode,
  set_voice_nack_mode, set_theme_mode, set_theme_contrast, non_empty,
}
use voicetastic_core.Settings.Generic.{
  codec_kind, bandwidth_kind, fec_kind, nack_kind, theme_mode_kind, theme_contrast_kind, get_str,
  bool_text, parse_u32, parse_bool, set_str, set_parsed, set_byte,
}
use voicetastic_core.Settings.Outcome.{is_rejected, not_rejected}
use voicetastic_core.Settings.RoundTrip.Ids.{
  codec_kind-stored, set-codec_id, bandwidth_kind-stored, set-bandwidth_id, fec_kind-stored,
  set-fec_id, nack_kind-stored, set-nack_id, theme_mode_kind-stored, set-theme_mode_id,
  theme_contrast_kind-stored, set-theme_contrast_id, set-bool_parsed_denoise,
  set-bool_parsed_partial,
}
use voicetastic_core.Settings.RoundTrip.Numbers.{
  set-max_secs, max_secs_value, max_secs-stored, set-timeout, timeout_value, timeout-stored,
  set-codec2_mode, codec2_mode_value, codec2_mode-stored, set-amrnb_mode, amrnb_mode_value,
  amrnb_mode-stored, set-bitrate, bitrate_value, bitrate-stored,
}

persisted-inner :
    (saved : Bool) (key : SettingKey) (api : SettingsApi)
    → (persist_and_notify saved key api).0.inner ≡ api.inner
unfolding persist_and_notify
persisted-inner saved key api = elim (Bool-cases api.has_path) [
  | inl t ↦ elim (Bool-cases saved) [ inl u ↦ rw (t, u) refl | inr u ↦ rw (t, u) refl ]
  | inr t ↦ rw t refl
]

-- A call of a setter that is accepted and leaves the text of the setting as it was.
pub record Restored (saved : Bool) (key : SettingKey) (api : SettingsApi) : Type 0 where
  pub accepted : is_rejected (set_str saved key (get_str key api.inner) api).1 ≡ false
  pub same :
      get_str key (set_str saved key (get_str key api.inner) api).0.inner ≡ get_str key api.inner

stored-Restored :
    (saved : Bool) (key : SettingKey) (api : SettingsApi) (inner : AppSettings)
    → set_str saved key (get_str key api.inner) api ≡ store saved key inner api
    → get_str key inner ≡ get_str key api.inner
    → Restored saved key api
stored-Restored saved key api inner e g = record {
  accepted = ap (λ r. is_rejected (r.1)) e ∙ not_rejected saved key (record api { inner = inner });
  same =
      ap (λ r. get_str key (r.0.inner)) e
      ∙ ap (get_str key) (persisted-inner saved key (record api { inner = inner }))
      ∙ g;
}

last_device-Restored :
    (saved : Bool) (api : SettingsApi) → Restored saved SettingKey.last_device api
unfolding get_str set_str set_last_device
last_device-Restored saved api =
    let v : Text = unwrap_or api.inner.last_device [] in
    stored-Restored saved SettingKey.last_device api
      (record api.inner { last_device = non_empty (if is_empty v then none else some v) }) refl
      (kept v)
  where
    kept : (v : Text) → unwrap_or (non_empty (if is_empty v then none else some v)) [] ≡ v
    kept [] = refl
    kept (c ∷ t) = refl

-- What is read as the text of a setting, of any key and in any state, the setter takes again, and the
-- text of the setting stays the same.
pub set_str-get_str : (saved : Bool) (key : SettingKey) (api : SettingsApi) → Restored saved key api
unfolding get_str
set_str-get_str saved SettingKey.last_device api = last_device-Restored saved api
set_str-get_str saved SettingKey.voice_codec api =
    let k : VoiceCodecKind = codec_kind api.inner in
    stored-Restored saved SettingKey.voice_codec api
      (record api.inner { voice_codec = some (codec_id k) }) (set-codec_id saved k api)
      (ap codec_id (codec_kind-stored k api.inner))
set_str-get_str saved SettingKey.voice_opus_bandwidth api =
    let k : OpusBandwidthKind = bandwidth_kind api.inner in
    stored-Restored saved SettingKey.voice_opus_bandwidth api
      (record api.inner { voice_opus_bandwidth = some (bandwidth_id k) })
      (set-bandwidth_id saved k api) (ap bandwidth_id (bandwidth_kind-stored k api.inner))
set_str-get_str saved SettingKey.voice_fec_mode api =
    let k : VoiceFecMode = fec_kind api.inner in
    stored-Restored saved SettingKey.voice_fec_mode api
      (record api.inner { voice_fec_mode = some (fec_id k) }) (set-fec_id saved k api)
      (ap fec_id (fec_kind-stored k api.inner))
set_str-get_str saved SettingKey.voice_nack_mode api =
    let k : VoiceNackMode = nack_kind api.inner in
    stored-Restored saved SettingKey.voice_nack_mode api
      (record api.inner { voice_nack_mode = some (nack_id k) }) (set-nack_id saved k api)
      (ap nack_id (nack_kind-stored k api.inner))
set_str-get_str saved SettingKey.theme_mode api =
    let k : ThemeModeKind = theme_mode_kind api.inner in
    stored-Restored saved SettingKey.theme_mode api
      (record api.inner { theme_mode = some (theme_mode_id k) }) (set-theme_mode_id saved k api)
      (ap theme_mode_id (theme_mode_kind-stored k api.inner))
set_str-get_str saved SettingKey.theme_contrast api =
    let k : ThemeContrastKind = theme_contrast_kind api.inner in
    stored-Restored saved SettingKey.theme_contrast api
      (record api.inner { theme_contrast = some (theme_contrast_id k) })
      (set-theme_contrast_id saved k api)
      (ap theme_contrast_id (theme_contrast_kind-stored k api.inner))
set_str-get_str saved SettingKey.voice_max_duration_secs api =
    let n : ℕ = Values.voice_max_secs api.inner in
    let b = max_secs_value api.inner in
    stored-Restored saved SettingKey.voice_max_duration_secs api
      (record api.inner { max_voice_duration_secs = some n }) (set-max_secs saved n api b.0 b.1)
      (ap to_string (max_secs-stored n api.inner b.0 b.1))
set_str-get_str saved SettingKey.voice_reassembly_timeout_secs api =
    let n : ℕ = Values.reassembly_timeout_secs api.inner in
    let b = timeout_value api.inner in
    stored-Restored saved SettingKey.voice_reassembly_timeout_secs api
      (record api.inner { reassembly_timeout_secs = some n }) (set-timeout saved n api b.0 b.1)
      (ap to_string (timeout-stored n api.inner b.0 b.1))
set_str-get_str saved SettingKey.voice_codec2_mode api =
    let n : ℕ = Values.voice_codec2_mode api.inner in
    let b = codec2_mode_value api.inner in
    stored-Restored saved SettingKey.voice_codec2_mode api
      (record api.inner { voice_codec2_mode = some n }) (set-codec2_mode saved n api b.0 b.1)
      (ap to_string (codec2_mode-stored n api.inner b.0 b.1))
set_str-get_str saved SettingKey.voice_amrnb_mode api =
    let n : ℕ = Values.voice_amrnb_mode api.inner in
    let b = amrnb_mode_value api.inner in
    stored-Restored saved SettingKey.voice_amrnb_mode api
      (record api.inner { voice_amrnb_mode = some n }) (set-amrnb_mode saved n api b.0 b.1)
      (ap to_string (amrnb_mode-stored n api.inner b.0 b.1))
set_str-get_str saved SettingKey.voice_opus_bitrate_kbps api =
    let n : ℕ = Values.voice_opus_bitrate_kbps api.inner in
    let b = bitrate_value api.inner in
    stored-Restored saved SettingKey.voice_opus_bitrate_kbps api
      (record api.inner { voice_opus_bitrate_kbps = some n }) (set-bitrate saved n api b.0 b.1)
      (ap to_string (bitrate-stored n api.inner b.0 b.1))
set_str-get_str saved SettingKey.voice_denoise_enabled api =
    let b : Bool = Values.voice_denoise_enabled api.inner in
    stored-Restored saved SettingKey.voice_denoise_enabled api
      (record api.inner { voice_denoise_enabled = some b }) (set-bool_parsed_denoise saved b api)
      (unfold Values.voice_denoise_enabled in refl)
set_str-get_str saved SettingKey.voice_partial_play_on_timeout api =
    let b : Bool = Values.voice_partial_play_on_timeout api.inner in
    stored-Restored saved SettingKey.voice_partial_play_on_timeout api
      (record api.inner { voice_partial_play_on_timeout = some b })
      (set-bool_parsed_partial saved b api) (unfold Values.voice_partial_play_on_timeout in refl)
