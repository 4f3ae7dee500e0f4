-- ===== src/Settings/RoundTrip/Ids.antt =====
-- The identifier of a choice, and the text of a toggle, set as a text.
use voicetastic_core.Prelude.{◌≡◌, refl, Bool, true, false, some}
use voicetastic_core.Voice.NackMode.{VoiceNackMode}
use voicetastic_core.Voice.SendPrep.{VoiceFecMode}
use voicetastic_core.Settings.Keys.{
  SettingKey, VoiceCodecKind, codec_id, OpusBandwidthKind, bandwidth_id, fec_id, nack_id,
  ThemeModeKind, theme_mode_id, ThemeContrastKind, theme_contrast_id, key_id, key_from_id,
}
use voicetastic_core.Settings.Values.{AppSettings}
use voicetastic_core.Settings.Store.{SettingsApi, store}
use voicetastic_core.Settings.Generic.{
  codec_kind, bandwidth_kind, fec_kind, nack_kind, theme_mode_kind, theme_contrast_kind, bool_text,
  set_str,
}

pub codec_kind-stored :
    (k : VoiceCodecKind) (s : AppSettings)
    → codec_kind (record s { voice_codec = some (codec_id k) }) ≡ k
unfolding codec_kind codec_id
codec_kind-stored VoiceCodecKind.opus s = refl
codec_kind-stored VoiceCodecKind.codec2 s = refl
codec_kind-stored VoiceCodecKind.amr_nb s = refl

pub bandwidth_kind-stored :
    (k : OpusBandwidthKind) (s : AppSettings)
    → bandwidth_kind (record s { voice_opus_bandwidth = some (bandwidth_id k) }) ≡ k
unfolding bandwidth_kind bandwidth_id
bandwidth_kind-stored OpusBandwidthKind.narrow s = refl
bandwidth_kind-stored OpusBandwidthKind.wide s = refl

pub fec_kind-stored :
    (k : VoiceFecMode) (s : AppSettings)
    → fec_kind (record s { voice_fec_mode = some (fec_id k) }) ≡ k
unfolding fec_kind fec_id
fec_kind-stored VoiceFecMode.auto s = refl
fec_kind-stored VoiceFecMode.off s = refl
fec_kind-stored VoiceFecMode.light s = refl
fec_kind-stored VoiceFecMode.medium s = refl
fec_kind-stored VoiceFecMode.heavy s = refl

pub nack_kind-stored :
    (k : VoiceNackMode) (s : AppSettings)
    → nack_kind (record s { voice_nack_mode = some (nack_id k) }) ≡ k
unfolding nack_kind nack_id
nack_kind-stored VoiceNackMode.auto s = refl
nack_kind-stored VoiceNackMode.off s = refl
nack_kind-stored VoiceNackMode.conservative s = refl
nack_kind-stored VoiceNackMode.aggressive s = refl

pub theme_mode_kind-stored :
    (k : ThemeModeKind) (s : AppSettings)
    → theme_mode_kind (record s { theme_mode = some (theme_mode_id k) }) ≡ k
unfolding theme_mode_kind theme_mode_id
theme_mode_kind-stored ThemeModeKind.system s = refl
theme_mode_kind-stored ThemeModeKind.light s = refl
theme_mode_kind-stored ThemeModeKind.dark s = refl

pub theme_contrast_kind-stored :
    (k : ThemeContrastKind) (s : AppSettings)
    → theme_contrast_kind (record s { theme_contrast = some (theme_contrast_id k) }) ≡ k
unfolding theme_contrast_kind theme_contrast_id
theme_contrast_kind-stored ThemeContrastKind.standard s = refl
theme_contrast_kind-stored ThemeContrastKind.high s = refl

pub set-codec_id :
    (saved : Bool) (k : VoiceCodecKind) (api : SettingsApi)
    → set_str saved SettingKey.voice_codec (codec_id k) api
      ≡ store saved SettingKey.voice_codec
          (record api.inner { voice_codec = some (codec_id k) })
          api
unfolding set_str codec_id
set-codec_id saved VoiceCodecKind.opus api = refl
set-codec_id saved VoiceCodecKind.codec2 api = refl
set-codec_id saved VoiceCodecKind.amr_nb api = refl

pub set-bandwidth_id :
    (saved : Bool) (k : OpusBandwidthKind) (api : SettingsApi)
    → set_str saved SettingKey.voice_opus_bandwidth (bandwidth_id k) api
      ≡ store saved SettingKey.voice_opus_bandwidth
          (record api.inner { voice_opus_bandwidth = some (bandwidth_id k) })
          api
unfolding set_str bandwidth_id
set-bandwidth_id saved OpusBandwidthKind.narrow api = refl
set-bandwidth_id saved OpusBandwidthKind.wide api = refl

pub set-fec_id :
    (saved : Bool) (k : VoiceFecMode) (api : SettingsApi)
    → set_str saved SettingKey.voice_fec_mode (fec_id k) api
      ≡ store saved SettingKey.voice_fec_mode
          (record api.inner { voice_fec_mode = some (fec_id k) })
          api
unfolding set_str fec_id
set-fec_id saved VoiceFecMode.auto api = refl
set-fec_id saved VoiceFecMode.off api = refl
set-fec_id saved VoiceFecMode.light api = refl
set-fec_id saved VoiceFecMode.medium api = refl
set-fec_id saved VoiceFecMode.heavy api = refl

pub set-nack_id :
    (saved : Bool) (k : VoiceNackMode) (api : SettingsApi)
    → set_str saved SettingKey.voice_nack_mode (nack_id k) api
      ≡ store saved SettingKey.voice_nack_mode
          (record api.inner { voice_nack_mode = some (nack_id k) })
          api
unfolding set_str nack_id
set-nack_id saved VoiceNackMode.auto api = refl
set-nack_id saved VoiceNackMode.off api = refl
set-nack_id saved VoiceNackMode.conservative api = refl
set-nack_id saved VoiceNackMode.aggressive api = refl

pub set-theme_mode_id :
    (saved : Bool) (k : ThemeModeKind) (api : SettingsApi)
    → set_str saved SettingKey.theme_mode (theme_mode_id k) api
      ≡ store saved SettingKey.theme_mode
          (record api.inner { theme_mode = some (theme_mode_id k) })
          api
unfolding set_str theme_mode_id
set-theme_mode_id saved ThemeModeKind.system api = refl
set-theme_mode_id saved ThemeModeKind.light api = refl
set-theme_mode_id saved ThemeModeKind.dark api = refl

pub set-theme_contrast_id :
    (saved : Bool) (k : ThemeContrastKind) (api : SettingsApi)
    → set_str saved SettingKey.theme_contrast (theme_contrast_id k) api
      ≡ store saved SettingKey.theme_contrast
          (record api.inner { theme_contrast = some (theme_contrast_id k) })
          api
unfolding set_str theme_contrast_id
set-theme_contrast_id saved ThemeContrastKind.standard api = refl
set-theme_contrast_id saved ThemeContrastKind.high api = refl

pub set-bool_parsed_denoise :
    (saved b : Bool) (api : SettingsApi)
    → set_str saved SettingKey.voice_denoise_enabled (bool_text b) api
      ≡ store saved SettingKey.voice_denoise_enabled
          (record api.inner { voice_denoise_enabled = some b })
          api
unfolding set_str
set-bool_parsed_denoise saved true api = refl
set-bool_parsed_denoise saved false api = refl

pub set-bool_parsed_partial :
    (saved b : Bool) (api : SettingsApi)
    → set_str saved SettingKey.voice_partial_play_on_timeout (bool_text b) api
      ≡ store saved SettingKey.voice_partial_play_on_timeout
          (record api.inner { voice_partial_play_on_timeout = some b })
          api
unfolding set_str
set-bool_parsed_partial saved true api = refl
set-bool_parsed_partial saved false api = refl

-- Every key is found by its identifier.
key_from_id-key_id : (k : SettingKey) → key_from_id (key_id k) ≡ some k
unfolding key_from_id key_id
key_from_id-key_id SettingKey.last_device = refl
key_from_id-key_id SettingKey.voice_max_duration_secs = refl
key_from_id-key_id SettingKey.voice_reassembly_timeout_secs = refl
key_from_id-key_id SettingKey.voice_codec = refl
key_from_id-key_id SettingKey.voice_codec2_mode = refl
key_from_id-key_id SettingKey.voice_amrnb_mode = refl
key_from_id-key_id SettingKey.voice_opus_bitrate_kbps = refl
key_from_id-key_id SettingKey.voice_opus_bandwidth = refl
key_from_id-key_id SettingKey.voice_denoise_enabled = refl
key_from_id-key_id SettingKey.voice_partial_play_on_timeout = refl
key_from_id-key_id SettingKey.voice_fec_mode = refl
key_from_id-key_id SettingKey.voice_nack_mode = refl
key_from_id-key_id SettingKey.theme_mode = refl
key_from_id-key_id SettingKey.theme_contrast = refl
