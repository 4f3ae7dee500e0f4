-- ===== src/Settings/Store.antt =====
-- crates/voicetastic-core/src/settings/api.rs: the store and its setters. The file operations are outcomes that the
-- caller of the model gives.
use voicetastic_core.Prelude.{
  ℕ, Bool, true, false, not, ◌&&◌, Option, none, some, List, [], ◌∷◌, ◌++◌, ltb, leb, if◌then◌else◌,
  is_empty,
}
use voicetastic_core.Voice.NackMode.{VoiceNackMode}
use voicetastic_core.Voice.SendPrep.{VoiceFecMode}
use voicetastic_core.Settings.Texts.{Text, to_string}
use voicetastic_core.Settings.Keys.{
  SettingKey, all_keys, VoiceCodecKind, codec_id, OpusBandwidthKind, bandwidth_id, fec_id, nack_id,
  ThemeModeKind, theme_mode_id, ThemeContrastKind, theme_contrast_id,
}
use voicetastic_core.Settings.Values.{AppSettings, default_settings}

-- The reason of a rejected value is left out: it is a message.
pub data SettingsError : Type 0 where
  invalid : SettingKey → Text → SettingsError
  io : SettingsError

-- `none` is `Ok(())`.
abbrev pub SettingsResult : Type 0
SettingsResult = Option SettingsError

-- `notified` is what the listeners were told, the latest first.
pub record SettingsApi : Type 0 where
  pub inner : AppSettings
  pub has_path : Bool
  pub degraded : Bool
  pub notified : List SettingKey

-- What reading the file gives: nothing there, a failure, no settings, or settings.
pub data FileRead : Type 0 where
  not_found unreadable malformed : FileRead
  settings : AppSettings → FileRead

unfoldable pub read_settings_at : FileRead → AppSettings × Bool
read_settings_at not_found = (default_settings, false)
read_settings_at unreadable = (default_settings, true)
read_settings_at malformed = (default_settings, true)
read_settings_at (settings s) = (s, false)

unfoldable pub open_at : Option FileRead → SettingsApi
unfolding read_settings_at
open_at none = record {
  inner = default_settings;
  has_path = false;
  degraded = false;
  notified = [];
}
open_at (some file) =
    let r = read_settings_at file in
    record { inner = r.0; has_path = true; degraded = r.1; notified = [] }

abbrev pub notify_all : List SettingKey → SettingsApi → SettingsApi
notify_all keys api = record api { notified = keys ++ api.notified }

-- With no path the defaults come back.
unfoldable pub reload : FileRead → SettingsApi → SettingsApi
unfolding read_settings_at
reload file api =
    let r = read_settings_at (if api.has_path then file else not_found) in
    notify_all all_keys (record api { inner = r.0; degraded = r.1 })

-- `persist`: with a path the file is written, or some step of that fails.
unfoldable pub persist : Bool → SettingsApi → SettingsApi × SettingsResult
persist saved api =
    if not api.has_path
    then (api, none)
    else if saved
    then (record api { degraded = false }, none)
    else (api, some io)

-- The listeners are told also where the file was not written.
unfoldable pub persist_and_notify : Bool → SettingKey → SettingsApi → SettingsApi × SettingsResult
unfolding persist
persist_and_notify saved key api =
    let r = persist saved api in (record r.0 { notified = key ∷ r.0.notified }, r.1)

-- A setter with a valid value.
abbrev pub store : Bool → SettingKey → AppSettings → SettingsApi → SettingsApi × SettingsResult
store saved key inner api = persist_and_notify saved key (record api { inner = inner })

abbrev pub reject : SettingKey → Text → SettingsApi → SettingsApi × SettingsResult
reject key value api = (api, some (invalid key value))

abbrev pub non_empty : Option Text → Option Text
non_empty none = none
non_empty (some t) = if is_empty t then none else some t

unfoldable pub set_last_device : Bool → Option Text → SettingsApi → SettingsApi × SettingsResult
unfolding persist_and_notify
set_last_device saved value api =
    store saved SettingKey.last_device (record api.inner { last_device = non_empty value }) api

unfoldable pub set_voice_max_secs : Bool → ℕ → SettingsApi → SettingsApi × SettingsResult
unfolding persist_and_notify to_string
set_voice_max_secs saved secs api =
    if leb 1 secs && leb secs 120
    then store saved SettingKey.voice_max_duration_secs
        (record api.inner { max_voice_duration_secs = some secs }) api
    else reject SettingKey.voice_max_duration_secs (to_string secs) api

unfoldable pub set_reassembly_timeout_secs : Bool → ℕ → SettingsApi → SettingsApi × SettingsResult
unfolding persist_and_notify to_string
set_reassembly_timeout_secs saved secs api =
    if leb 10 secs && leb secs 3600
    then store saved SettingKey.voice_reassembly_timeout_secs
        (record api.inner { reassembly_timeout_secs = some secs }) api
    else reject SettingKey.voice_reassembly_timeout_secs (to_string secs) api

unfoldable pub set_voice_codec : Bool → VoiceCodecKind → SettingsApi → SettingsApi × SettingsResult
unfolding persist_and_notify codec_id
set_voice_codec saved kind api =
    store saved SettingKey.voice_codec (record api.inner { voice_codec = some (codec_id kind) }) api

unfoldable pub set_voice_codec2_mode : Bool → ℕ → SettingsApi → SettingsApi × SettingsResult
unfolding persist_and_notify to_string
set_voice_codec2_mode saved mode api =
    if ltb 5 mode
    then reject SettingKey.voice_codec2_mode (to_string mode) api
    else store saved SettingKey.voice_codec2_mode
        (record api.inner { voice_codec2_mode = some mode }) api

unfoldable pub set_voice_amrnb_mode : Bool → ℕ → SettingsApi → SettingsApi × SettingsResult
unfolding persist_and_notify to_string
set_voice_amrnb_mode saved mode api =
    if ltb 7 mode
    then reject SettingKey.voice_amrnb_mode (to_string mode) api
    else store saved SettingKey.voice_amrnb_mode (record api.inner { voice_amrnb_mode = some mode })
        api

unfoldable pub set_voice_opus_bitrate_kbps : Bool → ℕ → SettingsApi → SettingsApi × SettingsResult
unfolding persist_and_notify to_string
set_voice_opus_bitrate_kbps saved kbps api =
    if leb 6 kbps && leb kbps 16
    then store saved SettingKey.voice_opus_bitrate_kbps
        (record api.inner { voice_opus_bitrate_kbps = some kbps }) api
    else reject SettingKey.voice_opus_bitrate_kbps (to_string kbps) api

unfoldable pub set_voice_opus_bandwidth :
    Bool → OpusBandwidthKind → SettingsApi → SettingsApi × SettingsResult
unfolding persist_and_notify bandwidth_id
set_voice_opus_bandwidth saved kind api =
    store saved SettingKey.voice_opus_bandwidth
      (record api.inner { voice_opus_bandwidth = some (bandwidth_id kind) }) api

unfoldable pub set_voice_fec_mode : Bool → VoiceFecMode → SettingsApi → SettingsApi × SettingsResult
unfolding persist_and_notify fec_id
set_voice_fec_mode saved kind api =
    store saved SettingKey.voice_fec_mode (record api.inner { voice_fec_mode = some (fec_id kind) })
      api

unfoldable pub set_voice_nack_mode :
    Bool → VoiceNackMode → SettingsApi → SettingsApi × SettingsResult
unfolding persist_and_notify nack_id
set_voice_nack_mode saved kind api =
    store saved SettingKey.voice_nack_mode
      (record api.inner { voice_nack_mode = some (nack_id kind) }) api

unfoldable pub set_theme_mode : Bool → ThemeModeKind → SettingsApi → SettingsApi × SettingsResult
unfolding persist_and_notify theme_mode_id
set_theme_mode saved kind api =
    store saved SettingKey.theme_mode (record api.inner { theme_mode = some (theme_mode_id kind) })
      api

unfoldable pub set_theme_contrast :
    Bool → ThemeContrastKind → SettingsApi → SettingsApi × SettingsResult
unfolding persist_and_notify theme_contrast_id
set_theme_contrast saved kind api =
    store saved SettingKey.theme_contrast
      (record api.inner { theme_contrast = some (theme_contrast_id kind) }) api

unfoldable pub set_voice_denoise_enabled : Bool → Bool → SettingsApi → SettingsApi × SettingsResult
unfolding persist_and_notify
set_voice_denoise_enabled saved enabled api =
    store saved SettingKey.voice_denoise_enabled
      (record api.inner { voice_denoise_enabled = some enabled }) api

unfoldable pub set_voice_partial_play_on_timeout :
    Bool → Bool → SettingsApi → SettingsApi × SettingsResult
unfolding persist_and_notify
set_voice_partial_play_on_timeout saved enabled api =
    store saved SettingKey.voice_partial_play_on_timeout
      (record api.inner { voice_partial_play_on_timeout = some enabled }) api

unfoldable pub cleared : SettingKey → AppSettings → AppSettings
cleared SettingKey.last_device s = record s { last_device = none }
cleared SettingKey.voice_max_duration_secs s = record s { max_voice_duration_secs = none }
cleared SettingKey.voice_reassembly_timeout_secs s = record s { reassembly_timeout_secs = none }
cleared SettingKey.voice_codec s = record s { voice_codec = none }
cleared SettingKey.voice_codec2_mode s = record s { voice_codec2_mode = none }
cleared SettingKey.voice_amrnb_mode s = record s { voice_amrnb_mode = none }
cleared SettingKey.voice_opus_bitrate_kbps s = record s { voice_opus_bitrate_kbps = none }
cleared SettingKey.voice_opus_bandwidth s = record s { voice_opus_bandwidth = none }
cleared SettingKey.voice_denoise_enabled s = record s { voice_denoise_enabled = none }
cleared SettingKey.voice_partial_play_on_timeout s = record s {
  voice_partial_play_on_timeout = none;
}
cleared SettingKey.voice_fec_mode s = record s { voice_fec_mode = none }
cleared SettingKey.voice_nack_mode s = record s { voice_nack_mode = none }
cleared SettingKey.theme_mode s = record s { theme_mode = none }
cleared SettingKey.theme_contrast s = record s { theme_contrast = none }

unfoldable pub reset : Bool → SettingKey → SettingsApi → SettingsApi × SettingsResult
unfolding persist_and_notify cleared
reset saved key api = store saved key (cleared key api.inner) api

unfoldable pub reset_all : Bool → SettingsApi → SettingsApi × SettingsResult
unfolding persist
reset_all saved api =
    let r = persist saved (record api { inner = default_settings }) in
    (notify_all all_keys r.0, r.1)
