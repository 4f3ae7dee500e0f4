-- ===== src/Settings/Generic.antt =====
-- crates/voicetastic-core/src/settings/api.rs: the typed getters, and every setting as a text.
use voicetastic_core.Prelude.{
  ℕ, Bool, true, false, Option, none, some, List, [], ◌∷◌, ltb, if◌then◌else◌, is_empty, map,
}
use voicetastic_core.Prelude.Assoc.{lookup}
use voicetastic_core.Proto.Types.{VoiceCodec}
use voicetastic_core.Voice.NackMode.{VoiceNackMode}
use voicetastic_core.Voice.SendPrep.{VoiceFecMode}
use voicetastic_core.Settings.Texts.{
  Text, codes, same_text, to_string, trim, parse_number, to_ascii_lowercase,
}
use voicetastic_core.Settings.Keys.{
  SettingKey, all_keys, VoiceCodecKind, codec_id, codec_from_id, OpusBandwidthKind, bandwidth_id,
  bandwidth_from_id, fec_id, fec_from_id, nack_id, nack_from_id, ThemeModeKind, theme_mode_id,
  theme_mode_from_id, ThemeContrastKind, theme_contrast_id, theme_contrast_from_id,
}
use voicetastic_core.Settings.Values
use voicetastic_core.Settings.Values.{AppSettings, unwrap_or}
use voicetastic_core.Settings.Store.{
  SettingsApi, SettingsResult, reject, set_last_device, set_voice_max_secs,
  set_reassembly_timeout_secs, set_voice_codec, set_voice_codec2_mode, set_voice_amrnb_mode,
  set_voice_opus_bitrate_kbps, set_voice_opus_bandwidth, set_voice_denoise_enabled,
  set_voice_partial_play_on_timeout, set_voice_fec_mode, set_voice_nack_mode, set_theme_mode,
  set_theme_contrast,
}

-- The typed getters of the enumerations, with the default of each.
unfoldable pub codec_kind : AppSettings → VoiceCodecKind
unfolding codec_from_id Values.voice_codec
codec_kind s = unwrap_or (codec_from_id (Values.voice_codec s)) VoiceCodecKind.amr_nb

unfoldable pub bandwidth_kind : AppSettings → OpusBandwidthKind
unfolding bandwidth_from_id Values.voice_opus_bandwidth
bandwidth_kind s =
    unwrap_or (bandwidth_from_id (Values.voice_opus_bandwidth s)) OpusBandwidthKind.wide

unfoldable pub fec_kind : AppSettings → VoiceFecMode
unfolding fec_from_id Values.voice_fec_mode
fec_kind s = unwrap_or (fec_from_id (Values.voice_fec_mode s)) VoiceFecMode.auto

unfoldable pub nack_kind : AppSettings → VoiceNackMode
unfolding nack_from_id Values.voice_nack_mode
nack_kind s = unwrap_or (nack_from_id (Values.voice_nack_mode s)) VoiceNackMode.auto

unfoldable pub theme_mode_kind : AppSettings → ThemeModeKind
unfolding theme_mode_from_id Values.theme_mode
theme_mode_kind s = unwrap_or (theme_mode_from_id (Values.theme_mode s)) ThemeModeKind.dark

unfoldable pub theme_contrast_kind : AppSettings → ThemeContrastKind
unfolding theme_contrast_from_id Values.theme_contrast
theme_contrast_kind s =
    unwrap_or (theme_contrast_from_id (Values.theme_contrast s)) ThemeContrastKind.standard

pub record VoiceCodecParam : Type 0 where
  pub codec : VoiceCodec
  pub param : ℕ

abbrev pub param_of : VoiceCodecKind → AppSettings → VoiceCodecParam
unfolding Values.voice_opus_bitrate_kbps Values.voice_codec2_mode Values.voice_amrnb_mode
param_of VoiceCodecKind.opus s = record {
  codec = VoiceCodec.opus;
  param = Values.voice_opus_bitrate_kbps s;
}
param_of VoiceCodecKind.codec2 s = record {
  codec = VoiceCodec.codec2;
  param = Values.voice_codec2_mode s;
}
param_of VoiceCodecKind.amr_nb s = record {
  codec = VoiceCodec.amr_nb;
  param = Values.voice_amrnb_mode s;
}

unfoldable pub voice_codec_for_protocol : AppSettings → VoiceCodecParam
unfolding codec_kind Values.voice_opus_bitrate_kbps Values.voice_codec2_mode Values.voice_amrnb_mode
voice_codec_for_protocol s = param_of (codec_kind s) s

-- `bool::to_string`
abbrev pub bool_text : Bool → Text
bool_text true = codes "true"
bool_text false = codes "false"

unfoldable pub get_str : SettingKey → AppSettings → Text
unfolding to_string codec_kind codec_id bandwidth_kind bandwidth_id fec_kind fec_id nack_kind
    nack_id theme_mode_kind theme_mode_id theme_contrast_kind theme_contrast_id
    Values.voice_max_secs Values.reassembly_timeout_secs Values.voice_codec2_mode
    Values.voice_amrnb_mode Values.voice_opus_bitrate_kbps Values.voice_denoise_enabled
    Values.voice_partial_play_on_timeout
get_str SettingKey.last_device s = unwrap_or s.last_device []
get_str SettingKey.voice_max_duration_secs s = to_string (Values.voice_max_secs s)
get_str SettingKey.voice_reassembly_timeout_secs s = to_string (Values.reassembly_timeout_secs s)
get_str SettingKey.voice_codec s = codec_id (codec_kind s)
get_str SettingKey.voice_codec2_mode s = to_string (Values.voice_codec2_mode s)
get_str SettingKey.voice_amrnb_mode s = to_string (Values.voice_amrnb_mode s)
get_str SettingKey.voice_opus_bitrate_kbps s = to_string (Values.voice_opus_bitrate_kbps s)
get_str SettingKey.voice_opus_bandwidth s = bandwidth_id (bandwidth_kind s)
get_str SettingKey.voice_denoise_enabled s = bool_text (Values.voice_denoise_enabled s)
get_str SettingKey.voice_partial_play_on_timeout s =
    bool_text (Values.voice_partial_play_on_timeout s)
get_str SettingKey.voice_fec_mode s = fec_id (fec_kind s)
get_str SettingKey.voice_nack_mode s = nack_id (nack_kind s)
get_str SettingKey.theme_mode s = theme_mode_id (theme_mode_kind s)
get_str SettingKey.theme_contrast s = theme_contrast_id (theme_contrast_kind s)

unfoldable pub parse_u32 : Text → Option ℕ
unfolding trim parse_number
parse_u32 value = parse_number (trim value)

unfoldable pub bool_of : Text → Option Bool
unfolding lookup same_text
bool_of t = lookup same_text t (
    (codes "true", true)
    ∷ (codes "1", true)
    ∷ (codes "yes", true)
    ∷ (codes "on", true)
    ∷ (codes "false", false)
    ∷ (codes "0", false)
    ∷ (codes "no", false)
    ∷ (codes "off", false)
    ∷ [])

unfoldable pub parse_bool : Text → Option Bool
unfolding trim to_ascii_lowercase bool_of
parse_bool value = bool_of (to_ascii_lowercase (trim value))

-- A parsed value goes to the setter; one that does not parse is rejected as it came.
abbrev pub set_parsed {ℓ} :
    {A : Type ℓ}
    → Option A
    → (A → SettingsApi → SettingsApi × SettingsResult)
    → SettingKey
    → Text
    → SettingsApi
    → SettingsApi × SettingsResult
set_parsed none set key value api = reject key value api
set_parsed (some a) set key value api = set a api

-- A number that is no `u8` is rejected before the setter sees it.
abbrev pub set_byte :
    (ℕ → SettingsApi → SettingsApi × SettingsResult)
    → SettingKey
    → Text
    → ℕ
    → SettingsApi
    → SettingsApi × SettingsResult
set_byte set key value n api = if ltb 255 n then reject key value api else set n api

unfoldable pub set_str : Bool → SettingKey → Text → SettingsApi → SettingsApi × SettingsResult
unfolding parse_u32 parse_bool codec_from_id bandwidth_from_id fec_from_id nack_from_id
    theme_mode_from_id theme_contrast_from_id set_last_device set_voice_max_secs
    set_reassembly_timeout_secs set_voice_codec set_voice_codec2_mode set_voice_amrnb_mode
    set_voice_opus_bitrate_kbps set_voice_opus_bandwidth set_voice_denoise_enabled
    set_voice_partial_play_on_timeout set_voice_fec_mode set_voice_nack_mode set_theme_mode
    set_theme_contrast
set_str saved SettingKey.last_device value api =
    set_last_device saved (if is_empty value then none else some value) api
set_str saved SettingKey.voice_max_duration_secs value api =
    set_parsed (parse_u32 value) (set_voice_max_secs saved) SettingKey.voice_max_duration_secs value
      api
set_str saved SettingKey.voice_reassembly_timeout_secs value api =
    set_parsed (parse_u32 value) (set_reassembly_timeout_secs saved)
      SettingKey.voice_reassembly_timeout_secs value api
set_str saved SettingKey.voice_codec value api =
    set_parsed (codec_from_id value) (set_voice_codec saved) SettingKey.voice_codec value api
set_str saved SettingKey.voice_codec2_mode value api =
    set_parsed (parse_u32 value)
      (set_byte (set_voice_codec2_mode saved) SettingKey.voice_codec2_mode value)
      SettingKey.voice_codec2_mode value api
set_str saved SettingKey.voice_amrnb_mode value api =
    set_parsed (parse_u32 value)
      (set_byte (set_voice_amrnb_mode saved) SettingKey.voice_amrnb_mode value)
      SettingKey.voice_amrnb_mode value api
set_str saved SettingKey.voice_opus_bitrate_kbps value api =
    set_parsed (parse_u32 value)
      (set_byte (set_voice_opus_bitrate_kbps saved) SettingKey.voice_opus_bitrate_kbps value)
      SettingKey.voice_opus_bitrate_kbps value api
set_str saved SettingKey.voice_opus_bandwidth value api =
    set_parsed (bandwidth_from_id value) (set_voice_opus_bandwidth saved)
      SettingKey.voice_opus_bandwidth value api
set_str saved SettingKey.voice_denoise_enabled value api =
    set_parsed (parse_bool value) (set_voice_denoise_enabled saved) SettingKey.voice_denoise_enabled
      value api
set_str saved SettingKey.voice_partial_play_on_timeout value api =
    set_parsed (parse_bool value) (set_voice_partial_play_on_timeout saved)
      SettingKey.voice_partial_play_on_timeout value api
set_str saved SettingKey.voice_fec_mode value api =
    set_parsed (fec_from_id value) (set_voice_fec_mode saved) SettingKey.voice_fec_mode value api
set_str saved SettingKey.voice_nack_mode value api =
    set_parsed (nack_from_id value) (set_voice_nack_mode saved) SettingKey.voice_nack_mode value api
set_str saved SettingKey.theme_mode value api =
    set_parsed (theme_mode_from_id value) (set_theme_mode saved) SettingKey.theme_mode value api
set_str saved SettingKey.theme_contrast value api =
    set_parsed (theme_contrast_from_id value) (set_theme_contrast saved) SettingKey.theme_contrast
      value api

pub data SettingKind : Type 0 where
  optional_string : SettingKind
  int_range : ℕ → ℕ → SettingKind
  enum : List Text → SettingKind
  boolean : SettingKind

-- The kind of a setting, and its default, as `describe` tells them.
unfoldable pub kind_of : SettingKey → SettingKind
kind_of SettingKey.last_device = optional_string
kind_of SettingKey.voice_max_duration_secs = int_range 1 120
kind_of SettingKey.voice_reassembly_timeout_secs = int_range 10 3600
kind_of SettingKey.voice_codec = enum (codes "amrnb" ∷ codes "codec2" ∷ codes "opus" ∷ [])
kind_of SettingKey.voice_codec2_mode = int_range 0 5
kind_of SettingKey.voice_amrnb_mode = int_range 0 7
kind_of SettingKey.voice_opus_bitrate_kbps = int_range 6 16
kind_of SettingKey.voice_opus_bandwidth = enum (codes "narrow" ∷ codes "wide" ∷ [])
kind_of SettingKey.voice_denoise_enabled = boolean
kind_of SettingKey.voice_partial_play_on_timeout = boolean
kind_of SettingKey.voice_fec_mode =
    enum (codes "auto" ∷ codes "off" ∷ codes "light" ∷ codes "medium" ∷ codes "heavy" ∷ [])
kind_of SettingKey.voice_nack_mode =
    enum (codes "auto" ∷ codes "off" ∷ codes "conservative" ∷ codes "aggressive" ∷ [])
kind_of SettingKey.theme_mode = enum (codes "system" ∷ codes "light" ∷ codes "dark" ∷ [])
kind_of SettingKey.theme_contrast = enum (codes "standard" ∷ codes "high" ∷ [])

unfoldable pub default_text : SettingKey → Text
unfolding to_string
default_text SettingKey.last_device = []
default_text SettingKey.voice_max_duration_secs = to_string 30
default_text SettingKey.voice_reassembly_timeout_secs = to_string 1200
default_text SettingKey.voice_codec = codes "amrnb"
default_text SettingKey.voice_codec2_mode = to_string 5
default_text SettingKey.voice_amrnb_mode = to_string 7
default_text SettingKey.voice_opus_bitrate_kbps = to_string 12
default_text SettingKey.voice_opus_bandwidth = codes "wide"
default_text SettingKey.voice_denoise_enabled = codes "false"
default_text SettingKey.voice_partial_play_on_timeout = codes "true"
default_text SettingKey.voice_fec_mode = codes "auto"
default_text SettingKey.voice_nack_mode = codes "auto"
default_text SettingKey.theme_mode = codes "dark"
default_text SettingKey.theme_contrast = codes "standard"

-- A descriptor without its two texts for people.
pub record SettingDescriptor : Type 0 where
  pub key : SettingKey
  pub kind : SettingKind
  pub value : Text
  pub default : Text

unfoldable pub describe : AppSettings → SettingKey → SettingDescriptor
unfolding kind_of get_str default_text
describe s key = record {
  key = key;
  kind = kind_of key;
  value = get_str key s;
  default = default_text key;
}

unfoldable pub list : AppSettings → List SettingDescriptor
unfolding describe
list s = map (describe s) all_keys
