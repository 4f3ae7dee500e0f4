-- ===== src/Settings/Keys.antt =====
-- crates/voicetastic-core/src/settings/api.rs and data.rs: the identifiers of settings and of values.
use voicetastic_core.Prelude.{Option, List, [], ◌∷◌}
use voicetastic_core.Prelude.Assoc.{lookup}
use voicetastic_core.Voice.NackMode.{VoiceNackMode}
use voicetastic_core.Voice.SendPrep.{VoiceFecMode}
use voicetastic_core.Settings.Texts.{Text, codes, same_text}

pub data SettingKey : Type 0 where
  last_device voice_max_duration_secs voice_reassembly_timeout_secs voice_codec : SettingKey
  voice_codec2_mode voice_amrnb_mode voice_opus_bitrate_kbps voice_opus_bandwidth : SettingKey
  voice_denoise_enabled voice_partial_play_on_timeout voice_fec_mode voice_nack_mode : SettingKey
  theme_mode theme_contrast : SettingKey

unfoldable pub key_id : SettingKey → Text
key_id last_device = codes "last_device"
key_id voice_max_duration_secs = codes "voice.max_duration_secs"
key_id voice_reassembly_timeout_secs = codes "voice.reassembly_timeout_secs"
key_id voice_codec = codes "voice.codec"
key_id voice_codec2_mode = codes "voice.codec2_mode"
key_id voice_amrnb_mode = codes "voice.amrnb_mode"
key_id voice_opus_bitrate_kbps = codes "voice.opus_bitrate_kbps"
key_id voice_opus_bandwidth = codes "voice.opus_bandwidth"
key_id voice_denoise_enabled = codes "voice.denoise_enabled"
key_id voice_partial_play_on_timeout = codes "voice.partial_play_on_timeout"
key_id voice_fec_mode = codes "voice.fec_mode"
key_id voice_nack_mode = codes "voice.nack_mode"
key_id theme_mode = codes "theme.mode"
key_id theme_contrast = codes "theme.contrast"

-- `match s { .. }` on literals: the first that is the text.
unfoldable pub key_from_id : Text → Option SettingKey
unfolding lookup same_text
key_from_id s = lookup same_text s (
    (codes "last_device", last_device)
    ∷ (codes "voice.max_duration_secs", voice_max_duration_secs)
    ∷ (codes "voice.reassembly_timeout_secs", voice_reassembly_timeout_secs)
    ∷ (codes "voice.codec", voice_codec)
    ∷ (codes "voice.codec2_mode", voice_codec2_mode)
    ∷ (codes "voice.amrnb_mode", voice_amrnb_mode)
    ∷ (codes "voice.opus_bitrate_kbps", voice_opus_bitrate_kbps)
    ∷ (codes "voice.opus_bandwidth", voice_opus_bandwidth)
    ∷ (codes "voice.denoise_enabled", voice_denoise_enabled)
    ∷ (codes "voice.partial_play_on_timeout", voice_partial_play_on_timeout)
    ∷ (codes "voice.fec_mode", voice_fec_mode)
    ∷ (codes "voice.nack_mode", voice_nack_mode)
    ∷ (codes "theme.mode", theme_mode)
    ∷ (codes "theme.contrast", theme_contrast)
    ∷ [])

abbrev pub all_keys : List SettingKey
all_keys =
    last_device ∷ voice_max_duration_secs ∷ voice_reassembly_timeout_secs ∷ voice_codec
    ∷ voice_codec2_mode ∷ voice_amrnb_mode ∷ voice_opus_bitrate_kbps ∷ voice_opus_bandwidth
    ∷ voice_denoise_enabled ∷ voice_partial_play_on_timeout ∷ voice_fec_mode ∷ voice_nack_mode
    ∷ theme_mode ∷ theme_contrast ∷ []

pub data VoiceCodecKind : Type 0 where
  opus codec2 amr_nb : VoiceCodecKind

unfoldable pub codec_id : VoiceCodecKind → Text
codec_id opus = codes "opus"
codec_id codec2 = codes "codec2"
codec_id amr_nb = codes "amrnb"

unfoldable pub codec_from_id : Text → Option VoiceCodecKind
unfolding lookup same_text
codec_from_id s =
    lookup same_text s
      ((codes "opus", opus) ∷ (codes "codec2", codec2) ∷ (codes "amrnb", amr_nb) ∷ [])

pub data OpusBandwidthKind : Type 0 where
  narrow wide : OpusBandwidthKind

unfoldable pub bandwidth_id : OpusBandwidthKind → Text
bandwidth_id narrow = codes "narrow"
bandwidth_id wide = codes "wide"

unfoldable pub bandwidth_from_id : Text → Option OpusBandwidthKind
unfolding lookup same_text
bandwidth_from_id s = lookup same_text s ((codes "narrow", narrow) ∷ (codes "wide", wide) ∷ [])

unfoldable pub fec_id : VoiceFecMode → Text
fec_id VoiceFecMode.auto = codes "auto"
fec_id VoiceFecMode.off = codes "off"
fec_id VoiceFecMode.light = codes "light"
fec_id VoiceFecMode.medium = codes "medium"
fec_id VoiceFecMode.heavy = codes "heavy"

unfoldable pub fec_from_id : Text → Option VoiceFecMode
unfolding lookup same_text
fec_from_id s = lookup same_text s (
    (codes "auto", VoiceFecMode.auto)
    ∷ (codes "off", VoiceFecMode.off)
    ∷ (codes "light", VoiceFecMode.light)
    ∷ (codes "medium", VoiceFecMode.medium)
    ∷ (codes "heavy", VoiceFecMode.heavy)
    ∷ [])

unfoldable pub nack_id : VoiceNackMode → Text
nack_id VoiceNackMode.auto = codes "auto"
nack_id VoiceNackMode.off = codes "off"
nack_id VoiceNackMode.conservative = codes "conservative"
nack_id VoiceNackMode.aggressive = codes "aggressive"

unfoldable pub nack_from_id : Text → Option VoiceNackMode
unfolding lookup same_text
nack_from_id s = lookup same_text s (
    (codes "auto", VoiceNackMode.auto)
    ∷ (codes "off", VoiceNackMode.off)
    ∷ (codes "conservative", VoiceNackMode.conservative)
    ∷ (codes "aggressive", VoiceNackMode.aggressive)
    ∷ [])

pub data ThemeModeKind : Type 0 where
  system light dark : ThemeModeKind

unfoldable pub theme_mode_id : ThemeModeKind → Text
theme_mode_id system = codes "system"
theme_mode_id light = codes "light"
theme_mode_id dark = codes "dark"

unfoldable pub theme_mode_from_id : Text → Option ThemeModeKind
unfolding lookup same_text
theme_mode_from_id s =
    lookup same_text s
      ((codes "system", system) ∷ (codes "light", light) ∷ (codes "dark", dark) ∷ [])

pub data ThemeContrastKind : Type 0 where
  standard high : ThemeContrastKind

unfoldable pub theme_contrast_id : ThemeContrastKind → Text
theme_contrast_id standard = codes "standard"
theme_contrast_id high = codes "high"

unfoldable pub theme_contrast_from_id : Text → Option ThemeContrastKind
unfolding lookup same_text
theme_contrast_from_id s =
    lookup same_text s ((codes "standard", standard) ∷ (codes "high", high) ∷ [])
