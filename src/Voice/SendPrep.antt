-- ===== src/Voice/SendPrep.antt =====
-- crates/voicetastic-core/src/voice/send_prep.rs, and VoiceFecMode::resolve of
-- crates/voicetastic-core/src/settings/api.rs: from a payload to the frames of a burst.
pub mod Total
use Prim.Native.String.{String}
use voicetastic_core.Prelude.{
  ℕ, zero, suc, ◌+◌, ◌-◌, ◌*◌, ◌%◌, min, max, ◌⊎◌, Bool, true, false, Option, none, some, List, [],
  ◌∷◌, length,
}
use voicetastic_core.Proto.Consts.{max_body_size, max_parity_per_message, max_total_shards}
use voicetastic_core.Proto.Types.{
  VoiceCodec, ModemPreset, short_turbo, short_fast, short_slow, medium_fast, medium_slow, long_fast,
  long_moderate, long_slow, very_long_slow, recommended_chunk_size,
}
use voicetastic_core.Proto.Error.{Result, ok, err, ◌>>=◌}
use voicetastic_core.Proto.Mac.{Sha256}
use voicetastic_core.Proto.ReedSolomon.{ReedSolomon}
use voicetastic_core.Proto.Builder.{
  BuildConfig, EncodedMessage, build_message, random_message_id, div_ceil,
}

pub data VoiceFecMode : Type 0 where
  auto off light medium heavy : VoiceFecMode

unfoldable pub auto_percent : Option ModemPreset → ℕ
auto_percent none = 20
auto_percent (some short_turbo) = 0
auto_percent (some short_fast) = 0
auto_percent (some short_slow) = 0
auto_percent (some medium_fast) = 20
auto_percent (some medium_slow) = 20
auto_percent (some long_fast) = 33
auto_percent (some long_moderate) = 33
auto_percent (some long_slow) = 33
auto_percent (some very_long_slow) = 33

unfoldable pub percent : VoiceFecMode → Bool → Option ModemPreset → ℕ
percent off broadcast preset = 0
percent light broadcast preset = 10
percent medium broadcast preset = 25
percent heavy broadcast preset = 50
percent auto true preset = 50
percent auto false preset = auto_percent preset

unfoldable pub resolve : VoiceFecMode → Bool → Option ModemPreset → ℕ → ℕ
resolve mode broadcast preset total_data =
    let raw = div_ceil (total_data * percent mode broadcast preset) 100 in
    let cap =
      min (min (min total_data max_parity_per_message) (max_total_shards - total_data)) 255 in
    min raw cap

pub record PreparedVoice : Type 0 where
  pub message_id : ℕ
  pub total_data : ℕ
  pub parity_count : ℕ
  pub chunk_size : ℕ
  pub frames : List (ℕ × List ℕ)
  pub encoded : EncodedMessage

abbrev pub chunk_size_of : Option ModemPreset → ℕ
chunk_size_of none = max_body_size
chunk_size_of (some preset) = recommended_chunk_size preset

-- `enumerate`, with the index as a `u8`.
unfoldable pub enumerate : ℕ → List (List ℕ) → List (ℕ × List ℕ)
enumerate i [] = []
enumerate i (f ∷ fs) = (i % 256, f) ∷ enumerate (i + 1) fs

unfoldable pub config_for :
    List ℕ → VoiceCodec → ℕ → Option ModemPreset → Bool → VoiceFecMode → ℕ → BuildConfig
config_for payload codec codec_param preset broadcast fec_mode message_id = record {
  message_id = message_id;
  stream_seq = 0;
  codec = codec;
  codec_param = codec_param;
  chunk_size = chunk_size_of preset;
  parity_count =
      resolve fec_mode broadcast preset (max (div_ceil (length payload) (chunk_size_of preset)) 1);
  last_in_stream = true;
}

unfoldable pub prepare_voice_send :
    Sha256
    → ReedSolomon
    → String ⊎ (ℕ × ℕ × ℕ × ℕ)
    → List ℕ
    → VoiceCodec
    → ℕ
    → Option ModemPreset
    → Bool
    → VoiceFecMode
    → Result PreparedVoice
prepare_voice_send sha rs random payload codec codec_param preset broadcast fec_mode = do
  message_id ← random_message_id random
  let cfg = config_for payload codec codec_param preset broadcast fec_mode message_id
  encoded ← build_message sha rs payload cfg
  ok (record {
    message_id = message_id;
    total_data = encoded.total_data;
    parity_count = encoded.parity_count;
    chunk_size = cfg.chunk_size;
    frames = enumerate 0 encoded.frames;
    encoded = encoded;
  })
