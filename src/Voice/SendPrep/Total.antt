-- ===== src/Voice/SendPrep/Total.antt =====
-- crates/voicetastic-core/src/voice/send_prep.rs: preparing never runs into a limit of the builder
-- other than the length of the payload.
use voicetastic_core.Prelude.{
  ℕ, ◌+◌, ◌-◌, ◌*◌, ◌^◌, ◌≤◌, ◌<◌, max, ◌≡◌, refl, inr, Bool, Option, none, some, List, arith,
  length, All,
}
use voicetastic_core.Prelude.Bits.{IsByte, IsU32}
use voicetastic_core.Proto.Consts.{
  max_body_size, max_parity_per_message, max_total_shards, min_chunk_size,
}
use voicetastic_core.Proto.Types.{
  VoiceCodec, IsWireCodec, ModemPreset, short_turbo, short_fast, short_slow, medium_fast,
  medium_slow, long_fast, long_moderate, long_slow, very_long_slow, recommended_chunk_size,
}
use voicetastic_core.Proto.Error.{ok}
use voicetastic_core.Proto.Mac.{Sha256}
use voicetastic_core.Proto.ReedSolomon.{ReedSolomon, IsReedSolomon}
use voicetastic_core.Proto.Builder.{build_message, random_message_id, div_ceil}
use voicetastic_core.Proto.Builder.Sent.{IsConfig}
use voicetastic_core.Proto.Builder.Message.{Accepts, build_message-ok_iff}
use voicetastic_core.Voice.SendPrep.{
  VoiceFecMode, resolve, chunk_size_of, config_for, PreparedVoice, prepare_voice_send, enumerate,
}

-- The parity count of a mode is within the limits of the protocol, for every number of data shards.
pub resolve_bounds :
    (mode : VoiceFecMode) (broadcast : Bool) (preset : Option ModemPreset) (total : ℕ)
    → (resolve mode broadcast preset total ≤ total)
      × (resolve mode broadcast preset total ≤ max_parity_per_message)
      × (resolve mode broadcast preset total ≤ max_total_shards - total)
unfolding resolve
resolve_bounds mode broadcast preset total = (omega arith, omega arith, omega arith)

-- The chunk sizes of the presets.
sizes :
    (preset : Option ModemPreset)
    → (min_chunk_size ≤ chunk_size_of preset) × (chunk_size_of preset ≤ max_body_size)
unfolding recommended_chunk_size
sizes none = (omega arith, omega arith)
sizes (some short_turbo) = (omega arith, omega arith)
sizes (some short_fast) = (omega arith, omega arith)
sizes (some short_slow) = (omega arith, omega arith)
sizes (some medium_fast) = (omega arith, omega arith)
sizes (some medium_slow) = (omega arith, omega arith)
sizes (some long_fast) = (omega arith, omega arith)
sizes (some long_moderate) = (omega arith, omega arith)
sizes (some long_slow) = (omega arith, omega arith)
sizes (some very_long_slow) = (omega arith, omega arith)

-- What fits 255 chunks fits what is left of 256 shards by so many parity shards.
abbrev ShardsFit : ℕ → Type 0
ShardsFit cs =
    (len p : ℕ) → len ≤ 255 * cs → p ≤ 256 - max (div_ceil len cs) 1 → len ≤ (256 - p) * cs

shards_fit : (preset : Option ModemPreset) → ShardsFit (chunk_size_of preset)
unfolding recommended_chunk_size
shards_fit none len p h q = ground (arith, h, q)
shards_fit (some short_turbo) len p h q = ground (arith, h, q)
shards_fit (some short_fast) len p h q = ground (arith, h, q)
shards_fit (some short_slow) len p h q = ground (arith, h, q)
shards_fit (some medium_fast) len p h q = ground (arith, h, q)
shards_fit (some medium_slow) len p h q = ground (arith, h, q)
shards_fit (some long_fast) len p h q = ground (arith, h, q)
shards_fit (some long_moderate) len p h q = ground (arith, h, q)
shards_fit (some long_slow) len p h q = ground (arith, h, q)
shards_fit (some very_long_slow) len p h q = ground (arith, h, q)

module _ (sha : Sha256) (rs : ReedSolomon) (laws : IsReedSolomon rs) (payload : List ℕ)
    (codec : VoiceCodec) (codec_param : ℕ) (preset : Option ModemPreset) (broadcast : Bool)
    (mode : VoiceFecMode) where
  config_for-Accepts :
      (id : ℕ)
      → 0 < length payload
      → length payload ≤ 255 * chunk_size_of preset
      → Accepts payload (config_for payload codec codec_param preset broadcast mode id)
  unfolding config_for
  config_for-Accepts id h l =
      let total = max (div_ceil (length payload) (chunk_size_of preset)) 1 in
      let bounds = resolve_bounds mode broadcast preset total in
      record {
        chunk_lower = (sizes preset).0;
        chunk_upper = (sizes preset).1;
        some_audio = h;
        few_chunks = l;
        few_parity = bounds.1;
        few_shards = shards_fit preset (length payload) _ l bounds.2;
      }

  config_for-IsConfig :
      (id : ℕ)
      → 0 < id
      → IsU32 id
      → IsWireCodec codec
      → IsByte codec_param
      → IsConfig (config_for payload codec codec_param preset broadcast mode id)
  unfolding config_for
  config_for-IsConfig id h k c p = record {
    id_set = h;
    id_fits = k;
    codec_fits = c;
    param_fits = p;
    seq_fits = omega arith;
    parity_fits =
        let b =
          (resolve_bounds mode broadcast preset
            (max (div_ceil (length payload) (chunk_size_of preset)) 1)).1 in
        omega (arith, b);
  }

  -- A payload of bytes that is not empty and fits 255 chunks of the preset is always prepared,
  -- whatever the parity mode: with four random bytes, a codec and a parameter that a header can carry.
  pub prepare-ok :
      (a b c d : ℕ)
      → IsByte a
      → IsByte b
      → IsByte c
      → IsByte d
      → All IsByte payload
      → 0 < length payload
      → length payload ≤ 255 * chunk_size_of preset
      → IsWireCodec codec
      → IsByte codec_param
      → (p : PreparedVoice) × (prepare_voice_send sha rs
            (inr (a, b, c, d))
            payload
            codec
            codec_param
            preset
            broadcast
            mode
          ≡ ok p)
        × (build_message sha rs payload
              (config_for payload codec codec_param preset broadcast mode p.message_id)
            ≡ ok p.encoded)
  unfolding prepare_voice_send random_message_id
  prepare-ok a b c d ha hb hc hd bytes h l hcodec hp =
      let id = max (a * 2 ^ 24 + b * 2 ^ 16 + c * 2 ^ 8 + d) 1 in
      let (m, e) =
        (build_message-ok_iff sha rs laws payload
            (config_for payload codec codec_param preset broadcast mode id) bytes
            (config_for-IsConfig id (omega arith) (omega arith) hcodec hp)).0
          (config_for-Accepts id h l) in
      (
        record {
          message_id = id;
          total_data = m.total_data;
          parity_count = m.parity_count;
          chunk_size = chunk_size_of preset;
          frames = enumerate 0 m.frames;
          encoded = m;
        },
        rw (e) (unfold config_for in refl),
        e,
      )
