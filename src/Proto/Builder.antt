-- ===== src/Proto/Builder.antt =====
-- crates/voicetastic-proto/src/builder.rs: an audio buffer as a list of frames.
pub mod Chunks
pub mod Sent
pub mod Message
use Prim.Native.String.{String}
use voicetastic_core.Prelude.{
  ℕ, zero, suc, ◌+◌, ◌-◌, ◌*◌, ◌/◌, ◌%◌, ◌≡◌, ◌⊎◌, inl, inr, Bool, true, false, not, ◌&&◌, Option,
  none, some, List, [], ◌∷◌, ◌++◌, map, ltb, leb, ◌==◌, if◌then◌else◌, length, is_empty, take, drop,
  replicate, max,
}
use voicetastic_core.Proto.Consts.{
  header_size, max_body_size, max_chunks_per_message, max_packet_size, max_parity_per_message,
  max_total_shards, min_chunk_size,
}
use voicetastic_core.Proto.Types.{PacketType, data_packet, parity_packet, VoiceCodec}
use voicetastic_core.Proto.Error.{
  VoiceError, too_short, chunk_too_small, chunk_too_large, audio_too_large, too_much_parity,
  too_many_shards, fec, rng, Result, ok, err, ◌>>=◌, ◌>>◌, guard,
}
use voicetastic_core.Proto.Mac.{Sha256}
use voicetastic_core.Proto.Header.{ChunkHeader, serialize, from_be_bytes}
use voicetastic_core.Proto.ReedSolomon.{ReedSolomon}

pub record BuildConfig : Type 0 where
  pub message_id : ℕ
  pub stream_seq : ℕ
  pub codec : VoiceCodec
  pub codec_param : ℕ
  pub chunk_size : ℕ
  pub parity_count : ℕ
  pub last_in_stream : Bool

pub record EncodedMessage : Type 0 where
  pub frames : List (List ℕ)
  pub total_data : ℕ
  pub parity_count : ℕ

-- `getrandom::fill` is a parameter: the four bytes, or the text of an error.
unfoldable pub random_message_id : String ⊎ (ℕ × ℕ × ℕ × ℕ) → Result ℕ
random_message_id (inl e) = err (rng e)
random_message_id (inr (a, b, c, d)) = ok (max (from_be_bytes a b c d) 1)

-- `usize::div_ceil`; its callers have checked that `b` is not 0.
abbrev pub div_ceil : ℕ → ℕ → ℕ
div_ceil a b = if a % b == 0 then a / b else a / b + 1

-- `slice::chunks`: a round takes a byte at least, so the length is enough fuel.
unfoldable pub chunks_loop : ℕ → ℕ → List ℕ → List (List ℕ)
chunks_loop zero n xs = []
chunks_loop (suc fuel) n [] = []
chunks_loop (suc fuel) n (x ∷ xs) = take n (x ∷ xs) ∷ chunks_loop fuel n (drop n (x ∷ xs))

unfoldable pub chunks : ℕ → List ℕ → List (List ℕ)
chunks n xs = chunks_loop (length xs) n xs

-- `let mut s = vec![0u8; n]; s[..chunk.len()].copy_from_slice(chunk)`
unfoldable pub pad : ℕ → List ℕ → List ℕ
pad n chunk = chunk ++ replicate (n - length chunk) 0

or_fec {ℓ} : {A : Type ℓ} → String ⊎ A → Result A
or_fec (inl e) = err (fec e)
or_fec (inr a) = ok a

new_coder : ReedSolomon → ℕ → ℕ → Result (Unit {0})
new_coder rs d p = elim (rs.new_error d p) [ none ↦ ok tt | some e ↦ err (fec e) ]

unfoldable pub add_parity : ReedSolomon → ℕ → ℕ → ℕ → List (List ℕ) → Result (List (List ℕ))
unfolding or_fec new_coder
add_parity rs total_data parity_count chunk_size shards =
    if ltb 0 parity_count
    then (do
      let all = shards ++ replicate parity_count (replicate chunk_size 0)
      new_coder rs total_data parity_count
      or_fec (rs.encode total_data parity_count all))
    else ok shards

-- `idx as u8 < total_data`
unfoldable pub is_data : ℕ → ℕ → Bool
is_data total_data idx = ltb (idx % 256) (total_data % 256)

-- The body of shard `idx`: the padding of the last data shard is trimmed.
unfoldable pub body_at : ℕ → ℕ → ℕ → List ℕ → List ℕ
unfolding is_data
body_at total_data last_data_len idx shard =
    if is_data total_data idx
    then (if idx == total_data - 1 then take last_data_len shard else shard)
    else shard

unfoldable pub header_at : BuildConfig → ℕ → ℕ → ℕ → ChunkHeader
unfolding is_data
header_at cfg total_data shard_count idx = record {
  packet_type = if is_data total_data idx then data_packet else parity_packet;
  last_in_stream = cfg.last_in_stream && (idx == shard_count - 1);
  message_id = cfg.message_id;
  codec = cfg.codec;
  codec_param = cfg.codec_param;
  stream_seq = cfg.stream_seq;
  chunk_index = if is_data total_data idx then idx % 256 else (idx - total_data) % 256;
  total_data = total_data % 256;
  parity_count = cfg.parity_count;
}

module _ (sha : Sha256) (cfg : BuildConfig) (total_data last_data_len shard_count : ℕ) where
  -- The loop over the shards from index `idx` on.
  unfoldable pub frame_loop : ℕ → List (List ℕ) → Result (List (List ℕ))
  frame_loop idx [] = ok []
  frame_loop idx (shard ∷ shards) = do
    let body = body_at total_data last_data_len idx shard
    let header_bytes = serialize sha (header_at cfg total_data shard_count idx)
    guard (leb (header_size + length body) max_packet_size)
        (chunk_too_large (length body) max_body_size)
    frames ← frame_loop (idx + 1) shards
    ok ((header_bytes ++ body) ∷ frames)

unfoldable pub build_message : Sha256 → ReedSolomon → List ℕ → BuildConfig → Result EncodedMessage
build_message sha rs audio cfg = do
  guard (leb min_chunk_size cfg.chunk_size) (chunk_too_small cfg.chunk_size)
  guard (leb cfg.chunk_size max_body_size) (chunk_too_large cfg.chunk_size max_body_size)
  guard (not (is_empty audio)) (too_short 0 1)
  let total = div_ceil (length audio) cfg.chunk_size
  guard (leb total max_chunks_per_message)
      (audio_too_large (length audio) (max_chunks_per_message * cfg.chunk_size))
  guard (leb cfg.parity_count max_parity_per_message) (too_much_parity cfg.parity_count)
  guard (leb (total + cfg.parity_count) max_total_shards)
      (too_many_shards (total % 256) cfg.parity_count)
  let data_shards = map (pad cfg.chunk_size) (chunks cfg.chunk_size audio)
  let last_data_len = length audio - cfg.chunk_size * (total - 1)
  shards ← add_parity rs total cfg.parity_count cfg.chunk_size data_shards
  frames ← frame_loop sha cfg total last_data_len (length shards) 0 shards
  ok (record { frames = frames; total_data = total % 256; parity_count = cfg.parity_count })
