-- ===== src/Voice/Nack.antt =====
-- crates/voicetastic-core/src/voice/nack.rs: requests for missing chunks, as a bitmap.
pub mod Bitmap
pub mod RoundTrip
use voicetastic_core.Prelude.{
  ℕ, zero, suc, ◌+◌, ◌-◌, ◌*◌, ◌/◌, ◌%◌, ◌^◌, Bool, true, false, not, List, [], ◌∷◌, ◌++◌, bit_and,
  bit_or, ltb, leb, ◌==◌, if◌then◌else◌, length, get_or, set, replicate,
}
use voicetastic_core.Proto.Types.{nack_packet, VoiceCodec}
use voicetastic_core.Proto.Error.{
  VoiceError, nack_too_short, bad_version, Result, ok, err, ◌>>=◌, ◌>>◌, guard,
}
use voicetastic_core.Proto.Mac.{Sha256}
use voicetastic_core.Proto.Header.{ChunkHeader, serialize}
use voicetastic_core.Proto.Builder.{div_ceil}

abbrev pub bitmap_len : ℕ → ℕ
bitmap_len total_data = div_ceil total_data 8

-- `1 << bit` of index `idx`, and the byte of the body that holds it.
abbrev pub bit_of : ℕ → ℕ
bit_of idx = 2 ^ (7 - idx % 8)

abbrev pub byte_of : ℕ → ℕ
byte_of idx = 2 + idx / 8

-- `body[byte] |= 1 << bit`
unfoldable pub mark : ℕ → List ℕ → List ℕ
mark idx body = set body (byte_of idx) (bit_or (get_or body (byte_of idx) 0) (bit_of idx))

-- The loop over `missing`, which skips indices out of range.
unfoldable pub mark_all : ℕ → List ℕ → List ℕ → List ℕ
mark_all total_data [] body = body
mark_all total_data (idx ∷ missing) body =
    mark_all total_data missing (if leb total_data idx then body else mark idx body)

unfoldable pub empty_body : ℕ → Bool → List ℕ
empty_body total_data give_up =
    0x01 ∷ (if give_up then 0x01 else 0x00) ∷ replicate (bitmap_len total_data) 0

unfoldable pub nack_header : ℕ → ℕ → VoiceCodec → ℕ → ℕ → ℕ → ChunkHeader
nack_header message_id stream_seq codec codec_param total_data parity_count = record {
  packet_type = nack_packet;
  last_in_stream = false;
  message_id = message_id;
  codec = codec;
  codec_param = codec_param;
  stream_seq = stream_seq;
  chunk_index = 0;
  total_data = total_data;
  parity_count = parity_count;
}

unfoldable pub build_nack : Sha256 → ℕ → ℕ → VoiceCodec → ℕ → ℕ → ℕ → List ℕ → Bool → List ℕ
build_nack sha message_id stream_seq codec codec_param total_data parity_count missing give_up =
    serialize sha (nack_header message_id stream_seq codec codec_param total_data parity_count)
    ++ mark_all total_data missing (empty_body total_data give_up)

pub record NackInfo : Type 0 where
  pub message_id : ℕ
  pub stream_seq : ℕ
  pub total_data : ℕ
  pub parity_count : ℕ
  pub give_up : Bool
  pub missing : List ℕ

abbrev pub is_marked : List ℕ → ℕ → Bool
is_marked body i = not (bit_and (get_or body (byte_of i) 0) (bit_of i) == 0)

-- `for i in 0..total_data`, with `n` rounds left from `i` on.
unfoldable pub read_bitmap : List ℕ → ℕ → ℕ → List ℕ
read_bitmap body i zero = []
read_bitmap body i (suc n) =
    let rest = read_bitmap body (i + 1) n in if is_marked body i then i ∷ rest else rest

unfoldable pub parse_nack_body : ChunkHeader → List ℕ → Result NackInfo
parse_nack_body header body = do
  guard (leb (2 + bitmap_len header.total_data) (length body)) nack_too_short
  guard (get_or body 0 0 == 0x01) (bad_version (get_or body 0 0))
  ok (record {
    message_id = header.message_id;
    stream_seq = header.stream_seq;
    total_data = header.total_data;
    parity_count = header.parity_count;
    give_up = not (bit_and (get_or body 1 0) 0x01 == 0);
    missing = read_bitmap body 0 header.total_data;
  })
