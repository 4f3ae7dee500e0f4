-- ===== src/Proto/Header.antt =====
-- crates/voicetastic-proto/src/header.rs: the 16-byte header of a frame, written and parsed.
pub mod Flags
pub mod RoundTrip
pub mod Parsed
use voicetastic_core.Prelude.{
  ℕ, ◌+◌, ◌*◌, ◌/◌, ◌%◌, ◌^◌, ◌≤◌, ◌<◌, ◌≡◌, Bool, true, false, not, ◌&&◌, ◌||◌, Option, none, some,
  List, [], ◌∷◌, ◌++◌, bit_and, bit_or, ltb, leb, ◌==◌, if◌then◌else◌, length, get_or, take, drop,
}
use voicetastic_core.Prelude.Bits.{IsByte, IsU32}
use voicetastic_core.Proto.Consts.{
  protocol_version, header_size, max_packet_size, max_parity_per_message,
}
use voicetastic_core.Proto.Types.{
  PacketType, data_packet, parity_packet, nack_packet, from_bits, to_bits, VoiceCodec, from_byte,
  to_byte, IsWireCodec,
}
use voicetastic_core.Proto.Error.{
  VoiceError, too_short, too_large, bad_version, reserved_flag_set, reserved_packet_type,
  zero_message_id, bad_total, too_much_parity, bad_index, bad_nack_index, Result, ok, err, ◌>>=◌,
  ◌>>◌, guard, ok_or,
}
use voicetastic_core.Proto.Mac.{Sha256, compute_tag, verify}

pub record ChunkHeader : Type 0 where
  pub packet_type : PacketType
  pub last_in_stream : Bool
  pub message_id : ℕ
  pub codec : VoiceCodec
  pub codec_param : ℕ
  pub stream_seq : ℕ
  pub chunk_index : ℕ
  pub total_data : ℕ
  pub parity_count : ℕ

unfoldable pub type_flags_byte : ChunkHeader → ℕ
type_flags_byte h = let b = to_bits h.packet_type in if h.last_in_stream then bit_or b 0x10 else b

-- `u32::to_be_bytes` and `u32::from_be_bytes`.
abbrev pub to_be_bytes : ℕ → List ℕ
to_be_bytes v = (v / 2 ^ 24 % 256) ∷ (v / 2 ^ 16 % 256) ∷ (v / 2 ^ 8 % 256) ∷ (v % 256) ∷ []

abbrev pub from_be_bytes : ℕ → ℕ → ℕ → ℕ → ℕ
from_be_bytes a b c d = a * 2 ^ 24 + b * 2 ^ 16 + c * 2 ^ 8 + d

-- The first twelve bytes of the buffer.
unfoldable pub write_logical : ChunkHeader → List ℕ
write_logical h =
    protocol_version
    ∷ type_flags_byte h
    ∷ (to_be_bytes h.message_id
        ++ (to_byte h.codec
            ∷ h.codec_param
            ∷ h.stream_seq
            ∷ h.chunk_index
            ∷ h.total_data
            ∷ h.parity_count
            ∷ []))

-- The range check on `chunk_index`, which depends on the packet type.
unfoldable pub check_index : PacketType → ℕ → ℕ → ℕ → Result (Unit {0})
check_index data_packet idx total parity = guard (ltb idx total) (bad_index idx total)
check_index parity_packet idx total parity =
    guard (not ((parity == 0) || leb parity idx)) (bad_index idx parity)
check_index nack_packet idx total parity = guard (idx == 0) (bad_nack_index idx)

module _ (sha : Sha256) where
  unfoldable pub serialize : ChunkHeader → List ℕ
  serialize h = write_logical h ++ compute_tag sha (write_logical h)

  -- Every index is below `header_size`, and so within the buffer after the first check.
  unfoldable pub parse : List ℕ → Result (ChunkHeader × List ℕ)
  parse bytes = do
    let byte = λ (i : ℕ). get_or bytes i 0
    guard (leb header_size (length bytes)) (too_short (length bytes) header_size)
    guard (leb (length bytes) max_packet_size) (too_large (length bytes) max_packet_size)
    guard (byte 0 == protocol_version) (bad_version (byte 0))
    guard (bit_and (byte 1) 0x2f == 0) (reserved_flag_set (byte 1))
    packet_type ← ok_or (from_bits (byte 1)) reserved_packet_type
    let id = from_be_bytes (byte 2) (byte 3) (byte 4) (byte 5)
    guard (not (id == 0)) zero_message_id
    guard (not (byte 10 == 0)) (bad_total (byte 10))
    guard (leb (byte 11) max_parity_per_message) (too_much_parity (byte 11))
    check_index packet_type (byte 9) (byte 10) (byte 11)
    verify sha (take header_size bytes)
    ok (
      record {
        packet_type = packet_type;
        last_in_stream = not (bit_and (byte 1) 0x10 == 0);
        message_id = id;
        codec = from_byte (byte 6);
        codec_param = byte 7;
        stream_seq = byte 8;
        chunk_index = byte 9;
        total_data = byte 10;
        parity_count = byte 11;
      },
      drop header_size bytes,
    )

unfoldable pub peek_message_id : List ℕ → Option ℕ
peek_message_id bytes =
    let byte = λ (i : ℕ). get_or bytes i 0 in
    let id = from_be_bytes (byte 2) (byte 3) (byte 4) (byte 5) in
    if ltb (length bytes) header_size || not (byte 0 == protocol_version)
    then none
    else if not (id == 0)
    then some id
    else none

-- What the wire allows of a chunk index.
abbrev pub IsIndex : PacketType → ℕ → ℕ → ℕ → Type 0
IsIndex data_packet idx total parity = idx < total
IsIndex parity_packet idx total parity = idx < parity
IsIndex nack_packet idx total parity = idx ≡ 0

-- A header that can stand on the wire.
pub record IsValid (h : ChunkHeader) : Type 0 where
  pub id_set : 0 < h.message_id
  pub id_fits : IsU32 h.message_id
  pub codec_fits : IsWireCodec h.codec
  pub param_fits : IsByte h.codec_param
  pub seq_fits : IsByte h.stream_seq
  pub some_data : 0 < h.total_data
  pub total_fits : IsByte h.total_data
  pub parity_fits : h.parity_count ≤ max_parity_per_message
  pub index_ok : IsIndex h.packet_type h.chunk_index h.total_data h.parity_count
