-- ===== src/Proto/Header/RoundTrip.antt =====
-- A header that is written is parsed back, with whatever body follows it.
use voicetastic_core.Prelude.{
  ℕ, ◌/◌, ◌%◌, ◌^◌, ◌≤◌, ◌≡◌, refl, ◌↔◌, List, [], ◌∷◌, ◌++◌, arith, length,
}
use voicetastic_core.Prelude.Bits.{IsU32}
use voicetastic_core.Proto.Consts.{max_body_size}
use voicetastic_core.Proto.Types.{PacketType, data_packet, parity_packet, nack_packet}
use voicetastic_core.Proto.Error.{ok}
use voicetastic_core.Proto.Mac.{
  Sha256, compute_tag, verify, length-compute_tag, compute_tag_bytes, verify_iff,
}
use voicetastic_core.Proto.Header.{
  ChunkHeader, type_flags_byte, from_be_bytes, write_logical, check_index, serialize, parse,
  IsIndex, IsValid,
}
use voicetastic_core.Proto.Header.Flags.{flags_read}

pub four_bytes :
    (xs : List ℕ)
    → length xs ≡ 4
    → (a : ℕ) × (b : ℕ) × (c : ℕ) × (d : ℕ) × (xs ≡ a ∷ b ∷ c ∷ d ∷ [])
four_bytes (a ∷ b ∷ c ∷ d ∷ []) h = (a, b, c, d, refl)
four_bytes [] h = absurd (omega arith)
four_bytes (a ∷ []) h = absurd (omega arith)
four_bytes (a ∷ b ∷ []) h = absurd (omega arith)
four_bytes (a ∷ b ∷ c ∷ []) h = absurd (omega arith)
four_bytes (a ∷ b ∷ c ∷ d ∷ e ∷ r) h = absurd (omega arith)

pub check_index_iff :
    (p : PacketType) (idx total parity : ℕ)
    → (check_index p idx total parity ≡ ok tt) ↔ IsIndex p idx total parity
unfolding check_index
check_index_iff data_packet idx total parity = ground arith
check_index_iff parity_packet idx total parity = ground arith
check_index_iff nack_packet idx total parity = ground arith

pub from_to_be_bytes :
    (v : ℕ)
    → IsU32 v
    → from_be_bytes (v / 2 ^ 24 % 256) (v / 2 ^ 16 % 256) (v / 2 ^ 8 % 256) (v % 256) ≡ v
from_to_be_bytes v h = omega arith

module _ (sha : Sha256) (h : ChunkHeader) (v : IsValid h) where
  verify_serialize : verify sha (write_logical h ++ compute_tag sha (write_logical h)) ≡ ok tt
  unfolding write_logical
  verify_serialize =
      (verify_iff sha (write_logical h) (compute_tag sha (write_logical h)) refl refl
          (compute_tag_bytes sha _) (length-compute_tag sha _)).1
        refl

  parse_tagged :
      (a b c d : ℕ) (body : List ℕ)
      → length body ≤ max_body_size
      → verify sha (write_logical h ++ (a ∷ b ∷ c ∷ d ∷ [])) ≡ ok tt
      → parse sha ((write_logical h ++ (a ∷ b ∷ c ∷ d ∷ [])) ++ body) ≡ ok (h, body)
  unfolding parse write_logical type_flags_byte
  parse_tagged a b c d body hl ver =
      let (fb, reserved, bits, last) = flags_read h.packet_type h.last_in_stream in
      let index =
        (check_index_iff h.packet_type h.chunk_index h.total_data h.parity_count).1 v.index_ok in
      rw (reserved, bits, last, from_to_be_bytes h.message_id v.id_fits, v.codec_fits.1)
        (ground (arith, index, ver))

  -- A valid header that is serialised in front of a body of at most `MAX_BODY_SIZE` bytes parses
  -- to that header and that body.
  pub parse-serialize :
      (body : List ℕ)
      → length body ≤ max_body_size
      → parse sha (serialize sha h ++ body) ≡ ok (h, body)
  unfolding serialize
  parse-serialize body hl =
      let (a, b, c, d, e) =
        four_bytes (compute_tag sha (write_logical h)) (length-compute_tag sha (write_logical h)) in
      let ver : verify sha (write_logical h ++ (a ∷ b ∷ c ∷ d ∷ [])) ≡ ok tt =
        rw (← e) verify_serialize in
      rw e (parse_tagged a b c d body hl ver)
