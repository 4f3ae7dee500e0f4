-- ===== src/Proto/Header/Flags.antt =====
-- The byte of packet type and flags: what is written is read back, and the other way round.
use voicetastic_core.Prelude.{
  ℕ, ◌≡◌, refl, Bool, true, false, not, ◌||◌, Option, none, some, bit_and, bit_or, arith, ◌==◌,
  if◌then◌else◌, ==_iff,
}
use voicetastic_core.Prelude.Bits.{IsByte, all_below, all_below_sound}
use voicetastic_core.Proto.Types.{
  PacketType, data_packet, parity_packet, nack_packet, from_bits, to_bits,
}

abbrev pub flags : PacketType → Bool → ℕ
flags p last = if last then bit_or (to_bits p) 0x10 else to_bits p

pub flags_read :
    (p : PacketType) (last : Bool)
    → IsByte (flags p last)
      × (bit_and (flags p last) 0x2f ≡ 0)
      × (from_bits (flags p last) ≡ some p)
      × (not (bit_and (flags p last) 0x10 == 0) ≡ last)
unfolding to_bits from_bits
flags_read data_packet true = (omega arith, refl, refl, refl)
flags_read data_packet false = (omega arith, refl, refl, refl)
flags_read parity_packet true = (omega arith, refl, refl, refl)
flags_read parity_packet false = (omega arith, refl, refl, refl)
flags_read nack_packet true = (omega arith, refl, refl, refl)
flags_read nack_packet false = (omega arith, refl, refl, refl)

rewritten : ℕ → Option PacketType → Bool
rewritten tf none = true
rewritten tf (some p) = flags p (not (bit_and tf 0x10 == 0)) == tf

canonical : ℕ → Bool
canonical tf = not (bit_and tf 0x2f == 0) || rewritten tf (from_bits tf)

canonical_table : all_below 256 canonical ≡ true
unfolding all_below canonical rewritten to_bits from_bits
canonical_table = refl

pub flags_written :
    (tf : ℕ) (p : PacketType)
    → IsByte tf
    → bit_and tf 0x2f ≡ 0
    → from_bits tf ≡ some p
    → flags p (not (bit_and tf 0x10 == 0)) ≡ tf
unfolding canonical rewritten
flags_written tf p hb h e =
    let t = all_below_sound 256 canonical tf canonical_table hb in (==_iff _ tf).0 (ground arith)
