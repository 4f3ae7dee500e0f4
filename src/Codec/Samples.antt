-- ===== src/Codec/Samples.antt =====
-- The samples of an Opus packet, from its first bytes.
use voicetastic_core.Prelude.{
  ℕ, ◌*◌, ◌/◌, ◌≤◌, ◌<◌, ◌≡◌, refl, ◌↔◌, inl, inr, Bool, true, false, ◌&&◌, Option, none, some,
  List, [], ◌∷◌, bit_and, Option-cases, arith, ltb, leb, All, ltb→lt,
}
use voicetastic_core.Prelude.Bits.{IsByte, all_below, all_below_sound}
use voicetastic_core.Codec.Frames.{frame_samples, frame_count, opus_packet_samples_48k}

in_range : Option ℕ → Bool
in_range none = false
in_range (some n) = leb 120 n && leb n 2880

header_test : ℕ → Bool
header_test toc = in_range (frame_samples (toc / 8)) && ltb (bit_and toc 0x03) 4

header_table : all_below 256 header_test ≡ true
unfolding all_below header_test in_range frame_samples
header_table = refl

count_table : all_below 256 (λ b. ltb (bit_and b 0x3f) 64) ≡ true
unfolding all_below
count_table = refl

-- What each header byte announces.
record Header (toc : ℕ) : Type 0 where
  samples : ℕ
  known : frame_samples (toc / 8) ≡ some samples
  least : 120 ≤ samples
  most : samples ≤ 2880
  code : bit_and toc 0x03 < 4

Header-any : (toc : ℕ) → IsByte toc → Header toc
unfolding header_test in_range
Header-any toc b =
    let t = all_below_sound 256 header_test toc header_table b in
    elim (Option-cases (frame_samples (toc / 8))) [
      | inl e ↦ absurd (ground (arith, t, e))
      | inr (n, e) ↦ record {
        samples = n;
        known = e;
        least = ground (arith, t, e);
        most = ground (arith, t, e);
        code = ground (arith, t);
      }
    ]

count_byte-lt : (b : ℕ) → IsByte b → bit_and b 0x3f < 64
count_byte-lt b h = ltb→lt _ _ (all_below_sound 256 (λ x. ltb (bit_and x 0x3f) 64) b count_table h)

product_bound : (a b : ℕ) → a ≤ 2880 → b < 64 → a * b ≤ 63 * 2880
product_bound a b h l = grind arith

-- The packets of which the function cannot tell the length.
abbrev pub IsCut : List ℕ → Type 0
IsCut [] = Unit
IsCut (toc ∷ []) = bit_and toc 0x03 ≡ 3
IsCut (toc ∷ b ∷ packet) = ⊥

-- A packet is refused exactly when it is empty, or when its second byte should count the frames and
-- is not there; an accepted packet has at most 63 frames of 2,880 samples.
pub record Sampled (packet : List ℕ) : Type 0 where
  pub refused_iff : (opus_packet_samples_48k packet ≡ none) ↔ IsCut packet
  pub bounded : (n : ℕ) → opus_packet_samples_48k packet ≡ some n → n ≤ 63 * 2880

-- Every packet of bytes is sampled so.
pub samples-Sampled : (packet : List ℕ) → All IsByte packet → Sampled packet
unfolding opus_packet_samples_48k frame_count
samples-Sampled [] b = record { refused_iff = (λ e. tt, λ c. refl); bounded = λ n e. cc }
samples-Sampled (toc ∷ []) (b, _) =
    let h = Header-any toc b in
    record {
      refused_iff = (λ e. ground (arith, h.known, h.code, e), λ c. ground (arith, h.known, c));
      bounded = λ n e. ground (arith, h.known, h.most, e);
    }
samples-Sampled (toc ∷ c ∷ packet) (b, (b', _)) =
    let h = Header-any toc b in
    let l = count_byte-lt c b' in
    record {
      refused_iff = (λ e. ground (arith, h.known, h.code, e), λ c. absurd c);
      bounded =
          λ n e. ground (arith, h.known, h.most, l, e, product_bound h.samples (bit_and c 0x3f));
    }
