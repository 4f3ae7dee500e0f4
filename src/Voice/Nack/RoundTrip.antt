-- ===== src/Voice/Nack/RoundTrip.antt =====
-- A request that is built is read back.
use voicetastic_core.Prelude.{
  ℕ, zero, suc, ◌+◌, ◌-◌, ◌/◌, ◌%◌, ◌^◌, ◌≤◌, ◌<◌, ◌≡◌, refl, ◌∙◌, Bool, true, false, not, ◌||◌,
  List, [], ◌∷◌, bit_and, arith, ◌==◌, if◌then◌else◌, length, get_or, replicate, All,
  length-replicate,
}
use voicetastic_core.Prelude.Bits.{IsByte, all_below, all_below_sound, IsU32}
use voicetastic_core.Proto.Consts.{max_parity_per_message}
use voicetastic_core.Proto.Types.{VoiceCodec, IsWireCodec}
use voicetastic_core.Proto.Error.{ok}
use voicetastic_core.Proto.Mac.{Sha256}
use voicetastic_core.Proto.Header.{ChunkHeader, parse, IsValid}
use voicetastic_core.Proto.Header.RoundTrip.{parse-serialize}
use voicetastic_core.Proto.Builder.Chunks.{zeros_bytes}
use native.Mathlib.Decide.{ℕ_discrete}
use voicetastic_core.Voice.Nack.{
  bitmap_len, byte_of, is_marked, mark_all, empty_body, nack_header, build_nack, read_bitmap,
  parse_nack_body,
}
use voicetastic_core.Voice.Nack.Bitmap.{
  contains, is_marked-mark_all, length-mark_all, mark_all_front,
}

-- The indices from `i` on, `n` of them, that stand in `missing`.
unfoldable pub wanted : List ℕ → ℕ → ℕ → List ℕ
wanted missing i zero = []
wanted missing i (suc n) =
    let rest = wanted missing (i + 1) n in if contains i missing then i ∷ rest else rest

zero_table : all_below 8 (λ k. bit_and 0 (2 ^ (7 - k)) == 0) ≡ true
unfolding all_below
zero_table = refl

get_or-zeros : (n i : ℕ) → get_or (replicate n (zero)) i 0 ≡ 0
get_or-zeros zero i = refl
get_or-zeros (suc n) zero = refl
get_or-zeros (suc n) (suc i) = get_or-zeros n i

empty-unmarked : (total k : ℕ) (give_up : Bool) → is_marked (empty_body total give_up) k ≡ false
unfolding empty_body
empty-unmarked total k give_up =
    let z : get_or (empty_body total give_up) (byte_of k) 0 ≡ 0 =
      let e : byte_of k ≡ suc (suc (k / 8)) = omega arith in
      rw e (get_or-zeros (bitmap_len total) (k / 8)) in
    let t =
      all_below_sound 8 (λ k. bit_and 0 (2 ^ (7 - k)) == 0) (k % 8) zero_table (omega arith) in
    rw (z, t)

read_bitmap-wanted :
    (body missing : List ℕ) (total : ℕ)
    → ((k : ℕ) → k < total → is_marked body k ≡ contains k missing)
    → (i n : ℕ) → i + n ≤ total
    → read_bitmap body i n ≡ wanted missing i n
unfolding read_bitmap wanted
read_bitmap-wanted body missing total same i zero h = refl
read_bitmap-wanted body missing total same i (suc n) h =
    rw (same i (omega arith), read_bitmap-wanted body missing total same (i + 1) n (omega arith))

flag_read : (give_up : Bool) → not (bit_and (if give_up then 0x01 else 0x00) 0x01 == 0) ≡ give_up
flag_read true = refl
flag_read false = refl

or_false : (b : Bool) → (b || false) ≡ b
or_false true = refl
or_false false = refl

-- The fields of a request that the types of the source ensure, and a message that exists.
pub record IsRequest (message_id stream_seq : ℕ) (codec : VoiceCodec)
    (codec_param total_data parity_count : ℕ) : Type 0 where
  pub id_set : 0 < message_id
  pub id_fits : IsU32 message_id
  pub seq_fits : IsByte stream_seq
  pub codec_fits : IsWireCodec codec
  pub param_fits : IsByte codec_param
  pub some_data : 0 < total_data
  pub total_fits : IsByte total_data
  pub parity_fits : parity_count ≤ max_parity_per_message

module _ (sha : Sha256) (id seq : ℕ) (codec : VoiceCodec) (param total parity : ℕ)
    (missing : List ℕ) (give_up : Bool) (r : IsRequest id seq codec param total parity) where
  abbrev body : List ℕ
  body = mark_all total missing (empty_body total give_up)

  abbrev header : ChunkHeader
  header = nack_header id seq codec param total parity

  header-IsValid : IsValid header
  unfolding nack_header
  header-IsValid = record {
    id_set = r.id_set;
    id_fits = r.id_fits;
    codec_fits = r.codec_fits;
    param_fits = r.param_fits;
    seq_fits = r.seq_fits;
    some_data = r.some_data;
    total_fits = r.total_fits;
    parity_fits = r.parity_fits;
    index_ok = refl;
  }

  empty_bytes : All IsByte (empty_body total give_up)
  unfolding empty_body
  empty_bytes = (omega arith, (ground arith, zeros_bytes (bitmap_len total)))

  length-body : length body ≡ 2 + bitmap_len total
  unfolding empty_body
  length-body = omega (
    arith,
    length-mark_all total missing (empty_body total give_up),
    length-replicate (bitmap_len total) (zero),
  )

  room : 2 + bitmap_len total ≤ length (empty_body total give_up)
  room = omega (arith, length-body, length-mark_all total missing (empty_body total give_up))

  body_missing : read_bitmap body 0 total ≡ wanted missing 0 total
  body_missing =
      read_bitmap-wanted body missing total
        (λ k h.
          is_marked-mark_all total k missing (empty_body total give_up) h empty_bytes room
          ∙ rw (empty-unmarked total k give_up) (or_false (contains k missing)))
        0 total (omega arith)

  first_byte : get_or body 0 0 ≡ 0x01
  unfolding empty_body
  first_byte = mark_all_front total missing (empty_body total give_up) 0 (omega arith)

  second_byte : not (bit_and (get_or body 1 0) 0x01 == 0) ≡ give_up
  unfolding empty_body
  second_byte =
      rw (mark_all_front total missing (empty_body total give_up) 1 (omega arith))
        (flag_read give_up)

  -- The frame of a request parses, and its body gives the request back: with the indices below
  -- `total` that stand in `missing`, in ascending order.
  pub parse-build_nack :
      (parse sha (build_nack sha id seq codec param total parity missing give_up)
        ≡ ok (header, body))
      × (parse_nack_body header body
          ≡ ok (record {
            message_id = id;
            stream_seq = seq;
            total_data = total;
            parity_count = parity;
            give_up = give_up;
            missing = wanted missing 0 total;
          }))
  unfolding build_nack parse_nack_body nack_header
  parse-build_nack = (
    parse-serialize sha header header-IsValid body (ground (arith, length-body, r.total_fits)),
    rw (first_byte, second_byte, body_missing) (ground (arith, length-body)),
  )

-- Strictly ascending, from `i` on and below `i + n`.
abbrev pub Ascending : ℕ → ℕ → List ℕ → Type 0
Ascending i n [] = Unit {0}
Ascending i n (x ∷ xs) = (i ≤ x) × (x < n) × Ascending (x + 1) n xs

contains_below : (xs : List ℕ) (j b k : ℕ) → Ascending j b xs → k < j → contains k xs ≡ false
unfolding contains
contains_below [] j b k h l = refl
contains_below (x ∷ xs) j b k h l = ground (arith, contains_below xs (x + 1) b k h.2)

wanted_skip : (x : ℕ) (xs : List ℕ) (i n : ℕ) → x < i → wanted (x ∷ xs) i n ≡ wanted xs i n
unfolding wanted contains
wanted_skip x xs i zero h = refl
wanted_skip x xs i (suc n) h =
    let miss : (x == i) ≡ false = ground arith in
    rw (miss, wanted_skip x xs (i + 1) n (omega arith))

-- An ascending list of indices in range comes back as it was.
pub wanted-Ascending :
    (missing : List ℕ) (i n b : ℕ)
    → b ≡ i + n
    → Ascending i b missing
    → wanted missing i n ≡ missing
unfolding wanted contains
wanted-Ascending [] i zero b e h = refl
wanted-Ascending (x ∷ xs) i zero b e h = absurd (omega arith)
wanted-Ascending [] i (suc n) b e h = wanted-Ascending [] (i + 1) n b (omega arith) tt
wanted-Ascending (x ∷ xs) i (suc n) b e h = elim (ℕ_discrete x i) [
  | yes q ↦
      let hit : (x == i) ≡ true = ground arith in
      rw (hit, wanted_skip x xs (i + 1) n (omega arith))
        (ground (arith, wanted-Ascending xs (i + 1) n b (omega arith) (rw q at h.2)))
  | no q ↦
      let miss : (x == i) ≡ false = ground arith in
      rw (miss, contains_below xs (x + 1) b i h.2 (omega arith))
        (wanted-Ascending (x ∷ xs) (i + 1) n b (omega arith) (omega arith, h.1, h.2))
]
