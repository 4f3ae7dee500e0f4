-- ===== src/Voice/Nack/Bitmap.antt =====
-- A marked bit is read back, and no other bit changes.
use voicetastic_core.Prelude.{
  ℕ, zero, suc, ◌+◌, ◌-◌, ◌%◌, ◌^◌, ◌≤◌, ◌<◌, ◌≡◌, refl, ap, ◌∙◌, ◌≢◌, Bool, true, false, not, ◌||◌,
  List, [], ◌∷◌, bit_and, bit_or, arith, ltb, leb, ◌==◌, length, get_or, set, length-set, ltb→lt,
  All,
}
use voicetastic_core.Prelude.Bits.{IsByte, all_below, all_below_sound}
use native.Mathlib.Decide.{ℕ_discrete, dec_le}
use voicetastic_core.Voice.Nack.{bit_of, byte_of, mark, mark_all, is_marked, bitmap_len}

same : Bool → Bool → Bool
same true b = b
same false b = not b

same→eq : (a b : Bool) → same a b ≡ true → a ≡ b
unfolding same
same→eq a b h = ground arith

-- Bit `k` of `x | 1 << j` is set if `j` is `k`, and otherwise as in `x`.
bit_test : ℕ → ℕ → ℕ → Bool
unfolding same
bit_test x j k =
    same (not (bit_and (bit_or x (2 ^ (7 - j))) (2 ^ (7 - k)) == 0))
      ((j == k) || not (bit_and x (2 ^ (7 - k)) == 0))

bit_table : all_below 256 (λ x. all_below 8 (λ j. all_below 8 (bit_test x j))) ≡ true
unfolding all_below bit_test
bit_table = refl

bit_set :
    (x j k : ℕ)
    → x < 256
    → j < 8
    → k < 8
    → not (bit_and (bit_or x (2 ^ (7 - j))) (2 ^ (7 - k)) == 0)
      ≡ ((j == k) || not (bit_and x (2 ^ (7 - k)) == 0))
unfolding bit_test
bit_set x j k hx hj hk =
    let t1 =
      all_below_sound 256 (λ x. all_below 8 (λ j. all_below 8 (bit_test x j))) x bit_table hx in
    let t2 = all_below_sound 8 (λ j. all_below 8 (bit_test x j)) j t1 hj in
    same→eq _ _ (all_below_sound 8 (bit_test x j) k t2 hk)

byte_table : all_below 256 (λ x. all_below 8 (λ j. ltb (bit_or x (2 ^ (7 - j))) 256)) ≡ true
unfolding all_below
byte_table = refl

bit_byte : (x j : ℕ) → x < 256 → j < 8 → bit_or x (2 ^ (7 - j)) < 256
bit_byte x j hx hj =
    let t =
      all_below_sound 256 (λ x. all_below 8 (λ j. ltb (bit_or x (2 ^ (7 - j))) 256)) x byte_table
        hx in
    ltb→lt _ _ (all_below_sound 8 (λ j. ltb (bit_or x (2 ^ (7 - j))) 256) j t hj)

zero_table : all_below 8 (λ k. bit_and 0 (2 ^ (7 - k)) == 0) ≡ true
unfolding all_below
zero_table = refl

get_or-All : (xs : List ℕ) (i : ℕ) → All IsByte xs → get_or xs i 0 < 256
get_or-All [] i h = omega arith
get_or-All (x ∷ xs) zero h = h.0
get_or-All (x ∷ xs) (suc i) h = get_or-All xs i h.1

get_or-set_self : (xs : List ℕ) (i v : ℕ) → i < length xs → get_or (set xs i v) i 0 ≡ v
get_or-set_self [] i v h = absurd (omega arith)
get_or-set_self (x ∷ xs) zero v h = refl
get_or-set_self (x ∷ xs) (suc i) v h = get_or-set_self xs i v (omega arith)

get_or-set_ne : (xs : List ℕ) (i j v : ℕ) → i ≢ j → get_or (set xs i v) j 0 ≡ get_or xs j 0
get_or-set_ne [] i j v h = refl
get_or-set_ne (x ∷ xs) zero zero v h = absurd (h refl)
get_or-set_ne (x ∷ xs) zero (suc j) v h = refl
get_or-set_ne (x ∷ xs) (suc i) zero v h = refl
get_or-set_ne (x ∷ xs) (suc i) (suc j) v h = get_or-set_ne xs i j v (omega arith)

set-All : (xs : List ℕ) (i v : ℕ) → All IsByte xs → v < 256 → All IsByte (set xs i v)
set-All [] i v h hv = tt
set-All (x ∷ xs) zero v h hv = (hv, h.1)
set-All (x ∷ xs) (suc i) v h hv = (h.0, set-All xs i v h.1 hv)

pub mark-All : (j : ℕ) (body : List ℕ) → All IsByte body → All IsByte (mark j body)
unfolding mark
mark-All j body h =
    set-All body (byte_of j) _ h
      (bit_byte (get_or body (byte_of j) 0) (j % 8) (get_or-All body _ h) (omega arith))

pub length-mark : (j : ℕ) (body : List ℕ) → length (mark j body) ≡ length body
unfolding mark
length-mark j body = length-set body (byte_of j) _

same_bit : (j k : ℕ) → byte_of j ≡ byte_of k → (j % 8 == k % 8) ≡ (j == k)
same_bit j k e = ground arith

-- Marking `j` sets its bit and leaves every other bit as it was.
pub is_marked-mark :
    (j k : ℕ) (body : List ℕ)
    → All IsByte body
    → byte_of j < length body
    → is_marked (mark j body) k ≡ ((j == k) || is_marked body k)
unfolding mark
is_marked-mark j k body h hj = elim (ℕ_discrete (byte_of j) (byte_of k)) [
  | yes e ↦ rw (← e) (
      rw (get_or-set_self body (byte_of j) (bit_or (get_or body (byte_of j) 0) (bit_of j)) hj) (
        bit_set (get_or body (byte_of j) 0) (j % 8) (k % 8) (get_or-All body _ h) (omega arith)
          (omega arith)
        ∙ ap (λ (b : Bool). b || not (bit_and (get_or body (byte_of j) 0) (bit_of k) == 0))
            (same_bit j k e)))
  | no ne ↦ rw (get_or-set_ne body (byte_of j) (byte_of k) _ ne) (ground arith)
]

unfoldable pub contains : ℕ → List ℕ → Bool
contains k [] = false
contains k (x ∷ xs) = (x == k) || contains k xs

or_shuffle : (a b c : Bool) → (a || (b || c)) ≡ ((b || a) || c)
or_shuffle true true c = refl
or_shuffle true false c = refl
or_shuffle false true c = refl
or_shuffle false false c = refl

byte_in_bitmap :
    (total x : ℕ) (body : List ℕ)
    → x < total
    → 2 + bitmap_len total ≤ length body
    → byte_of x < length body
byte_in_bitmap total x body h l = ground arith

-- The bits of a body in which `missing` is marked.
pub is_marked-mark_all :
    (total k : ℕ) (missing body : List ℕ)
    → k < total
    → All IsByte body
    → 2 + bitmap_len total ≤ length body
    → is_marked (mark_all total missing body) k ≡ (contains k missing || is_marked body k)
unfolding mark_all contains
is_marked-mark_all total k [] body hk hb hl = refl
is_marked-mark_all total k (x ∷ xs) body hk hb hl = elim (dec_le total x) [
  | yes l ↦
      let skip : leb total x ≡ true = ground arith in
      let miss : (x == k) ≡ false = ground arith in
      rw (skip, miss) (is_marked-mark_all total k xs body hk hb hl)
  | no l ↦
      let go : leb total x ≡ false = ground arith in
      rw go (
        is_marked-mark_all total k xs (mark x body) hk (mark-All x body hb)
          (omega (arith, length-mark x body))
        ∙ rw (is_marked-mark x k body hb (byte_in_bitmap total x body (omega arith) hl))
            (or_shuffle (contains k xs) (x == k) (is_marked body k)))
]

pub length-mark_all :
    (total : ℕ) (missing body : List ℕ) → length (mark_all total missing body) ≡ length body
unfolding mark_all
length-mark_all total [] body = refl
length-mark_all total (x ∷ xs) body = ground (
  arith,
  length-mark_all total xs body,
  length-mark_all total xs (mark x body),
  length-mark x body,
)

-- The two bytes in front of the bitmap stay.
pub mark_all_front :
    (total : ℕ) (missing body : List ℕ) (i : ℕ)
    → i < 2
    → get_or (mark_all total missing body) i 0 ≡ get_or body i 0
unfolding mark_all mark
mark_all_front total [] body i h = refl
mark_all_front total (x ∷ xs) body i h = ground (
  arith,
  mark_all_front total xs body i,
  mark_all_front total xs (mark x body) i,
  get_or-set_ne body (byte_of x) i (bit_or (get_or body (byte_of x) 0) (bit_of x)) (omega arith),
)
