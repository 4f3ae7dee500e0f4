-- ===== src/Meshtastic/NodeIds/RoundTrip.antt =====
-- A node number is read back from its text.
use voicetastic_core.Prelude.{
  ℕ, zero, suc, ◌+◌, ◌*◌, ◌/◌, ◌%◌, ◌^◌, ◌≤◌, ◌<◌, ◌≡◌, refl, ap, ◌∙◌, Option, none, some, List, [],
  ◌∷◌, ◌++◌, arith, length, length-append, All, All-append,
}
use voicetastic_core.Meshtastic.NodeIds.{
  hex_digit, hex, node_num_to_id, digit_value, push_digit, read_digits, from_str_radix,
  node_id_to_num, display, strip_mark, from_str,
}

abbrev power : ℕ → ℕ
power zero = 1
power (suc width) = 16 * power width

digit_value-hex_digit : (d : ℕ) → d < 16 → digit_value (hex_digit d) ≡ some d
unfolding digit_value
digit_value-hex_digit d h = ground arith

read_digits-append :
    (acc value : ℕ) (xs ys : List ℕ)
    → read_digits acc xs ≡ some value
    → read_digits acc (xs ++ ys) ≡ read_digits value ys
unfolding read_digits
read_digits-append acc value [] ys e = let h : acc ≡ value = cc e in ap (λ a. read_digits a ys) h
read_digits-append acc value (c ∷ xs) ys e =
    step (push_digit acc (digit_value c)) e (λ a. read_digits-append a value xs ys)
  where
    step :
        (o : Option ℕ)
        → elim o [ none ↦ none | some a ↦ read_digits a xs ] ≡ some value
        → ((a : ℕ)
            → read_digits a xs ≡ some value
            → read_digits a (xs ++ ys) ≡ read_digits value ys)
        → elim o [ none ↦ none | some a ↦ read_digits a (xs ++ ys) ] ≡ read_digits value ys
    step none q ih = cc q
    step (some a) q ih = ih a q

read_digits-one :
    (acc d : ℕ)
    → d < 16
    → acc * 16 + d < 2 ^ 32
    → read_digits acc (hex_digit d ∷ []) ≡ some (acc * 16 + d)
unfolding read_digits
read_digits-one acc d h l = ground (arith, digit_value-hex_digit d h)

read_digits-hex :
    (width n : ℕ) → n < power width → power width ≤ 2 ^ 32 → read_digits 0 (hex width n) ≡ some n
unfolding hex
read_digits-hex zero n h l = unfold read_digits in ground arith
read_digits-hex (suc width) n h l =
    let e : n / 16 * 16 + n % 16 ≡ n = omega arith in
    read_digits-append 0 (n / 16) (hex width (n / 16)) (hex_digit (n % 16) ∷ [])
      (read_digits-hex width (n / 16) (omega arith) (omega arith))
    ∙ read_digits-one (n / 16) (n % 16) (omega arith) (omega arith)
    ∙ ap some e

length-hex : (width n : ℕ) → length (hex width n) ≡ width
unfolding hex
length-hex zero n = refl
length-hex (suc width) n =
    omega (
      arith,
      length-hex width (n / 16),
      length-append (hex width (n / 16)) (hex_digit (n % 16) ∷ []),
    )

hex-digits : (width n : ℕ) → All (λ c. b'0' ≤ c) (hex width n)
unfolding hex
hex-digits zero n = tt
hex-digits (suc width) n =
    All-append (λ c. b'0' ≤ c) (hex width (n / 16)) (hex_digit (n % 16) ∷ [])
      (hex-digits width (n / 16)) (let d : b'0' ≤ hex_digit (n % 16) = ground arith in (d, tt))

-- Text that starts with a digit is read as digits.
from_digits :
    (text : List ℕ)
    → All (λ c. b'0' ≤ c) text
    → 0 < length text
    → from_str_radix text ≡ read_digits 0 text
unfolding from_str_radix
from_digits [] h l = absurd (omega arith)
from_digits (c ∷ text) h l = let d = h.0 in ground arith

from_str_radix-hex : (n : ℕ) → n < 2 ^ 32 → from_str_radix (hex 8 n) ≡ some n
from_str_radix-hex n h =
    from_digits (hex 8 n) (hex-digits 8 n) (omega (arith, length-hex 8 n))
    ∙ read_digits-hex 8 n (omega arith) (omega arith)

-- The text of a node number, read by either reader, with its mark or without, is the number.
pub record ReadsBack (n : ℕ) : Type 0 where
  pub by_service : node_id_to_num (node_num_to_id n) ≡ some n
  pub by_node : from_str (display n) ≡ some n
  pub without_mark : from_str (hex 8 n) ≡ some n

strip-digits : (text : List ℕ) → All (λ c. b'0' ≤ c) text → strip_mark text ≡ text
unfolding strip_mark
strip-digits [] h = refl
strip-digits (c ∷ text) h = let d = h.0 in ground arith

-- Every node number of 32 bits is read back from its texts.
pub num-ReadsBack : (n : ℕ) → n < 2 ^ 32 → ReadsBack n
num-ReadsBack n h =
    let e = from_str_radix-hex n h in
    record {
      by_service = unfold node_id_to_num node_num_to_id in ground (arith, e, length-hex 8 n);
      by_node = unfold from_str display strip_mark in e;
      without_mark =
          unfold from_str in ap from_str_radix (strip-digits (hex 8 n) (hex-digits 8 n)) ∙ e;
    }

-- A plus takes the place of the first digit: eight places that are no eight digits are read too.
pub plus_read : (n : ℕ) → n < 2 ^ 28 → node_id_to_num (b'!' ∷ b'+' ∷ hex 7 n) ≡ some n
unfolding node_id_to_num from_str_radix
plus_read n h =
    let e = read_digits-hex 7 n (omega arith) (omega arith) in ground (arith, e, length-hex 7 n, e)
