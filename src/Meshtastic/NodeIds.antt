-- ===== src/Meshtastic/NodeIds.antt =====
-- crates/voicetastic-core/src/meshtastic/ids.rs and node.rs: node numbers as text. A text is the
-- list of its bytes.
pub mod RoundTrip
use voicetastic_core.Prelude.{
  ℕ, zero, suc, ◌+◌, ◌-◌, ◌*◌, ◌/◌, ◌%◌, ◌^◌, Bool, true, false, ◌&&◌, Option, none, some, List, [],
  ◌∷◌, ◌++◌, ltb, leb, ◌==◌, if◌then◌else◌, length, is_empty,
}

abbrev pub hex_digit : ℕ → ℕ
hex_digit d = if ltb d 10 then b'0' + d else b'a' + (d - 10)

-- The digits of a number in lower case, at a width.
unfoldable pub hex : ℕ → ℕ → List ℕ
hex zero n = []
hex (suc width) n = hex width (n / 16) ++ (hex_digit (n % 16) ∷ [])

-- `format!("!{:08x}", num)`: a `u32` has no more than eight digits.
unfoldable pub node_num_to_id : ℕ → List ℕ
unfolding hex
node_num_to_id num = b'!' ∷ hex 8 num

-- `char::to_digit(16)`
unfoldable pub digit_value : ℕ → Option ℕ
digit_value c =
    if leb b'0' c && leb c b'9'
    then some (c - b'0')
    else if leb b'a' c && leb c b'f'
    then some (c - b'a' + 10)
    else if leb b'A' c && leb c b'F'
    then some (c - b'A' + 10)
    else none

-- `checked_mul(16)` and `checked_add` on a `u32`.
abbrev pub push_digit : ℕ → Option ℕ → Option ℕ
push_digit acc none = none
push_digit acc (some d) = if leb (2 ^ 32) (acc * 16 + d) then none else some (acc * 16 + d)

unfoldable pub read_digits : ℕ → List ℕ → Option ℕ
unfolding digit_value
read_digits acc [] = some acc
read_digits acc (c ∷ text) = elim (push_digit acc (digit_value c)) [
  | none ↦ none
  | some acc' ↦ read_digits acc' text
]

abbrev pub non_empty_digits : List ℕ → Option ℕ
unfolding read_digits
non_empty_digits text = if is_empty text then none else read_digits 0 text

-- `u32::from_str_radix(text, 16)`, which takes a leading plus.
unfoldable pub from_str_radix : List ℕ → Option ℕ
unfolding read_digits
from_str_radix [] = none
from_str_radix (c ∷ text) = if c == b'+' then non_empty_digits text else read_digits 0 (c ∷ text)

-- `none` is `InvalidNodeId`.
unfoldable pub node_id_to_num : List ℕ → Option ℕ
unfolding from_str_radix
node_id_to_num [] = none
node_id_to_num (c ∷ trimmed) =
    if c == b'!' && length trimmed == 8 then from_str_radix trimmed else none

-- The `Display` and the `FromStr` of `NodeId`.
unfoldable pub display : ℕ → List ℕ
unfolding hex
display n = b'!' ∷ hex 8 n

unfoldable pub strip_mark : List ℕ → List ℕ
strip_mark [] = []
strip_mark (c ∷ text) = if c == b'!' then text else c ∷ text

unfoldable pub from_str : List ℕ → Option ℕ
unfolding from_str_radix strip_mark
from_str text = from_str_radix (strip_mark text)
