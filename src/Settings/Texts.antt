-- ===== src/Settings/Texts.antt =====
-- Texts as the lists of their bytes, and the numbers that they stand for.
use Prim.Native.String.{String}
use Prim.Native.Char.{code}
use voicetastic_core.Prelude.{
  ℕ, zero, suc, ◌+◌, ◌-◌, ◌*◌, ◌/◌, ◌%◌, ◌^◌, Bool, true, false, ◌&&◌, Option, none, some, List, [],
  ◌∷◌, ◌++◌, map, ltb, leb, ◌==◌, if◌then◌else◌, is_empty, length,
}

abbrev pub Text : Type 0
Text = List ℕ

-- The bytes of a literal, which is ASCII.
abbrev pub codes : String → Text
codes String.[] = []
codes (String.◌∷◌ c s) = code c ∷ codes s

unfoldable pub same_text : Text → Text → Bool
same_text [] [] = true
same_text [] (y ∷ ys) = false
same_text (x ∷ xs) [] = false
same_text (x ∷ xs) (y ∷ ys) = x == y && same_text xs ys

-- `u32::to_string`: at most ten digits, with no zero in front.
unfoldable pub decimal : ℕ → ℕ → Text
decimal zero n = []
decimal (suc width) n =
    let front = decimal width (n / 10) in
    if n / 10 == 0 then (b'0' + n % 10) ∷ [] else front ++ ((b'0' + n % 10) ∷ [])

unfoldable pub to_string : ℕ → Text
unfolding decimal
to_string n = decimal 10 n

-- The characters of `char::is_whitespace`, in UTF-8.
abbrev pub white_space : List Text
white_space =
    (9 ∷ [])
    ∷ (10 ∷ [])
    ∷ (11 ∷ [])
    ∷ (12 ∷ [])
    ∷ (13 ∷ [])
    ∷ (32 ∷ [])
    ∷ (194 ∷ 133 ∷ [])
    ∷ (194 ∷ 160 ∷ [])
    ∷ (225 ∷ 154 ∷ 128 ∷ [])
    ∷ (226 ∷ 128 ∷ 128 ∷ [])
    ∷ (226 ∷ 128 ∷ 129 ∷ [])
    ∷ (226 ∷ 128 ∷ 130 ∷ [])
    ∷ (226 ∷ 128 ∷ 131 ∷ [])
    ∷ (226 ∷ 128 ∷ 132 ∷ [])
    ∷ (226 ∷ 128 ∷ 133 ∷ [])
    ∷ (226 ∷ 128 ∷ 134 ∷ [])
    ∷ (226 ∷ 128 ∷ 135 ∷ [])
    ∷ (226 ∷ 128 ∷ 136 ∷ [])
    ∷ (226 ∷ 128 ∷ 137 ∷ [])
    ∷ (226 ∷ 128 ∷ 138 ∷ [])
    ∷ (226 ∷ 128 ∷ 168 ∷ [])
    ∷ (226 ∷ 128 ∷ 169 ∷ [])
    ∷ (226 ∷ 128 ∷ 175 ∷ [])
    ∷ (226 ∷ 129 ∷ 159 ∷ [])
    ∷ (227 ∷ 128 ∷ 128 ∷ [])
    ∷ []

abbrev pub strip_prefix : Text → Text → Option Text
strip_prefix [] text = some text
strip_prefix (p ∷ ps) [] = none
strip_prefix (p ∷ ps) (c ∷ text) = if p == c then strip_prefix ps text else none

unfoldable pub strip_any : List Text → Text → Option Text
strip_any [] text = none
strip_any (p ∷ ps) text = elim (strip_prefix p text) [
  | none ↦ strip_any ps text
  | some rest ↦ some rest
]

-- One character of white space at a time, and at most as many as there are bytes.
unfoldable pub trim_spaces : ℕ → Text → Text
unfolding strip_any
trim_spaces zero text = text
trim_spaces (suc fuel) text = elim (strip_any white_space text) [
  | none ↦ text
  | some rest ↦ trim_spaces fuel rest
]

unfoldable pub trim_start : Text → Text
unfolding trim_spaces
trim_start text = trim_spaces (length text) text

-- The text up to where nothing but white space follows.
unfoldable pub trim_end : Text → Text
unfolding trim_start
trim_end [] = []
trim_end (c ∷ text) = if is_empty (trim_start (c ∷ text)) then [] else c ∷ trim_end text

unfoldable pub trim : Text → Text
unfolding trim_start trim_end
trim text = trim_end (trim_start text)

abbrev pub push_decimal : ℕ → ℕ → Option ℕ
push_decimal acc c =
    if leb b'0' c && leb c b'9' && ltb (acc * 10 + (c - b'0')) (2 ^ 32)
    then some (acc * 10 + (c - b'0'))
    else none

unfoldable pub read_decimal : ℕ → Text → Option ℕ
read_decimal acc [] = some acc
read_decimal acc (c ∷ text) = elim (push_decimal acc c) [
  | none ↦ none
  | some acc' ↦ read_decimal acc' text
]

abbrev pub some_digits : Text → Option ℕ
unfolding read_decimal
some_digits text = if is_empty text then none else read_decimal 0 text

-- `str::parse::<u32>`, which takes a leading plus.
unfoldable pub parse_number : Text → Option ℕ
unfolding read_decimal
parse_number [] = none
parse_number (c ∷ text) = if c == b'+' then some_digits text else read_decimal 0 (c ∷ text)

unfoldable pub to_ascii_lowercase : Text → Text
to_ascii_lowercase text = map (λ c. if leb b'A' c && leb c b'Z' then c + 32 else c) text
