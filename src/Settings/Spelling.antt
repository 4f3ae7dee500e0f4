-- ===== src/Settings/Spelling.antt =====
-- What the texts of a setting look like, said without the parsers of the code.
pub mod Trim
pub mod Digits
pub mod Words
pub mod Taken
use voicetastic_core.Prelude.{
  ℕ, ◌+◌, ◌-◌, ◌*◌, ◌≤◌, ◌≡◌, ◌⊎◌, Bool, true, false, some, List, [], ◌∷◌, ◌++◌, map, get_elem?,
  All,
}
use voicetastic_core.Settings.Texts.{Text, codes, white_space}
use voicetastic_core.Settings.Generic.{SettingKind, optional_string, int_range, enum, boolean}

abbrev pub Among : Text → List Text → Type 0
Among t ts = (i : ℕ) × (get_elem? ts i ≡ some t)

abbrev pub joined : List Text → Text
joined [] = []
joined (t ∷ ts) = t ++ joined ts

-- A text of white space alone, character after character.
abbrev pub Blank : Text → Type 0
Blank t = (chars : List Text) × All (λ c. Among c white_space) chars × (joined chars ≡ t)

-- A text with white space around it.
pub record Padded (Core : Text → Type 0) (value : Text) : Type 0 where
  pub front : Text
  pub core : Text
  pub back : Text
  pub blank_front : Blank front
  pub blank_back : Blank back
  pub spelled : front ++ (core ++ back) ≡ value
  pub is_core : Core core

abbrev pub value_of : ℕ → List ℕ → ℕ
value_of acc [] = acc
value_of acc (d ∷ ds) = value_of (acc * 10 + d) ds

-- One digit or more, the leading one first.
pub record Decimal (n : ℕ) (t : Text) : Type 0 where
  pub leading : ℕ
  pub others : List ℕ
  pub small : All (λ d. d ≤ 9) (leading ∷ others)
  pub worth : value_of 0 (leading ∷ others) ≡ n
  pub written : map (λ d. b'0' + d) (leading ∷ others) ≡ t

-- A number with or without a plus in front.
abbrev pub Numeral : ℕ → Text → Type 0
Numeral n t = Decimal n t ⊎ ((digits : Text) × Decimal n digits × (b'+' ∷ digits ≡ t))

-- The same letters, of which some may be capitals in the first text.
pub data Alike : Text → Text → Type 0 where
  ended : Alike [] []
  same : (c : ℕ) (t w : Text) → Alike t w → Alike (c ∷ t) (c ∷ w)
  capital : (c : ℕ) (t w : Text) → b'A' ≤ c → c ≤ b'Z' → Alike t w → Alike (c ∷ t) ((c + 32) ∷ w)

-- The words for yes and for no.
abbrev pub words : Bool → List Text
words true = codes "true" ∷ codes "1" ∷ codes "yes" ∷ codes "on" ∷ []
words false = codes "false" ∷ codes "0" ∷ codes "no" ∷ codes "off" ∷ []

abbrev pub boolean_words : List Text
boolean_words = words true ++ words false

-- The texts of a kind of setting.
abbrev pub Spells : SettingKind → Text → Type 0
Spells optional_string value = Unit
Spells (int_range min max) value =
    Padded (λ core. (n : ℕ) × Numeral n core × (min ≤ n) × (n ≤ max)) value
Spells (enum variants) value = Among value variants
Spells boolean value = Padded (λ core. (w : Text) × Among w boolean_words × Alike core w) value
