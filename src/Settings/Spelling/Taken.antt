-- ===== src/Settings/Spelling/Taken.antt =====
-- Which texts `set_str` takes, beside the descriptor of the setting.
use voicetastic_core.Prelude.{
  ℕ, zero, suc, ◌^◌, ◌≤◌, ◌<◌, ◌≡◌, ◌≢◌, ◌↔◌, refl, sym, ap, ◌∙◌, Bool, true, false, not, some,
  List, [], ◌∷◌, inl, inr, Bool-cases, Option-cases, arith, All,
}
use voicetastic_core.Settings.Texts.{Text, same_text, trim, parse_number, to_ascii_lowercase}
use voicetastic_core.Settings.Keys.{SettingKey}
use voicetastic_core.Settings.Store.{SettingsApi}
use voicetastic_core.Settings.Generic.{
  parse_u32, parse_bool, set_str, SettingKind, optional_string, int_range, enum, boolean, kind_of,
}
use voicetastic_core.Settings.Outcome.{
  is_rejected, is_some, in_range, member, fits, set_str-rejected,
}
use voicetastic_core.Settings.Spelling.{Among, Padded, Numeral, Alike, words, boolean_words, Spells}
use voicetastic_core.Settings.Spelling.Trim.{trim-Padded, trim-plain, IsPlain}
use voicetastic_core.Settings.Spelling.Digits.{
  parse_number-Numeral, Numeral-parse_number, Numeral-IsPlain,
}
use voicetastic_core.Settings.Spelling.Words.{
  same_text-equal, same_text_refl, bool_of-Among, lowercase-Alike, word-meant, boolean-word,
}

member-Among : (t : Text) (ts : List Text) → member t ts ≡ true → Among t ts
unfolding member
member-Among t [] e = absurd cc
member-Among t (u ∷ ts) e = elim (Bool-cases (same_text t u)) [
  | inl s ↦ (0, ap some (sym (same_text-equal t u s)))
  | inr s ↦ let (i, g) = member-Among t ts (rw (member, s) at e) in (suc i, g)
]

Among-member : (t : Text) (ts : List Text) → Among t ts → member t ts ≡ true
unfolding member
Among-member t [] (i, e) = absurd cc
Among-member t (u ∷ ts) (zero, e) =
    let q : u ≡ t = ground (arith, e) in let h = same_text_refl t in rw q (ground (arith, h))
Among-member t (u ∷ ts) (suc i, e) = let h = Among-member t ts (i, e) in ground (arith, h)

-- What is left of a text with white space around printable characters.
trim-core :
    {Core : Text → Type 0} (value : Text) (p : Padded Core value)
    → All IsPlain p.core × (p.core ≢ [])
    → trim value ≡ p.core
trim-core value p (h, n) =
    ap trim (sym p.spelled) ∙ trim-plain p.front p.core p.back p.blank_front h n p.blank_back

in_range-Numeral :
    (min max : ℕ) (value : Text)
    → in_range min max (parse_u32 value) ≡ true
    → Padded (λ core. (n : ℕ) × Numeral n core × (min ≤ n) × (n ≤ max)) value
unfolding parse_u32
in_range-Numeral min max value e = elim (Option-cases (parse_number (trim value))) [
  | inl q ↦ absurd (ground (arith, rw q at e))
  | inr (n, q) ↦
      let h = rw q at e in
      trim-Padded value
        (n, parse_number-Numeral (trim value) n q, ground (arith, h), ground (arith, h))
]

Numeral-parse_u32 :
    (n : ℕ) (value : Text) → n < 2 ^ 32 → Padded (Numeral n) value → parse_u32 value ≡ some n
unfolding parse_u32
Numeral-parse_u32 n value w p =
    rw (trim-core value p (Numeral-IsPlain n p.core p.is_core))
      (Numeral-parse_number p.core n w p.is_core)

Numeral-in_range :
    (min max : ℕ) (value : Text)
    → max < 2 ^ 32
    → Padded (λ core. (n : ℕ) × Numeral n core × (min ≤ n) × (n ≤ max)) value
    → in_range min max (parse_u32 value) ≡ true
unfolding parse_u32
Numeral-in_range min max value w p =
    let (n, d, l, h) = p.is_core in
    let t = trim-core value p (Numeral-IsPlain n p.core d) in
    rw (t, Numeral-parse_number p.core n (omega (arith, w, h)) d) (ground (arith, l, h))

parse_bool-Padded :
    (value : Text)
    → is_some (parse_bool value) ≡ true
    → Padded (λ core. (w : Text) × Among w boolean_words × Alike core w) value
unfolding parse_bool
parse_bool-Padded value e =
    trim-Padded value
      (to_ascii_lowercase (trim value), bool_of-Among _ e, lowercase-Alike (trim value))

word-parse_bool :
    (b : Bool) (value : Text)
    → Padded (λ core. (w : Text) × Among w (words b) × Alike core w) value
    → parse_bool value ≡ some b
unfolding parse_bool
word-parse_bool b value p =
    let (w, i, a) = p.is_core in
    let r = word-meant b p.core w i a in rw (trim-core value p (r.1, r.2)) r.0

Padded-parse_bool :
    (value : Text)
    → Padded (λ core. (w : Text) × Among w boolean_words × Alike core w) value
    → is_some (parse_bool value) ≡ true
Padded-parse_bool value p =
    let (w, i, a) = p.is_core in
    let (b, k) = boolean-word w i in
    let q : Padded (λ core. (w : Text) × Among w (words b) × Alike core w) value = record {
      front = p.front;
      core = p.core;
      back = p.back;
      blank_front = p.blank_front;
      blank_back = p.blank_back;
      spelled = p.spelled;
      is_core = (w, k, a);
    } in
    ap is_some (word-parse_bool b value q)

-- The bounds of a kind fit a `u32`.
abbrev IsNarrow : SettingKind → Type 0
IsNarrow optional_string = Unit
IsNarrow (int_range min max) = max < 2 ^ 32
IsNarrow (enum variants) = Unit
IsNarrow boolean = Unit

fits-Spells : (kind : SettingKind) (value : Text) → fits kind value ≡ true → Spells kind value
unfolding fits
fits-Spells optional_string value e = tt
fits-Spells (int_range min max) value e = in_range-Numeral min max value e
fits-Spells (enum variants) value e = member-Among value variants e
fits-Spells boolean value e = parse_bool-Padded value e

Spells-fits :
    (kind : SettingKind) (value : Text) → IsNarrow kind → Spells kind value → fits kind value ≡ true
unfolding fits
Spells-fits optional_string value n s = refl
Spells-fits (int_range min max) value n s = Numeral-in_range min max value n s
Spells-fits (enum variants) value n s = Among-member value variants s
Spells-fits boolean value n s = Padded-parse_bool value s

kind_of-IsNarrow : (key : SettingKey) → IsNarrow (kind_of key)
unfolding kind_of
kind_of-IsNarrow SettingKey.last_device = tt
kind_of-IsNarrow SettingKey.voice_max_duration_secs = omega arith
kind_of-IsNarrow SettingKey.voice_reassembly_timeout_secs = omega arith
kind_of-IsNarrow SettingKey.voice_codec = tt
kind_of-IsNarrow SettingKey.voice_codec2_mode = omega arith
kind_of-IsNarrow SettingKey.voice_amrnb_mode = omega arith
kind_of-IsNarrow SettingKey.voice_opus_bitrate_kbps = omega arith
kind_of-IsNarrow SettingKey.voice_opus_bandwidth = tt
kind_of-IsNarrow SettingKey.voice_denoise_enabled = tt
kind_of-IsNarrow SettingKey.voice_partial_play_on_timeout = tt
kind_of-IsNarrow SettingKey.voice_fec_mode = tt
kind_of-IsNarrow SettingKey.voice_nack_mode = tt
kind_of-IsNarrow SettingKey.theme_mode = tt
kind_of-IsNarrow SettingKey.theme_contrast = tt

-- What a text that is set is taken for.
pub record Taken (saved : Bool) (key : SettingKey) (value : Text) (api : SettingsApi) : Type 0 where
  pub taken : (is_rejected (set_str saved key value api).1 ≡ false) ↔ Spells (kind_of key) value
  pub number : (n : ℕ) → n < 2 ^ 32 → Padded (Numeral n) value → parse_u32 value ≡ some n
  pub truth :
      (b : Bool)
      → Padded (λ core. (w : Text) × Among w (words b) × Alike core w) value
      → parse_bool value ≡ some b

-- Setting any setting to any text succeeds, but for the file, exactly if the text is of the kind that
-- the descriptor of the setting announces: any text; decimal digits, a plus allowed in front, whose
-- number lies in the range; one of the variants; or one of `true`, `1`, `yes`, `on`, `false`, `0`,
-- `no` and `off` in letters of either case. Around a number and around such a word there may be any
-- Unicode white space. The digits of a number below 2 ^ 32 are read as that number, the first four
-- words as true and the others as false.
pub set_str-Taken :
    (saved : Bool) (key : SettingKey) (value : Text) (api : SettingsApi) → Taken saved key value api
set_str-Taken saved key value api = record {
  taken = (
    λ e.
        let q = set_str-rejected saved key value api in
        fits-Spells (kind_of key) value (ground (arith, e, q)),
    λ s.
        let h = Spells-fits (kind_of key) value (kind_of-IsNarrow key) s in
        set_str-rejected saved key value api ∙ ap not h,
  );
  number = λ n w p. Numeral-parse_u32 n value w p;
  truth = λ b p. word-parse_bool b value p;
}
