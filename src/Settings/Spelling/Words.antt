-- ===== src/Settings/Spelling/Words.antt =====
-- `parse_bool` takes exactly the boolean words, in letters of either case.
use voicetastic_core.Prelude.{
  ℕ, zero, suc, ◌+◌, ◌≤◌, ◌≡◌, ◌≢◌, refl, sym, ap, ◌∙◌, Bool, true, false, ◌&&◌, some, List, [],
  ◌∷◌, map, ◌++◌, ◌⊎◌, inl, inr, Bool-cases, arith, leb, if◌then◌else◌, All,
}
use voicetastic_core.Prelude.Assoc.{lookup}
use voicetastic_core.Settings.Texts.{Text, codes, same_text, to_ascii_lowercase}
use voicetastic_core.Settings.Generic.{bool_of}
use voicetastic_core.Settings.Outcome.{is_some}
use voicetastic_core.Settings.Spelling.{Among, Alike, ended, same, capital, words, boolean_words}
use voicetastic_core.Settings.Spelling.Trim.{All-Among, IsPlain}

pub same_text-equal : (t u : Text) → same_text t u ≡ true → t ≡ u
unfolding same_text
same_text-equal [] [] e = refl
same_text-equal [] (y ∷ ys) e = absurd cc
same_text-equal (x ∷ xs) [] e = absurd cc
same_text-equal (x ∷ xs) (y ∷ ys) e =
    let q : x ≡ y = ground (arith, e) in
    let h : same_text xs ys ≡ true = ground (arith, e) in
    let r = same_text-equal xs ys h in rw (q, r) refl

pub same_text_refl : (t : Text) → same_text t t ≡ true
unfolding same_text
same_text_refl [] = refl
same_text_refl (x ∷ xs) = let h = same_text_refl xs in ground (arith, h)

lookup-Among :
    (t : Text) (table : List (Text × Bool))
    → is_some (lookup same_text t table) ≡ true
    → Among t (map (λ e. e.0) table)
unfolding lookup
lookup-Among t [] e = absurd cc
lookup-Among t ((u, b) ∷ table) e = elim (Bool-cases (same_text t u)) [
  | inl s ↦ (0, ap some (sym (same_text-equal t u s)))
  | inr s ↦ let (i, g) = lookup-Among t table (rw (lookup, s) at e) in (suc i, g)
]

pub bool_of-Among : (t : Text) → is_some (bool_of t) ≡ true → Among t boolean_words
unfolding bool_of
bool_of-Among t e = lookup-Among t table e
  where
    table : List (Text × Bool)
    table =
        (codes "true", true)
        ∷ (codes "1", true)
        ∷ (codes "yes", true)
        ∷ (codes "on", true)
        ∷ (codes "false", false)
        ∷ (codes "0", false)
        ∷ (codes "no", false)
        ∷ (codes "off", false)
        ∷ []

pub lowercase-Alike : (t : Text) → Alike t (to_ascii_lowercase t)
unfolding to_ascii_lowercase
lowercase-Alike [] = ended
lowercase-Alike (c ∷ t) = elim (Bool-cases (leb b'A' c && leb c b'Z')) [
  | inl e ↦
      rw (to_ascii_lowercase, e)
        (capital c t _ (ground (arith, e)) (ground (arith, e)) (lowercase-Alike t))
  | inr e ↦ rw (to_ascii_lowercase, e) (same c t _ (lowercase-Alike t))
]

is_capital : (c : ℕ) → b'A' ≤ c → c ≤ b'Z' → (leb b'A' c && leb c b'Z') ≡ true
is_capital c l h = ground (arith, l, h)

is_small : (c : ℕ) → b'A' ≤ c → (leb b'A' (c + 32) && leb (c + 32) b'Z') ≡ false
is_small c l = ground (arith, l)

Alike-lowercase : (t w : Text) → Alike t w → to_ascii_lowercase t ≡ to_ascii_lowercase w
unfolding to_ascii_lowercase
Alike-lowercase _ _ ended = refl
Alike-lowercase _ _ (same c t w a) =
    ap (◌∷◌ (if leb b'A' c && leb c b'Z' then c + 32 else c)) (Alike-lowercase t w a)
Alike-lowercase _ _ (capital c t w l h a) =
    rw (is_capital c l h, is_small c l) (ap (◌∷◌ (c + 32)) (Alike-lowercase t w a))

all_plain : Text → Bool
all_plain [] = true
all_plain (c ∷ t) = (leb 33 c && leb c 126) && all_plain t

all_plain-IsPlain : (t : Text) → all_plain t ≡ true → All IsPlain t
unfolding all_plain
all_plain-IsPlain [] e = tt
all_plain-IsPlain (c ∷ t) e =
    ((ground (arith, e), ground (arith, e)), all_plain-IsPlain t (ground (arith, e)))

-- In small letters a boolean word is read, and it is printable.
IsWord : Bool → Text → Type 0
IsWord b w = (bool_of (to_ascii_lowercase w) ≡ some b) × All IsPlain w × (w ≢ [])

is_word :
    (b : Bool) (c : ℕ) (t : Text)
    → bool_of (to_ascii_lowercase (c ∷ t)) ≡ some b
    → all_plain (c ∷ t) ≡ true
    → IsWord b (c ∷ t)
unfolding IsWord
is_word b c t e p = (e, all_plain-IsPlain (c ∷ t) p, λ q. cc)

words-IsWord : (b : Bool) → All (IsWord b) (words b)
unfolding bool_of to_ascii_lowercase all_plain
words-IsWord true = (
  is_word true _ _ refl refl,
  (is_word true _ _ refl refl, (is_word true _ _ refl refl, (is_word true _ _ refl refl, tt))),
)
words-IsWord false = (
  is_word false _ _ refl refl,
  (is_word false _ _ refl refl, (is_word false _ _ refl refl, (is_word false _ _ refl refl, tt))),
)

Alike-IsPlain : (t w : Text) → Alike t w → All IsPlain w → All IsPlain t
Alike-IsPlain _ _ ended p = tt
Alike-IsPlain _ _ (same c t w a) p = (p.0, Alike-IsPlain t w a p.1)
Alike-IsPlain _ _ (capital c t w l h a) p =
    ((omega (arith, l), omega (arith, h)), Alike-IsPlain t w a p.1)

-- Two texts with the same letters are both empty or both not.
Alike-filled : (t w : Text) → Alike t w → w ≢ [] → t ≢ []
Alike-filled _ _ ended f = f
Alike-filled _ _ (same c t w a) f = λ e. cc
Alike-filled _ _ (capital c t w l h a) f = λ e. cc

-- A text with the letters of a boolean word is read as that word, and is printable.
pub word-meant :
    (b : Bool) (t w : Text)
    → Among w (words b)
    → Alike t w
    → (bool_of (to_ascii_lowercase t) ≡ some b) × All IsPlain t × (t ≢ [])
unfolding IsWord
word-meant b t w i a =
    let (e, p, f) = All-Among (IsWord b) (words b) w i (words-IsWord b) in
    (ap bool_of (Alike-lowercase t w a) ∙ e, Alike-IsPlain t w a p, Alike-filled t w a f)

Among-append : (ts us : List Text) (t : Text) → Among t (ts ++ us) → Among t ts ⊎ Among t us
Among-append [] us t i = inr i
Among-append (u ∷ ts) us t (zero, e) = inl (zero, e)
Among-append (u ∷ ts) us t (suc i, e) = elim (Among-append ts us t (i, e)) [
  | inl (j, g) ↦ inl (suc j, g)
  | inr r ↦ inr r
]

-- A boolean word is one for yes or one for no.
pub boolean-word : (w : Text) → Among w boolean_words → (b : Bool) × Among w (words b)
boolean-word w i = elim (Among-append (words true) (words false) w i) [
  | inl t ↦ (true, t)
  | inr f ↦ (false, f)
]
