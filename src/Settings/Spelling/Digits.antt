-- ===== src/Settings/Spelling/Digits.antt =====
-- `str::parse::<u32>` reads exactly the numerals below 2 ^ 32.
use voicetastic_core.Prelude.{
  ℕ, ◌+◌, ◌-◌, ◌*◌, ◌^◌, ◌≤◌, ◌<◌, ◌≡◌, ◌≢◌, refl, sym, ap, ◌∙◌, false, none, some, List, [], ◌∷◌,
  map, inl, inr, Bool-cases, Option-cases, arith, subst, ◌==◌, if◌then◌else◌, is_empty, All,
}
use voicetastic_core.Settings.Texts.{Text, push_decimal, read_decimal, some_digits, parse_number}
use voicetastic_core.Settings.Spelling.{value_of, Decimal, Numeral}
use voicetastic_core.Settings.Spelling.Trim.{IsPlain}

push_decimal-some :
    (acc c acc' : ℕ)
    → push_decimal acc c ≡ some acc'
    → (d : ℕ) × (d ≤ 9) × (b'0' + d ≡ c) × (acc * 10 + d ≡ acc')
push_decimal-some acc c acc' e = (c - b'0', ground (arith, e), ground (arith, e), ground (arith, e))

read_decimal-some :
    (t : Text) (acc n : ℕ)
    → read_decimal acc t ≡ some n
    → (ds : List ℕ) × All (λ d. d ≤ 9) ds × (value_of acc ds ≡ n) × (map (λ d. b'0' + d) ds ≡ t)
unfolding read_decimal
read_decimal-some [] acc n e = ([], tt, ground (arith, e), refl)
read_decimal-some (c ∷ t) acc n e = elim (Option-cases (push_decimal acc c)) [
  | inl q ↦ absurd (ground (arith, rw (read_decimal, q) at e))
  | inr (acc', q) ↦
      let (d, l, w, v) = push_decimal-some acc c acc' q in
      let (ds, ls, vs, ws) = read_decimal-some t acc' n (rw (read_decimal, q) at e) in
      (d ∷ ds, (l, ls), ap (λ a. value_of a ds) v ∙ vs, rw (w, ws) refl)
]

value_of-grows : (ds : List ℕ) (acc : ℕ) → acc ≤ value_of acc ds
value_of-grows [] acc = omega arith
value_of-grows (d ∷ ds) acc = omega (arith, value_of-grows ds (acc * 10 + d))

push_decimal-digit :
    (acc d : ℕ) → d ≤ 9 → acc * 10 + d < 2 ^ 32 → push_decimal acc (b'0' + d) ≡ some (acc * 10 + d)
push_decimal-digit acc d l h = ground (arith, l, h)

read_decimal-digits :
    (ds : List ℕ) (acc : ℕ)
    → All (λ d. d ≤ 9) ds
    → value_of acc ds < 2 ^ 32
    → read_decimal acc (map (λ d. b'0' + d) ds) ≡ some (value_of acc ds)
unfolding read_decimal
read_decimal-digits [] acc l h = refl
read_decimal-digits (d ∷ ds) acc l h =
    rw
      (
        read_decimal,
        push_decimal-digit acc d l.0 (omega (arith, h, value_of-grows ds (acc * 10 + d))),
      )
      (read_decimal-digits ds (acc * 10 + d) l.1 h)

read_decimal-Decimal :
    (c : ℕ) (t : Text) (n : ℕ) → read_decimal 0 (c ∷ t) ≡ some n → Decimal n (c ∷ t)
read_decimal-Decimal c t n e = from_digits (read_decimal-some (c ∷ t) 0 n e)
  where
    from_digits :
        (ds : List ℕ) × All (λ d. d ≤ 9) ds × (value_of 0 ds ≡ n) × (map (λ d. b'0' + d) ds ≡ c ∷ t)
        → Decimal n (c ∷ t)
    from_digits ([], l, v, w) = absurd cc
    from_digits (d ∷ ds, l, v, w) = record {
      leading = d;
      others = ds;
      small = l;
      worth = v;
      written = w;
    }

pub parse_number-Numeral : (t : Text) (n : ℕ) → parse_number t ≡ some n → Numeral n t
unfolding parse_number
parse_number-Numeral [] n e = absurd cc
parse_number-Numeral (c ∷ t) n e = elim (Bool-cases (c == b'+')) [
  | inl s ↦ let q : c ≡ b'+' = ground (arith, s) in inr (t, signed t (rw s at e), rw q refl)
  | inr s ↦ inl (read_decimal-Decimal c t n (rw s at e))
]
  where
    signed : (t : Text) → (if is_empty t then none else read_decimal 0 t) ≡ some n → Decimal n t
    signed [] e = absurd cc
    signed (c ∷ t) e = read_decimal-Decimal c t n e

filled : {x : ℕ} {xs : List ℕ} → x ∷ xs ≢ []
filled e = cc

read_decimal-written : (n : ℕ) (t : Text) (d : Decimal n t) → n < 2 ^ 32 → read_decimal 0 t ≡ some n
read_decimal-written n t d h =
    ap (read_decimal 0) (sym d.written)
    ∙ read_decimal-digits (d.leading ∷ d.others) 0 d.small (subst (λ m. m < 2 ^ 32) (sym d.worth) h)
    ∙ ap some d.worth

some_digits-written : (n : ℕ) (t : Text) (d : Decimal n t) → n < 2 ^ 32 → some_digits t ≡ some n
unfolding read_decimal
some_digits-written n [] d h = absurd (filled d.written)
some_digits-written n (c ∷ t) d h = read_decimal-written n (c ∷ t) d h

-- The first character is a digit, hence no plus.
parse_number-Decimal : (n : ℕ) (t : Text) → Decimal n t → parse_number t ≡ read_decimal 0 t
unfolding parse_number
parse_number-Decimal n t d =
    ap parse_number (sym d.written)
    ∙ rw (no_plus d.leading d.small.0) refl
    ∙ ap (read_decimal 0) d.written
  where
    no_plus : (x : ℕ) → x ≤ 9 → (b'0' + x == b'+') ≡ false
    no_plus x h = ground (arith, h)

pub Numeral-parse_number : (t : Text) (n : ℕ) → n < 2 ^ 32 → Numeral n t → parse_number t ≡ some n
unfolding parse_number
Numeral-parse_number t n h (inl d) = parse_number-Decimal n t d ∙ read_decimal-written n t d h
Numeral-parse_number t n h (inr (digits, d, e)) =
    ap parse_number (sym e) ∙ some_digits-written n digits d h

digits-IsPlain : (ds : List ℕ) → All (λ d. d ≤ 9) ds → All IsPlain (map (λ d. b'0' + d) ds)
digits-IsPlain [] l = tt
digits-IsPlain (d ∷ ds) l =
    let small = l.0 in ((omega (arith, small), omega (arith, small)), digits-IsPlain ds l.1)

Decimal-IsPlain : (n : ℕ) (t : Text) → Decimal n t → All IsPlain t
Decimal-IsPlain n t d =
    subst (All IsPlain) d.written (digits-IsPlain (d.leading ∷ d.others) d.small)

pub Numeral-IsPlain : (n : ℕ) (t : Text) → Numeral n t → All IsPlain t × (t ≢ [])
Numeral-IsPlain n t (inl d) = (Decimal-IsPlain n t d, λ e. absurd (filled (d.written ∙ e)))
Numeral-IsPlain n t (inr (digits, d, e)) = (
  subst (All IsPlain) e ((omega arith, omega arith), Decimal-IsPlain n digits d),
  λ q. absurd (filled (e ∙ q)),
)
