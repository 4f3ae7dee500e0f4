-- ===== src/Settings/Spelling/Trim.antt =====
-- What `str::trim` takes away, and that it leaves a text without white space as it is.
use voicetastic_core.Prelude.{
  ℕ, zero, suc, ◌≤◌, ◌≡◌, ◌≢◌, refl, sym, ap, subst, ◌∙◌, if◌then◌else◌, Bool, true, false, ◌&&◌,
  ◌||◌, Option, none, some, List, [], ◌∷◌, ◌++◌, inl, inr, Option-cases, List-cases, arith, ltb,
  ◌==◌, length, All, length-append, append_assoc,
}
use voicetastic_core.Settings.Texts.{
  Text, white_space, strip_prefix, strip_any, trim_spaces, trim_start, trim_end, trim,
}
use voicetastic_core.Settings.Spelling.{Among, joined, Blank, Padded}

pub All-Among {κ} : (P : Text → Type κ) (ts : List Text) (t : Text) → Among t ts → All P ts → P t
All-Among P [] t (i, e) h = absurd cc
All-Among P (x ∷ ts) t (zero, e) h = subst P (ground (arith, e)) h.0
All-Among P (x ∷ ts) t (suc i, e) h = All-Among P ts t (i, e) h.1

-- What a test gives that can only succeed on its first branch.
if-some {ℓ} :
    {A : Type ℓ} (b : Bool) (o : Option A) (a : A)
    → (if b then o else none) ≡ some a
    → (b ≡ true) × (o ≡ some a)
if-some true o a e = (refl, e)
if-some false o a e = absurd cc

strip_prefix-some : (p t rest : Text) → strip_prefix p t ≡ some rest → p ++ rest ≡ t
strip_prefix-some [] t rest e = ground (arith, e)
strip_prefix-some (p ∷ ps) [] rest e = absurd cc
strip_prefix-some (p ∷ ps) (c ∷ t) rest e =
    let (s, e') = if-some (p == c) (strip_prefix ps t) rest e in
    let ih = strip_prefix-some ps t rest e' in let q : p ≡ c = ground (arith, s) in rw (q, ih) refl

strip_any-some :
    (ps : List Text) (t rest : Text)
    → strip_any ps t ≡ some rest
    → (p : Text) × Among p ps × (p ++ rest ≡ t)
unfolding strip_any
strip_any-some [] t rest e = absurd cc
strip_any-some (p ∷ ps) t rest e = elim (Option-cases (strip_prefix p t)) [
  | inl n ↦
      let (q, (i, g), h) = strip_any-some ps t rest (rw (strip_any, n) at e) in (q, (suc i, g), h)
  | inr (r, s) ↦
      let k : r ≡ rest = ground (arith, e, s) in
      (p, (zero, refl), ap (◌++◌ p) (sym k) ∙ strip_prefix-some p t r s)
]

trim_spaces-splits :
    (fuel : ℕ) (t : Text) → (front : Text) × Blank front × (front ++ trim_spaces fuel t ≡ t)
unfolding trim_spaces
trim_spaces-splits zero t = ([], ([], tt, refl), refl)
trim_spaces-splits (suc fuel) t = elim (Option-cases (strip_any white_space t)) [
  | inl n ↦ ([], ([], tt, refl), rw (trim_spaces, n) refl)
  | inr (rest, s) ↦
      let (p, a, h) = strip_any-some white_space t rest s in
      let (front, (cs, w, j), g) = trim_spaces-splits fuel rest in
      (
        p ++ front,
        (p ∷ cs, (a, w), ap (◌++◌ p) j),
        rw (trim_spaces, s) (append_assoc p front _ ∙ ap (◌++◌ p) g ∙ h),
      )
]

trim_start-splits : (t : Text) → (front : Text) × Blank front × (front ++ trim_start t ≡ t)
unfolding trim_start
trim_start-splits t = trim_spaces-splits (length t) t

append_nil : (t : Text) → t ++ [] ≡ t
append_nil [] = refl
append_nil (c ∷ t) = ap (◌∷◌ c) (append_nil t)

trim_end-splits : (t : Text) → (back : Text) × Blank back × (trim_end t ++ back ≡ t)
unfolding trim_end
trim_end-splits [] = ([], ([], tt, refl), refl)
trim_end-splits (c ∷ t) = elim (List-cases (trim_start (c ∷ t))) [
  | inl e ↦
      let (front, b, g) = trim_start-splits (c ∷ t) in
      let q : front ≡ c ∷ t = sym (append_nil front) ∙ ap (◌++◌ front) (sym e) ∙ g in
      (c ∷ t, subst Blank q b, rw e refl)
  | inr (x, r, e) ↦ let (back, b, g) = trim_end-splits t in (back, b, rw e (ap (◌∷◌ c) g))
]

-- A text is what `trim` leaves of it, with white space around.
pub trim-Padded : {Core : Text → Type 0} (t : Text) → Core (trim t) → Padded Core t
unfolding trim
trim-Padded t h =
    let (front, f, g) = trim_start-splits t in
    let (back, b, k) = trim_end-splits (trim_start t) in
    record {
      front = front;
      core = trim t;
      back = back;
      blank_front = f;
      blank_back = b;
      spelled = ap (◌++◌ front) k ∙ g;
      is_core = h;
    }

IsStripped : Text → Type 0
IsStripped s = ((t : Text) → strip_any white_space (s ++ t) ≡ some t) × (1 ≤ length s)

white_space-IsStripped : All IsStripped white_space
unfolding strip_any IsStripped
white_space-IsStripped = (
  ((λ t. refl), omega arith),
  (
    ((λ t. refl), omega arith),
    (
      ((λ t. refl), omega arith),
      (
        ((λ t. refl), omega arith),
        (
          ((λ t. refl), omega arith),
          (
            ((λ t. refl), omega arith),
            (
              ((λ t. refl), omega arith),
              (
                ((λ t. refl), omega arith),
                (
                  ((λ t. refl), omega arith),
                  (
                    ((λ t. refl), omega arith),
                    (
                      ((λ t. refl), omega arith),
                      (
                        ((λ t. refl), omega arith),
                        (
                          ((λ t. refl), omega arith),
                          (
                            ((λ t. refl), omega arith),
                            (
                              ((λ t. refl), omega arith),
                              (
                                ((λ t. refl), omega arith),
                                (
                                  ((λ t. refl), omega arith),
                                  (
                                    ((λ t. refl), omega arith),
                                    (
                                      ((λ t. refl), omega arith),
                                      (
                                        ((λ t. refl), omega arith),
                                        (
                                          ((λ t. refl), omega arith),
                                          (
                                            ((λ t. refl), omega arith),
                                            (
                                              ((λ t. refl), omega arith),
                                              (
                                                ((λ t. refl), omega arith),
                                                (((λ t. refl), omega arith), tt),
                                              ),
                                            ),
                                          ),
                                        ),
                                      ),
                                    ),
                                  ),
                                ),
                              ),
                            ),
                          ),
                        ),
                      ),
                    ),
                  ),
                ),
              ),
            ),
          ),
        ),
      ),
    ),
  ),
)

-- A text that does not begin with white space, or is empty, stays.
trim_spaces-solid : (fuel : ℕ) (t : Text) → strip_any white_space t ≡ none → trim_spaces fuel t ≡ t
unfolding trim_spaces
trim_spaces-solid zero t h = refl
trim_spaces-solid (suc fuel) t h = rw (trim_spaces, h) refl

trim_spaces-joined :
    (cs : List Text) (t : Text) (fuel : ℕ)
    → All (λ c. Among c white_space) cs
    → strip_any white_space t ≡ none
    → length (joined cs) ≤ fuel
    → trim_spaces fuel (joined cs ++ t) ≡ t
unfolding trim_spaces IsStripped
trim_spaces-joined [] t fuel w h l = trim_spaces-solid fuel t h
trim_spaces-joined (c ∷ cs) t zero w h l =
    let (g, k) = All-Among IsStripped white_space c w.0 white_space-IsStripped in
    absurd (omega (arith, length-append c (joined cs)))
trim_spaces-joined (c ∷ cs) t (suc fuel) w h l =
    let (g, k) = All-Among IsStripped white_space c w.0 white_space-IsStripped in
    let e : strip_any white_space ((c ++ joined cs) ++ t) ≡ some (joined cs ++ t) =
      ap (strip_any white_space) (append_assoc c (joined cs) t) ∙ g (joined cs ++ t) in
    rw (trim_spaces, e)
      (trim_spaces-joined cs t fuel w.1 h (omega (arith, length-append c (joined cs))))

trim_start-front :
    (front t : Text) → Blank front → strip_any white_space t ≡ none → trim_start (front ++ t) ≡ t
unfolding trim_start
trim_start-front front t (cs, w, e) h =
    ap (λ f. trim_spaces (length (f ++ t)) (f ++ t)) (sym e)
    ∙ trim_spaces-joined cs t (length (joined cs ++ t)) w h
        (omega (arith, length-append (joined cs) t))

-- A printable character of ASCII.
abbrev pub IsPlain : ℕ → Type 0
IsPlain c = (33 ≤ c) × (c ≤ 126)

abbrev is_outer : Text → Bool
is_outer [] = false
is_outer (p ∷ ps) = ltb p 33 || ltb 126 p

abbrev all_outer : List Text → Bool
all_outer [] = true
all_outer (p ∷ ps) = is_outer p && all_outer ps

strip_prefix-plain :
    (p : Text) (c : ℕ) (t : Text) → IsPlain c → is_outer p ≡ true → strip_prefix p (c ∷ t) ≡ none
strip_prefix-plain [] c t h e = absurd cc
strip_prefix-plain (x ∷ p) c t h e = ground (arith, h, e)

strip_any-plain :
    (ps : List Text) (c : ℕ) (t : Text)
    → IsPlain c
    → all_outer ps ≡ true
    → strip_any ps (c ∷ t) ≡ none
unfolding strip_any
strip_any-plain [] c t h e = refl
strip_any-plain (p ∷ ps) c t h e =
    rw (strip_any, strip_prefix-plain p c t h (ground (arith, e)))
      (strip_any-plain ps c t h (ground (arith, e)))

plain-solid : (c : ℕ) (t : Text) → IsPlain c → strip_any white_space (c ∷ t) ≡ none
plain-solid c t h = strip_any-plain white_space c t h refl

trim_end-Blank : (back : Text) → Blank back → trim_end back ≡ []
unfolding trim_end strip_any
trim_end-Blank [] b = refl
trim_end-Blank (c ∷ back) b =
    let e : trim_start (c ∷ back) ≡ [] =
      ap trim_start (sym (append_nil (c ∷ back))) ∙ trim_start-front (c ∷ back) [] b refl in
    rw (trim_end, e) refl

trim_end-plain : (core back : Text) → All IsPlain core → Blank back → trim_end (core ++ back) ≡ core
unfolding trim_end
trim_end-plain [] back h b = trim_end-Blank back b
trim_end-plain (c ∷ core) back h b =
    let e : trim_start (c ∷ (core ++ back)) ≡ c ∷ (core ++ back) =
      trim_start-front [] (c ∷ (core ++ back)) ([], tt, refl) (plain-solid c _ h.0) in
    rw (trim_end, e) (ap (◌∷◌ c) (trim_end-plain core back h.1 b))

-- White space around printable characters goes, and nothing else.
pub trim-plain :
    (front core back : Text)
    → Blank front
    → All IsPlain core
    → core ≢ []
    → Blank back
    → trim (front ++ (core ++ back)) ≡ core
unfolding trim
trim-plain front [] back f h n b = absurd (n refl)
trim-plain front (c ∷ core) back f h n b =
    ap trim_end (trim_start-front front (c ∷ (core ++ back)) f (plain-solid c _ h.0))
    ∙ trim_end-plain (c ∷ core) back h b
