-- ===== src/Codec/Timeline.antt =====
-- A partial payload keeps its place on the time line: fixed strides, and concealed frames.
use voicetastic_core.Prelude.{
  ℕ, zero, suc, ◌+◌, ◌-◌, ◌*◌, ◌/◌, ◌≤◌, ◌<◌, ◌≡◌, refl, sym, ◌⊎◌, inl, inr, true, false, ◌||◌,
  ◌&&◌, some, List, [], ◌∷◌, Bool-cases, arith, ltb, leb, length, get_elem?, All,
}
use voicetastic_core.Codec.Frames.{slice}
use voicetastic_core.Codec.Duration.{
  Range, frame, lost, frame_overlaps_gap, feed_at, feeds_loop, feeds,
}
use native.Mathlib.Nat.{div-eq_of_lt-le}

module _ (payload : List ℕ) (gaps : List Range) (size : ℕ) (pos : 0 < size) where
  pub feeds-stop :
      (fuel i : ℕ)
      → leb (i + size) (length payload) ≡ false
      → feeds_loop payload gaps size (suc fuel) i ≡ []
  unfolding feeds_loop
  feeds-stop fuel i e = ground (arith, e)

  pub feeds-step :
      (fuel i : ℕ)
      → leb (i + size) (length payload) ≡ true
      → feeds_loop payload gaps size (suc fuel) i
        ≡ feed_at payload gaps size i ∷ feeds_loop payload gaps size fuel (i + size)
  unfolding feeds_loop
  feeds-step fuel i e = ground (arith, e)

  feeds_loop-count :
      (fuel i : ℕ)
      → i ≤ length payload
      → length payload - i < fuel
      → (length (feeds_loop payload gaps size fuel i) * size ≤ length payload - i)
        × (length payload - i < (length (feeds_loop payload gaps size fuel i) + 1) * size)
  feeds_loop-count zero i w h = absurd (omega arith)
  feeds_loop-count (suc fuel) i w h = elim (Bool-cases (leb (i + size) (length payload))) [
    | inl t ↦
        let le : i + size ≤ length payload = ground (arith, t) in
        let ih = feeds_loop-count fuel (i + size) le (omega arith) in
        rw (feeds-step fuel i t) (grind (arith, ih), grind (arith, ih))
    | inr t ↦
        let gt : length payload < i + size = ground (arith, t) in
        rw (feeds-stop fuel i t) (omega arith, omega arith)
  ]

  -- Whatever the gaps are, a decoder is fed as many frames as the payload holds.
  pub length-feeds : length (feeds payload gaps size) ≡ length payload / size
  unfolding feeds
  length-feeds =
      let c = feeds_loop-count (suc (length payload)) 0 (omega arith) (omega arith) in
      sym (div-eq_of_lt-le size (omega (arith, c.0)) (omega (arith, c.1)))

  get-feeds_loop :
      (fuel i k : ℕ)
      → length payload - i < fuel
      → i + (k + 1) * size ≤ length payload
      → get_elem? (feeds_loop payload gaps size fuel i) k
        ≡ some (feed_at payload gaps size (i + k * size))
  get-feeds_loop zero i k h w = absurd (omega arith)
  get-feeds_loop (suc fuel) i zero h w =
      let le : i + size ≤ length payload = omega arith in
      let z : i + 0 * size ≡ i = omega arith in rw (feeds-step fuel i (ground arith), z) refl
  get-feeds_loop (suc fuel) i (suc k) h w =
      let le : i + size ≤ length payload = grind arith in
      let z : i + suc k * size ≡ i + size + k * size = grind arith in
      rw (feeds-step fuel i (ground arith), z)
        (get-feeds_loop fuel (i + size) k (omega arith) (grind arith))

-- A byte lies in a gap.
abbrev pub InGap : ℕ → List Range → Type 0
InGap j [] = ⊥
InGap j (g ∷ gaps) = ((g.start ≤ j) × (j < g.end)) ⊎ InGap j gaps

-- Some byte of the stretch from `start` on lies in a gap.
abbrev pub Touched : ℕ → ℕ → List Range → Type 0
Touched start len gaps = (j : ℕ) × (start ≤ j) × (j < start + len) × InGap j gaps

abbrev pub IsGap : Range → Type 0
IsGap g = g.start < g.end

overlaps-cons :
    (start len : ℕ) (g : Range) (gaps : List Range)
    → frame_overlaps_gap start len (g ∷ gaps)
      ≡ ((ltb start g.end && ltb g.start (start + len)) || frame_overlaps_gap start len gaps)
unfolding frame_overlaps_gap
overlaps-cons start len g gaps = refl

overlaps-Touched :
    (start len : ℕ) (gaps : List Range)
    → 0 < len
    → All IsGap gaps
    → frame_overlaps_gap start len gaps ≡ true
    → Touched start len gaps
unfolding frame_overlaps_gap
overlaps-Touched start len [] p h e = absurd (cc)
overlaps-Touched start len (g ∷ gaps) p h e =
    elim (Bool-cases (ltb start g.end && ltb g.start (start + len))) [
      | inl t ↦ elim (Bool-cases (ltb start g.start)) [
        | inl u ↦ (g.start, ground (arith, u), ground (arith, t), inl (omega arith, h.0))
        | inr u ↦ (start, omega arith, omega arith, inl (ground (arith, u), ground (arith, t)))
      ]
      | inr t ↦
          let r = overlaps-Touched start len gaps p h.1 (ground (arith, t)) in
          (r.0, r.1, r.2, inr r.3)
    ]

Touched-overlaps :
    (start len : ℕ) (gaps : List Range)
    → Touched start len gaps
    → frame_overlaps_gap start len gaps ≡ true
Touched-overlaps start len [] t = absurd t.3
Touched-overlaps start len (g ∷ gaps) (j, l, u, m) = rw (overlaps-cons start len g gaps) elim m [
  | inl h ↦ ground arith
  | inr h ↦ let r = Touched-overlaps start len gaps (j, l, u, h) in ground (arith, r)
]

-- What the decoder is fed at each place: the frame's own bytes where no gap touches it, and the
-- stand-in where one does.
pub record Conceals (payload : List ℕ) (gaps : List Range) (size k : ℕ) : Type 0 where
  pub concealed : Touched (k * size) size gaps → get_elem? (feeds payload gaps size) k ≡ some lost
  pub heard :
      ¬ Touched (k * size) size gaps
      → get_elem? (feeds payload gaps size) k ≡ some (frame (slice payload (k * size) size))

-- The stretch of payload that a place takes is concealed when one of its bytes lies in a gap, and
-- decoded as it is when none does, at every place of the payload.
pub feeds-Conceals :
    (payload : List ℕ) (gaps : List Range) (size k : ℕ)
    → 0 < size
    → All IsGap gaps
    → (k + 1) * size ≤ length payload
    → Conceals payload gaps size k
unfolding feeds
feeds-Conceals payload gaps size k p h w =
    let g =
      get-feeds_loop payload gaps size p (suc (length payload)) 0 k (omega arith) (omega arith) in
    let z : 0 + k * size ≡ k * size = omega arith in
    record {
      concealed = λ t. ground (arith, g, z, Touched-overlaps (k * size) size gaps t);
      heard = λ n. elim (Bool-cases (frame_overlaps_gap (k * size) size gaps)) [
        | inl e ↦ absurd (n (overlaps-Touched (k * size) size gaps p h e))
        | inr e ↦ ground (arith, g, z, e)
      ];
    }
