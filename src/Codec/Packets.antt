-- ===== src/Codec/Packets.antt =====
-- The two iterators walk over what the encoders wrote, byte for byte.
use voicetastic_core.Prelude.{
  ℕ, zero, suc, ◌+◌, ◌/◌, ◌%◌, ◌≤◌, ◌<◌, ◌≡◌, refl, sym, ap, ◌∙◌, true, false, bit_and, Option,
  none, some, List, [], ◌∷◌, ◌++◌, inl, inr, Bool-cases, Option-cases, arith, ltb, leb, length,
  drop, get_or, All, take-append-drop, length-take, length-drop,
}
use voicetastic_core.Prelude.Bits.{IsByte}
use voicetastic_core.Codec.Frames.{
  Cursor, new, amrnb_frame_bytes, slice, from_be, frame_size, take_frame, take_packet, next_frame,
  next_packet, collect_all,
}
use voicetastic_core.Codec.Walk.{IsIterator, Ended, drop-drop, collect_all-Ended}

pub get_or-All {ℓ} :
    {A : Type 0} (P : A → Type ℓ) (xs : List A) (i : ℕ) (d : A) → All P xs → P d → P (get_or xs i d)
get_or-All P [] i d h hd = hd
get_or-All P (x ∷ xs) zero d h hd = h.0
get_or-All P (x ∷ xs) (suc i) d h hd = get_or-All P xs i d h.1 hd

abbrev pub IsSize : Option ℕ → Type 0
IsSize none = Unit
IsSize (some n) = 0 < n

pub amrnb_frame_bytes-IsSize : (mode : ℕ) → IsSize (get_or amrnb_frame_bytes mode none)
amrnb_frame_bytes-IsSize mode = get_or-All IsSize amrnb_frame_bytes mode none (omega arith) tt

frame_size-IsSize : (toc : ℕ) → IsSize (frame_size toc)
unfolding frame_size
frame_size-IsSize toc = amrnb_frame_bytes-IsSize (bit_and (toc / 8) 0x0f)

slice-append-drop :
    (xs : List ℕ) (from n : ℕ) → slice xs from n ++ drop (from + n) xs ≡ drop from xs
slice-append-drop xs from n =
    ap (λ t. slice xs from n ++ t) (sym (drop-drop n from xs)) ∙ take-append-drop n (drop from xs)

next_frame-stays : (c : Cursor) → (next_frame c).1 ≡ none → (next_frame c).0 ≡ c
unfolding next_frame
next_frame-stays c e = elim (Option-cases (frame_size (get_or c.bytes c.pos 0))) [
  | inl f ↦ ground (arith, f)
  | inr (n, f) ↦ ground (arith, f)
]

take_frame-moves :
    (c : Cursor) (size : Option ℕ) (item : List ℕ)
    → IsSize size
    → (take_frame c size).1 ≡ some item
    → ((take_frame c size).0.bytes ≡ c.bytes)
      × (c.pos < (take_frame c size).0.pos)
      × ((take_frame c size).0.pos ≤ length c.bytes)
      × (item ++ drop (take_frame c size).0.pos c.bytes ≡ drop c.pos c.bytes)
unfolding take_frame
take_frame-moves c none item p e = cc
take_frame-moves c (some n) item p e = elim (Bool-cases (ltb (length c.bytes) (c.pos + n))) [
  | inl t ↦ absurd (ground (arith, t))
  | inr t ↦
      let s : slice c.bytes c.pos n ≡ item = ground (arith, t) in
      rw t (refl, ground arith, ground (arith, t), rw (← s) (slice-append-drop c.bytes c.pos n))
]

next_frame-none : (c : Cursor) → leb (length c.bytes) c.pos ≡ true → next_frame c ≡ (c, none)
unfolding next_frame
next_frame-none c e = ground (arith, e)

next_frame-take :
    (c : Cursor)
    → leb (length c.bytes) c.pos ≡ false
    → next_frame c ≡ take_frame c (frame_size (get_or c.bytes c.pos 0))
unfolding next_frame
next_frame-take c e = ground (arith, e)

next_frame-IsIterator : IsIterator next_frame (λ f. f)
next_frame-IsIterator = record {
  stays = next_frame-stays;
  moves = λ c item b w e. elim (Bool-cases (leb (length c.bytes) c.pos)) [
    | inl t ↦ absurd (ground (arith, next_frame-none c t))
    | inr t ↦
        let q = next_frame-take c t in
        let e' = rw q at e in rw q (take_frame-moves c _ item (frame_size-IsSize _) e')
  ];
}

-- The number of bytes before a packet, high byte first: `(n as u16).to_be_bytes()`.
abbrev pub framed : List ℕ → List ℕ
framed packet = (length packet / 256 % 256) ∷ (length packet % 256) ∷ packet

get_two : (xs : List ℕ) → 2 ≤ length xs → get_or xs 0 0 ∷ get_or xs 1 0 ∷ drop 2 xs ≡ xs
get_two [] h = absurd (omega arith)
get_two (a ∷ []) h = absurd (omega arith)
get_two (a ∷ b ∷ xs) h = refl

pub get-drop : (xs : List ℕ) (n i d : ℕ) → get_or (drop n xs) i d ≡ get_or xs (n + i) d
get-drop xs zero i d = ap (λ k. get_or xs k d) (omega arith)
get-drop [] (suc n) i d = refl
get-drop (x ∷ xs) (suc n) i d =
    let e : suc n + i ≡ suc (n + i) = omega arith in rw e (get-drop xs n i d)

next_packet-none :
    (c : Cursor) → ltb (length c.bytes) (c.pos + 2) ≡ true → next_packet c ≡ (c, none)
unfolding next_packet
next_packet-none c e = ground (arith, e)

next_packet-take :
    (c : Cursor)
    → ltb (length c.bytes) (c.pos + 2) ≡ false
    → next_packet c
      ≡ take_packet c (from_be (get_or c.bytes c.pos 0) (get_or c.bytes (c.pos + 1) 0))
unfolding next_packet
next_packet-take c e = ground (arith, e)

take_packet-stays : (c : Cursor) (n : ℕ) → (take_packet c n).1 ≡ none → (take_packet c n).0 ≡ c
unfolding take_packet
take_packet-stays c n e = ground arith

length-slice : (xs : List ℕ) (from n : ℕ) → from + n ≤ length xs → length (slice xs from n) ≡ n
length-slice xs from n h = omega (arith, length-take n (drop from xs), length-drop from xs)

two_at :
    (xs : List ℕ) (pos : ℕ)
    → pos + 2 ≤ length xs
    → get_or xs pos 0 ∷ get_or xs (pos + 1) 0 ∷ drop (pos + 2) xs ≡ drop pos xs
two_at xs pos h =
    let e : pos + 0 ≡ pos = omega arith in
    let g0 : get_or (drop pos xs) 0 0 ≡ get_or xs pos 0 =
      get-drop xs pos 0 0 ∙ ap (λ k. get_or xs k 0) e in
    let l : 2 ≤ length (drop pos xs) = omega (arith, length-drop pos xs) in
    rw (← g0, ← get-drop xs pos 1 0, ← drop-drop 2 pos xs) (get_two (drop pos xs) l)

framed-slice :
    (xs : List ℕ) (pos : ℕ)
    → All IsByte xs
    → let n = from_be (get_or xs pos 0) (get_or xs (pos + 1) 0) in
      pos + 2 + n ≤ length xs → framed (slice xs (pos + 2) n) ++ drop (pos + 2 + n) xs ≡ drop pos xs
framed-slice xs pos b w =
    let high : ℕ = get_or xs pos 0 in
    let low : ℕ = get_or xs (pos + 1) 0 in
    let n : ℕ = from_be high low in
    let hb : IsByte high = get_or-All IsByte xs pos 0 b (omega arith) in
    let lb : IsByte low = get_or-All IsByte xs (pos + 1) 0 b (omega arith) in
    let l : length (slice xs (pos + 2) n) ≡ n = length-slice xs (pos + 2) n w in
    let eh : n / 256 % 256 ≡ high = omega arith in
    let el : n % 256 ≡ low = omega arith in
    rw (l, eh, el, slice-append-drop xs (pos + 2) n) (two_at xs pos (omega arith))

-- A packet, with its length before it, is what lies at the position.
take_packet-moves :
    (c : Cursor) (item : List ℕ)
    → All IsByte c.bytes
    → c.pos + 2 ≤ length c.bytes
    → let n = from_be (get_or c.bytes c.pos 0) (get_or c.bytes (c.pos + 1) 0) in
      (take_packet c n).1 ≡ some item
      → ((take_packet c n).0.bytes ≡ c.bytes)
        × (c.pos < (take_packet c n).0.pos)
        × ((take_packet c n).0.pos ≤ length c.bytes)
        × (framed item ++ drop (take_packet c n).0.pos c.bytes ≡ drop c.pos c.bytes)
unfolding take_packet
take_packet-moves c item b w e =
    let n = from_be (get_or c.bytes c.pos 0) (get_or c.bytes (c.pos + 1) 0) in
    elim (Bool-cases (ltb (length c.bytes) (c.pos + 2 + n))) [
      | inl t ↦ absurd (ground (arith, t))
      | inr t ↦
          let s : slice c.bytes (c.pos + 2) n ≡ item = ground (arith, t) in
          rw t (
            refl,
            ground arith,
            ground (arith, t),
            rw (← s) (framed-slice c.bytes c.pos b (ground (arith, t))),
          )
    ]

pub next_packet-IsIterator : IsIterator next_packet framed
next_packet-IsIterator = record {
  stays = λ c e. elim (Bool-cases (ltb (length c.bytes) (c.pos + 2))) [
    | inl t ↦ rw (next_packet-none c t) refl
    | inr t ↦ let q = next_packet-take c t in rw q (take_packet-stays c _ (rw q at e))
  ];
  moves = λ c item b w e. elim (Bool-cases (ltb (length c.bytes) (c.pos + 2))) [
    | inl t ↦ absurd (ground (arith, next_packet-none c t))
    | inr t ↦
        let q = next_packet-take c t in
        rw q (take_packet-moves c item b (ground (arith, t)) (rw q at e))
  ];
}

-- The two bytes of the length bound it.
pub next_packet-short :
    (c : Cursor) (item : List ℕ)
    → All IsByte c.bytes
    → (next_packet c).1 ≡ some item
    → length item < 65536
unfolding next_packet take_packet
next_packet-short c item b e =
    let high : ℕ = get_or c.bytes c.pos 0 in
    let low : ℕ = get_or c.bytes (c.pos + 1) 0 in
    let hb : IsByte high = get_or-All IsByte c.bytes c.pos 0 b (omega arith) in
    let lb : IsByte low = get_or-All IsByte c.bytes (c.pos + 1) 0 b (omega arith) in
    let l = length-take (from_be high low) (drop (c.pos + 2) c.bytes) in ground (arith, hb, lb, l)

-- The loop over the AMR-NB frames of any payload ends: the frames are the payload up to where it
-- stands, in order, and no further frame follows.
pub next_frame-Ended :
    (payload : List ℕ)
    → All IsByte payload
    → Ended next_frame (λ f. f) (new payload) (collect_all next_frame payload)
next_frame-Ended payload b = collect_all-Ended next_frame-IsIterator payload b

-- The loop over the Opus packets of any payload of bytes ends: the packets, each behind its length, are the
-- payload up to where it stands, in order, and no further packet follows.
pub next_packet-Ended :
    (payload : List ℕ)
    → All IsByte payload
    → Ended next_packet framed (new payload) (collect_all next_packet payload)
next_packet-Ended payload b = collect_all-Ended next_packet-IsIterator payload b
