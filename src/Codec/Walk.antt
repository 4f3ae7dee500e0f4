-- ===== src/Codec/Walk.antt =====
-- What both iterators have in common: a walk moves on, keeps the bytes and ends.
use voicetastic_core.Prelude.{
  ℕ, zero, suc, ◌+◌, ◌-◌, ◌≤◌, ◌<◌, ◌≡◌, refl, sym, ap, subst, ◌∙◌, Option, none, some, List, [],
  ◌∷◌, ◌++◌, map, inl, inr, Option-cases, arith, length, drop, All, append_assoc,
}
use voicetastic_core.Prelude.Bits.{IsByte}
use voicetastic_core.Proto.Builder.Chunks.{concat}
use voicetastic_core.Codec.Frames.{Cursor, new, collect, collect_all}

drop-nil : (n : ℕ) → drop {A = ℕ} n [] ≡ []
drop-nil zero = refl
drop-nil (suc n) = refl

pub drop-drop : (n m : ℕ) (xs : List ℕ) → drop n (drop m xs) ≡ drop (m + n) xs
drop-drop n zero xs = ap (λ k. drop k xs) (omega arith)
drop-drop n (suc m) [] = drop-nil n ∙ sym (drop-nil (suc m + n))
drop-drop n (suc m) (x ∷ xs) =
    let e : suc m + n ≡ suc (m + n) = omega arith in rw e (drop-drop n m xs)

module _ (next : Cursor → Cursor × Option (List ℕ)) (print : List ℕ → List ℕ) where
  -- What an iterator does at a position within its bytes: it stays where it gives nothing, and an
  -- item, printed, is what it moves over.
  pub record IsIterator : Type 0 where
    pub stays : (c : Cursor) → (next c).1 ≡ none → (next c).0 ≡ c
    pub moves :
        (c : Cursor) (item : List ℕ)
        → All IsByte c.bytes
        → c.pos ≤ length c.bytes
        → (next c).1 ≡ some item
        → ((next c).0.bytes ≡ c.bytes)
          × (c.pos < (next c).0.pos)
          × ((next c).0.pos ≤ length c.bytes)
          × (print item ++ drop (next c).0.pos c.bytes ≡ drop c.pos c.bytes)

-- The items of a walk, printed one after the other, and the bytes that it leaves.
abbrev pub spelled : (List ℕ → List ℕ) → List (List ℕ) → List ℕ
spelled print items = concat (map print items)

-- A walk that has ended: it gave the bytes up to where it stands, and gives no more.
pub record Ended (next : Cursor → Cursor × Option (List ℕ)) (print : List ℕ → List ℕ) (c : Cursor)
    (r : Cursor × List (List ℕ)) : Type 0 where
  pub kept : r.0.bytes ≡ c.bytes
  pub within : r.0.pos ≤ length c.bytes
  pub spells : spelled print r.1 ++ drop r.0.pos c.bytes ≡ drop c.pos c.bytes
  pub over : (next r.0).1 ≡ none

module _ {next : Cursor → Cursor × Option (List ℕ)} {print : List ℕ → List ℕ}
    (i : IsIterator next print) where
  collect-none : (fuel : ℕ) (c : Cursor) → (next c).1 ≡ none → collect next (suc fuel) c ≡ (c, [])
  unfolding collect
  collect-none fuel c e = ground (arith, i.stays c e)

  collect-some :
      (fuel : ℕ) (c : Cursor) (item : List ℕ)
      → (next c).1 ≡ some item
      → collect next (suc fuel) c
        ≡ ((collect next fuel (next c).0).0, item ∷ (collect next fuel (next c).0).1)
  unfolding collect
  collect-some fuel c item e = ground (arith, e)

  -- With fuel for the bytes that are left the walk ends.
  pub collect-Ended :
      (fuel : ℕ) (c : Cursor)
      → All IsByte c.bytes
      → c.pos ≤ length c.bytes
      → length c.bytes - c.pos < fuel
      → Ended next print c (collect next fuel c)
  collect-Ended zero c b w h = absurd (omega arith)
  collect-Ended (suc fuel) c b w h = elim (Option-cases (next c).1) [
    | inl e ↦
        rw (collect-none fuel c e) (record { kept = refl; within = w; spells = refl; over = e })
    | inr (item, e) ↦
        let m = i.moves c item b w e in
        let b' : All IsByte (next c).0.bytes = subst (All IsByte) (sym m.0) b in
        let l : length (next c).0.bytes ≡ length c.bytes = ap length m.0 in
        let r = collect-Ended fuel (next c).0 b' (omega arith) (omega arith) in
        let spell =
          subst
            (λ bs.
              spelled print (collect next fuel (next c).0).1
                ++ drop (collect next fuel (next c).0).0.pos bs
              ≡ drop (next c).0.pos bs)
            m.0 r.spells in
        rw (collect-some fuel c item e) (record {
          kept = r.kept ∙ m.0;
          within = omega (arith, r.within, l);
          spells = append_assoc (print item) _ _ ∙ ap (λ xs. print item ++ xs) spell ∙ m.3;
          over = r.over;
        })
  ]

  -- What holds of each item that the iterator gives holds of all of a walk.
  collect-All :
      (P : List ℕ → Type 0)
      → ((c : Cursor) (item : List ℕ) → All IsByte c.bytes → (next c).1 ≡ some item → P item)
      → (fuel : ℕ) (c : Cursor) → All IsByte c.bytes
      → c.pos ≤ length c.bytes
      → All P (collect next fuel c).1
  unfolding collect
  collect-All P h zero c b w = tt
  collect-All P h (suc fuel) c b w = elim (Option-cases (next c).1) [
    | inl e ↦ rw (collect-none fuel c e) tt
    | inr (item, e) ↦
        let m = i.moves c item b w e in
        let b' : All IsByte (next c).0.bytes = subst (All IsByte) (sym m.0) b in
        let l : length (next c).0.bytes ≡ length c.bytes = ap length m.0 in
        rw (collect-some fuel c item e)
          (h c item b e, collect-All P h fuel (next c).0 b' (omega arith))
  ]

  pub collect_all-All :
      (P : List ℕ → Type 0)
      → ((c : Cursor) (item : List ℕ) → All IsByte c.bytes → (next c).1 ≡ some item → P item)
      → (bytes : List ℕ) → All IsByte bytes
      → All P (collect_all next bytes).1
  unfolding collect_all
  collect_all-All P h bytes b = collect-All P h (suc (length bytes)) (new bytes) b (omega arith)

  -- From the first byte on, the walk ends within the fuel that the loops take.
  pub collect_all-Ended :
      (bytes : List ℕ) → All IsByte bytes → Ended next print (new bytes) (collect_all next bytes)
  unfolding collect_all
  collect_all-Ended bytes b =
      collect-Ended (suc (length bytes)) (new bytes) b (omega arith) (omega arith)
