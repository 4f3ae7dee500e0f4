-- ===== src/Meshtastic/Protocol/State/Channels.antt =====
-- The channel list, read as a map from index to channel.
use voicetastic_core.Prelude.{
  ◌≡◌, refl, sym, ap, subst, ◌∙◌, ◌⊎◌, true, false, Option, none, some, List, [], ◌∷◌, ◌++◌, inl,
  inr, Bool-cases, arith, if◌then◌else◌, All,
}
use voicetastic_core.Prelude.Int.{ℤ, pos, negsuc, leb_ℤ, eq_ℤ}
use voicetastic_core.Meshtastic.Messages.{Channel}
use voicetastic_core.Meshtastic.Protocol.State.{
  replace_channel, insert_sorted, sort_by_index, upsert_channel,
}

-- The channel at an index: the first of the list.
unfoldable pub channel_at : {X : Type 0} → ℤ → List (Channel X) → Option (Channel X)
channel_at i [] = none
channel_at i (c ∷ channels) =
    let rest = channel_at i channels in if eq_ℤ (c.index) i then some c else rest

eq_ℤ-eq : (i j : ℤ) → eq_ℤ i j ≡ true → i ≡ j
eq_ℤ-eq (pos a) (pos b) h = ground arith
eq_ℤ-eq (pos a) (negsuc b) h = cc
eq_ℤ-eq (negsuc a) (pos b) h = cc
eq_ℤ-eq (negsuc a) (negsuc b) h = ground arith

eq_ℤ_self : (i : ℤ) → eq_ℤ i i ≡ true
eq_ℤ_self (pos a) = ground arith
eq_ℤ_self (negsuc a) = ground arith

eq_ℤ-sym : (i j : ℤ) → eq_ℤ i j ≡ false → eq_ℤ j i ≡ false
eq_ℤ-sym (pos a) (pos b) h = ground arith
eq_ℤ-sym (pos a) (negsuc b) h = refl
eq_ℤ-sym (negsuc a) (pos b) h = refl
eq_ℤ-sym (negsuc a) (negsuc b) h = ground arith

-- Strictly rising indices: an index is there once at most.
abbrev pub Above : {X : Type 0} → ℤ → List (Channel X) → Type 0
Above i channels = All (λ c. leb_ℤ (c.index) i ≡ false) channels

abbrev pub IsRising : {X : Type 0} → List (Channel X) → Type 0
IsRising [] = Unit
IsRising (c ∷ channels) = Above (c.index) channels × IsRising channels

leb_ℤ-trans : (a b c : ℤ) → leb_ℤ b a ≡ false → leb_ℤ c b ≡ false → leb_ℤ c a ≡ false
leb_ℤ-trans (pos a) (pos b) (pos c) h k = ground arith
leb_ℤ-trans (pos a) (pos b) (negsuc c) h k = cc
leb_ℤ-trans (pos a) (negsuc b) c h k = cc
leb_ℤ-trans (negsuc a) b (pos c) h k = refl
leb_ℤ-trans (negsuc a) (pos b) (negsuc c) h k = cc
leb_ℤ-trans (negsuc a) (negsuc b) (negsuc c) h k = ground arith

-- An index that is neither above nor equal is below.
leb_ℤ-flip : (a b : ℤ) → leb_ℤ a b ≡ true → eq_ℤ b a ≡ false → leb_ℤ b a ≡ false
leb_ℤ-flip (pos a) (pos b) h k = ground arith
leb_ℤ-flip (pos a) (negsuc b) h k = cc
leb_ℤ-flip (negsuc a) (pos b) h k = refl
leb_ℤ-flip (negsuc a) (negsuc b) h k = ground arith

leb_ℤ-of_gt : (a b : ℤ) → leb_ℤ b a ≡ false → leb_ℤ a b ≡ true
leb_ℤ-of_gt (pos a) (pos b) h = ground arith
leb_ℤ-of_gt (pos a) (negsuc b) h = cc
leb_ℤ-of_gt (negsuc a) (pos b) h = refl
leb_ℤ-of_gt (negsuc a) (negsuc b) h = ground arith

ne_of_gt : (a b : ℤ) → leb_ℤ b a ≡ false → eq_ℤ b a ≡ false
ne_of_gt (pos a) (pos b) h = ground arith
ne_of_gt (pos a) (negsuc b) h = refl
ne_of_gt (negsuc a) (pos b) h = refl
ne_of_gt (negsuc a) (negsuc b) h = ground arith

module _ {X : Type 0} where
  -- No channel has the index.
  abbrev pub Absent : ℤ → List (Channel X) → Type 0
  Absent i channels = All (λ c. eq_ℤ (c.index) i ≡ false) channels

  Above-mono :
      (i j : ℤ) (channels : List (Channel X))
      → leb_ℤ j i ≡ false
      → Above j channels
      → Above i channels
  Above-mono i j [] h b = tt
  Above-mono i j (c ∷ channels) h b =
      (leb_ℤ-trans i j (c.index) h b.0, Above-mono i j channels h b.1)

  Above-Absent : (i : ℤ) (channels : List (Channel X)) → Above i channels → Absent i channels
  Above-Absent i [] b = tt
  Above-Absent i (c ∷ channels) b = (ne_of_gt i (c.index) b.0, Above-Absent i channels b.1)

  insert-front :
      (ch : Channel X) (channels : List (Channel X))
      → Above (ch.index) channels
      → insert_sorted ch channels ≡ ch ∷ channels
  unfolding insert_sorted
  insert-front ch [] b = refl
  insert-front ch (c ∷ channels) b = rw (leb_ℤ-of_gt (ch.index) (c.index) b.0) refl

  insert-Above :
      (i : ℤ) (ch : Channel X) (channels : List (Channel X))
      → leb_ℤ (ch.index) i ≡ false
      → Above i channels
      → Above i (insert_sorted ch channels)
  unfolding insert_sorted
  insert-Above i ch [] h b = (h, tt)
  insert-Above i ch (c ∷ channels) h b = elim (Bool-cases (leb_ℤ (ch.index) (c.index))) [
    | inl t ↦ rw t (h, b)
    | inr t ↦ rw t (b.0, insert-Above i ch channels h b.1)
  ]

  insert-IsRising :
      (ch : Channel X) (channels : List (Channel X))
      → IsRising channels
      → Absent (ch.index) channels
      → IsRising (insert_sorted ch channels)
  unfolding insert_sorted
  insert-IsRising ch [] r a = (tt, tt)
  insert-IsRising ch (c ∷ channels) r a = elim (Bool-cases (leb_ℤ (ch.index) (c.index))) [
    | inl t ↦
        let f = leb_ℤ-flip (ch.index) (c.index) t a.0 in
        rw t ((f, Above-mono (ch.index) (c.index) channels f r.0), r)
    | inr t ↦ rw t (insert-Above (c.index) ch channels t r.0, insert-IsRising ch channels r.1 a.1)
  ]

  -- Sorting behind a rising list puts the last channel in its place.
  sort-IsRising :
      (channels : List (Channel X)) → IsRising channels → sort_by_index channels ≡ channels
  unfolding sort_by_index
  sort-IsRising [] r = refl
  sort-IsRising (c ∷ channels) r =
      ap (insert_sorted c) (sort-IsRising channels r.1) ∙ insert-front c channels r.0

  insert-le :
      (ch c : Channel X) (channels : List (Channel X))
      → leb_ℤ (ch.index) (c.index) ≡ true
      → insert_sorted ch (c ∷ channels) ≡ ch ∷ c ∷ channels
  unfolding insert_sorted
  insert-le ch c channels t = rw t refl

  insert-gt :
      (ch c : Channel X) (channels : List (Channel X))
      → leb_ℤ (ch.index) (c.index) ≡ false
      → insert_sorted ch (c ∷ channels) ≡ c ∷ insert_sorted ch channels
  unfolding insert_sorted
  insert-gt ch c channels t = rw t refl

  sort-cons :
      (c : Channel X) (channels : List (Channel X))
      → sort_by_index (c ∷ channels) ≡ insert_sorted c (sort_by_index channels)
  unfolding sort_by_index
  sort-cons c channels = refl

  sort-append :
      (ch : Channel X) (channels : List (Channel X))
      → IsRising channels
      → Absent (ch.index) channels
      → sort_by_index (channels ++ (ch ∷ [])) ≡ insert_sorted ch channels
  sort-append ch [] r a = unfold sort_by_index in refl
  sort-append ch (c ∷ channels) r a =
      sort-cons c (channels ++ (ch ∷ []))
      ∙ ap (insert_sorted c) (sort-append ch channels r.1 a.1)
      ∙ elim (Bool-cases (leb_ℤ (ch.index) (c.index))) [
        | inl t ↦
            let f = leb_ℤ-flip (ch.index) (c.index) t a.0 in
            ap (insert_sorted c)
              (insert-front ch channels (Above-mono (ch.index) (c.index) channels f r.0))
            ∙ insert-gt c ch channels f
            ∙ ap (◌∷◌ ch) (insert-front c channels r.0)
            ∙ sym (insert-le ch c channels t)
        | inr t ↦
            insert-front c (insert_sorted ch channels) (insert-Above (c.index) ch channels t r.0)
            ∙ sym (insert-gt ch c channels t)
      ]

  -- What an update leaves of the list, and what it makes of it as a map.
  pub record Updated (ch : Channel X) (channels result : List (Channel X)) : Type 0 where
    pub above : (i : ℤ) → Above i channels → Above i result
    pub rising : IsRising channels → IsRising result
    pub finds :
        (i : ℤ)
        → channel_at i result ≡ (if eq_ℤ (ch.index) i then some ch else channel_at i channels)

  replace-hit :
      (ch c : Channel X) (channels : List (Channel X))
      → eq_ℤ (c.index) (ch.index) ≡ true
      → replace_channel ch (c ∷ channels) ≡ some (ch ∷ channels)
  unfolding replace_channel
  replace-hit ch c channels t = rw t refl

  replace-miss :
      (ch c : Channel X) (channels : List (Channel X))
      → eq_ℤ (c.index) (ch.index) ≡ false
      → replace_channel ch (c ∷ channels)
        ≡ elim (replace_channel ch channels) [ none ↦ none | some r ↦ some (c ∷ r) ]
  unfolding replace_channel
  replace-miss ch c channels t = rw t refl

  Updated-hit :
      (ch c : Channel X) (channels : List (Channel X))
      → eq_ℤ (c.index) (ch.index) ≡ true
      → Updated ch (c ∷ channels) (ch ∷ channels)
  unfolding channel_at
  Updated-hit ch c channels t =
      let e : c.index ≡ ch.index = eq_ℤ-eq (c.index) (ch.index) t in
      record {
        above = λ i a. (subst (λ j. leb_ℤ j i ≡ false) e a.0, a.1);
        rising = λ r. (subst (λ i. Above i channels) e r.0, r.1);
        finds = λ i.
            rw e (elim (Bool-cases (eq_ℤ (ch.index) i)) [ inl u ↦ rw u refl | inr u ↦ rw u refl ]);
      }

  Updated-miss :
      (ch c : Channel X) (channels result : List (Channel X))
      → eq_ℤ (c.index) (ch.index) ≡ false
      → Updated ch channels result
      → Updated ch (c ∷ channels) (c ∷ result)
  unfolding channel_at
  Updated-miss ch c channels result t u = record {
    above = λ i a. (a.0, u.above i a.1);
    rising = λ r. (u.above (c.index) r.0, u.rising r.1);
    finds = λ i. elim (Bool-cases (eq_ℤ (c.index) i)) [
      | inl v ↦
          let n : eq_ℤ (ch.index) i ≡ false =
            subst (λ k. eq_ℤ (ch.index) k ≡ false) (eq_ℤ-eq (c.index) i v)
              (eq_ℤ-sym (c.index) (ch.index) t) in
          rw (v, n) refl
      | inr v ↦ rw v (u.finds i)
    ];
  }

  replace-cases :
      (ch : Channel X) (channels : List (Channel X))
      → ((replace_channel ch channels ≡ none) × Absent (ch.index) channels)
        ⊎ ((result : List (Channel X)) × (replace_channel ch channels ≡ some result)
            × Updated ch channels result)
  replace-cases ch [] = inl (unfold replace_channel in refl, tt)
  replace-cases ch (c ∷ channels) = elim (Bool-cases (eq_ℤ (c.index) (ch.index))) [
    | inl t ↦ inr (ch ∷ channels, replace-hit ch c channels t, Updated-hit ch c channels t)
    | inr t ↦ elim (replace-cases ch channels) [
      | inl (n, a) ↦ inl (rw (replace-miss ch c channels t, n) refl, (t, a))
      | inr (result, e, u) ↦ inr (
        c ∷ result,
        rw (replace-miss ch c channels t, e) refl,
        Updated-miss ch c channels result t u,
      )
    ]
  ]

  insert-finds :
      (ch : Channel X) (channels : List (Channel X)) (i : ℤ)
      → Absent (ch.index) channels
      → channel_at i (insert_sorted ch channels)
        ≡ (if eq_ℤ (ch.index) i then some ch else channel_at i channels)
  unfolding channel_at
  insert-finds ch [] i a = unfold insert_sorted in refl
  insert-finds ch (c ∷ channels) i a = elim (Bool-cases (leb_ℤ (ch.index) (c.index))) [
    | inl t ↦ rw (insert-le ch c channels t) refl
    | inr t ↦ rw (insert-gt ch c channels t) elim (Bool-cases (eq_ℤ (c.index) i)) [
      | inl v ↦
          let n : eq_ℤ (ch.index) i ≡ false =
            subst (λ k. eq_ℤ (ch.index) k ≡ false) (eq_ℤ-eq (c.index) i v)
              (eq_ℤ-sym (c.index) (ch.index) a.0) in
          rw (v, n) refl
      | inr v ↦ rw v (insert-finds ch channels i a.1)
    ]
  ]

  upsert-known :
      (ch : Channel X) (channels result : List (Channel X))
      → replace_channel ch channels ≡ some result
      → upsert_channel ch channels ≡ result
  unfolding upsert_channel
  upsert-known ch channels result e = ground (arith, e)

  upsert-new :
      (ch : Channel X) (channels : List (Channel X))
      → replace_channel ch channels ≡ none
      → upsert_channel ch channels ≡ sort_by_index (channels ++ (ch ∷ []))
  unfolding upsert_channel
  upsert-new ch channels e = ground (arith, e)

  -- On a list with rising indices an update keeps the indices rising, and writes the map: the channel
  -- stands at its index, and every other index reads as before.
  pub upsert-updates :
      (ch : Channel X) (channels : List (Channel X))
      → IsRising channels
      → IsRising (upsert_channel ch channels)
        × ((i : ℤ)
            → channel_at i (upsert_channel ch channels)
              ≡ (if eq_ℤ (ch.index) i then some ch else channel_at i channels))
  upsert-updates ch channels r = elim (replace-cases ch channels) [
    | inl (n, a) ↦
        rw (upsert-new ch channels n, sort-append ch channels r a)
          (insert-IsRising ch channels r a, λ i. insert-finds ch channels i a)
    | inr (result, e, u) ↦ rw (upsert-known ch channels result e) (u.rising r, u.finds)
  ]
