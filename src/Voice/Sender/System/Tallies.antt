-- ===== src/Voice/Sender/System/Tallies.antt =====
-- crates/voicetastic-core/src/voice/sender.rs: how the retransmits move the counts of those under way.
use voicetastic_core.Prelude.{
  ℕ, ◌+◌, ◌-◌, ◌≤◌, true, false, Option, none, some, List, [], ◌∷◌, ◌++◌, ◌==◌, ==_iff,
  if◌then◌else◌, ◌≡◌, refl, sym, ap, ◌∙◌, Bool-cases, inl, inr, arith,
}
use voicetastic_core.Prelude.Assoc.{lookup, remove}
use voicetastic_core.Prelude.Assoc.Laws.{
  Distinct, number-IsTest, lookup-remove_self, lookup-remove_other, lookup-cons_other,
  lookup-update_self, lookup-update_other, Distinct-remove, Distinct-update,
}
use voicetastic_core.Voice.Sender.{unwrap_or, lowered}
use voicetastic_core.Voice.Sender.Requests.{Retransmit, batch, waking}

abbrev pub at : ℕ → ℕ → ℕ
at j id = if id == j then 1 else 0

abbrev pub task_id : Retransmit → ℕ
task_id (batch id plan) = id
task_id (waking id deadline) = id

-- The batches and the wake-ups of a send.
unfoldable pub pending_of : ℕ → List Retransmit → ℕ
pending_of id [] = 0
pending_of id (task ∷ tasks) = at (task_id task) id + pending_of id tasks

pub pending_of-append :
    (id : ℕ) (ts us : List Retransmit)
    → pending_of id (ts ++ us) ≡ pending_of id ts + pending_of id us
unfolding pending_of
pending_of-append id [] us = omega arith
pending_of-append id (t ∷ ts) us = let ih = pending_of-append id ts us in omega (arith, ih)

unfoldable pub tally : ℕ → List (ℕ × ℕ) → ℕ
unfolding lookup
tally id counts = unwrap_or (lookup ◌==◌ id counts) 0

tally-cons_equal : (id j v : ℕ) (t : List (ℕ × ℕ)) → (id == j) ≡ true → tally id ((j, v) ∷ t) ≡ v
unfolding tally lookup
tally-cons_equal id j v t on = rw on refl

pub tally-raised :
    (id j : ℕ) (m : List (ℕ × ℕ))
    → tally id ((j, tally j m + 1) ∷ remove ◌==◌ j m) ≡ tally id m + at j id
unfolding tally
tally-raised id j m = elim (Bool-cases (id == j)) [
  | inl on ↦
      let same = ap (λ k. tally k m + 1) (sym ((==_iff id j).0 on)) in
      tally-cons_equal id j (tally j m + 1) (remove ◌==◌ j m) on ∙ rw on same
  | inr off ↦
      let kept =
        ap (λ o. unwrap_or o 0)
          (lookup-cons_other ◌==◌ number-IsTest id j (tally j m + 1) (remove ◌==◌ j m) off
            ∙ lookup-remove_other ◌==◌ number-IsTest id j m off) in
      let nothing : at j id ≡ 0 = rw off refl in kept ∙ omega (arith, nothing)
]

-- The count that an entry leaves at its own key.
lowered-count :
    (j c : ℕ) (m : List (ℕ × ℕ))
    → Distinct ◌==◌ m
    → 1 ≤ c
    → lookup ◌==◌ j m ≡ some c
    → tally j (lowered j (some c) m) + 1 ≡ c
unfolding tally lowered
lowered-count j c m d h e = elim (Bool-cases (c - 1 == 0)) [
  | inl on ↦ rw (on, lookup-remove_self ◌==◌ number-IsTest j m d) (ground (arith, on, h))
  | inr off ↦ rw (off, lookup-update_self ◌==◌ number-IsTest j c (c - 1) m e) (omega (arith, h))
]

lowered-other :
    (id j c : ℕ) (m : List (ℕ × ℕ))
    → (id == j) ≡ false
    → tally id (lowered j (some c) m) ≡ tally id m
unfolding tally lowered
lowered-other id j c m off = elim (Bool-cases (c - 1 == 0)) [
  | inl z ↦ rw (z, lookup-remove_other ◌==◌ number-IsTest id j m off) refl
  | inr z ↦ rw (z, lookup-update_other ◌==◌ number-IsTest id j (c - 1) m off) refl
]

pub tally-lowered :
    (id j : ℕ) (m : List (ℕ × ℕ)) (o : Option ℕ)
    → lookup ◌==◌ j m ≡ o
    → Distinct ◌==◌ m
    → 1 ≤ unwrap_or o 0
    → tally id (lowered j o m) + at j id ≡ tally id m
unfolding tally
tally-lowered id j m none e d h = absurd (omega (arith, h))
tally-lowered id j m (some c) e d h = elim (Bool-cases (id == j)) [
  | inl on ↦
      let own = lowered-count j c m d h e in
      let found : tally j m ≡ c = ap (λ o. unwrap_or o 0) e in
      rw (on, (==_iff id j).0 on) (own ∙ sym found)
  | inr off ↦ rw off (omega (arith, lowered-other id j c m off))
]

pub Distinct-lowered :
    (j : ℕ) (o : Option ℕ) (m : List (ℕ × ℕ)) → Distinct ◌==◌ m → Distinct ◌==◌ (lowered j o m)
unfolding lowered
Distinct-lowered j none m d = d
Distinct-lowered j (some c) m d = elim (Bool-cases (c - 1 == 0)) [
  | inl on ↦ rw on (Distinct-remove ◌==◌ number-IsTest j m d)
  | inr off ↦ rw off (Distinct-update ◌==◌ number-IsTest j (c - 1) m d)
]
