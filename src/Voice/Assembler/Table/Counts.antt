-- ===== src/Voice/Assembler/Table/Counts.antt =====
-- crates/voicetastic-core/src/voice/assembler/state.rs and mod.rs: the counts per sender agree with
-- the table through `per_sender_dec` and the insertion.
use Prim.Native.String.{String}
use voicetastic_core.Prelude.{
  ℕ, ◌+◌, ◌-◌, ◌≡◌, refl, Bool, true, false, none, some, List, [], ◌∷◌, arith, Bool-cases,
  Option-cases, inl, inr, ◌⊎◌,
}
use voicetastic_core.Prelude.Assoc.{lookup, remove, update}
use voicetastic_core.Prelude.Assoc.Laws.{
  IsTest, Distinct, lookup-cons_self, lookup-cons_other, lookup-update_self, lookup-update_other,
  lookup-remove_other, lookup-remove_self, Distinct-remove, Distinct-update,
}
use voicetastic_core.Voice.Assembler.State.{
  AssemblyState, SenderKey, same_key, same_sender, dec_count,
}
use voicetastic_core.Voice.Assembler.Accept.{inc_count}
use text.Mathlib.TextEquality.{eq_iff}

pub same_sender-IsTest : IsTest same_sender
same_sender-IsTest = record { sound = λ a b. (eq_iff a b).0; self = λ a. (eq_iff a a).1 refl }

pub same_key-IsTest : IsTest same_key
same_key-IsTest = record {
  sound = λ j k e. ground (arith, (eq_iff j.0 k.0).0);
  self = λ k. ground (arith, (eq_iff k.0 k.0).1 refl);
}

-- One, when a message is of the sender.
abbrev pub one_if : Bool → ℕ
one_if true = 1
one_if false = 0

-- How many entries of the table a sender has.
unfoldable pub sender_count : String → List (SenderKey × AssemblyState) → ℕ
sender_count from [] = 0
sender_count from ((k, s) ∷ t) = one_if (same_sender from k.0) + sender_count from t

-- What the map of counts says of a sender.
unfoldable pub get_count : String → List (String × ℕ) → ℕ
get_count from counts = elim (lookup same_sender from counts) [ none ↦ 0 | some n ↦ n ]

pub count-remove :
    (from : String) (k : SenderKey) (s : AssemblyState) (t : List (SenderKey × AssemblyState))
    → lookup same_key k t ≡ some s
    → sender_count from (remove same_key k t) + one_if (same_sender from k.0) ≡ sender_count from t
unfolding lookup remove sender_count
count-remove from k s [] e = ground arith
count-remove from k s ((j, x) ∷ t) e =
    ground (arith, count-remove from k s t, same_key-IsTest.sound k j)

pub count-update :
    (from : String) (k : SenderKey) (s : AssemblyState) (t : List (SenderKey × AssemblyState))
    → sender_count from (update same_key k s t) ≡ sender_count from t
unfolding update sender_count
count-update from k s [] = refl
count-update from k s ((j, x) ∷ t) = ground (arith, count-update from k s t)

-- The test that `from` and `to` are one sender, with the equation that it gives.
pub same_or_not :
    (from to : String)
    → ((same_sender from to ≡ true) × (from ≡ to)) ⊎ (same_sender from to ≡ false)
same_or_not from to = elim (Bool-cases (same_sender from to)) [
  | inl h ↦ inl (h, same_sender-IsTest.sound from to h)
  | inr h ↦ inr h
]

get-inc_self :
    (to : String) (counts : List (String × ℕ))
    → get_count to (inc_count to counts) ≡ get_count to counts + 1
unfolding get_count inc_count
get-inc_self to counts = elim (Option-cases (lookup same_sender to counts)) [
  | inl e ↦ ground (arith, e, lookup-cons_self same_sender same_sender-IsTest to 1 counts)
  | inr (n, e) ↦
      ground (arith, e, lookup-update_self same_sender same_sender-IsTest to n (n + 1) counts e)
]

get-inc_other :
    (from to : String) (counts : List (String × ℕ))
    → same_sender from to ≡ false
    → get_count from (inc_count to counts) ≡ get_count from counts
unfolding get_count inc_count
get-inc_other from to counts h = elim (Option-cases (lookup same_sender to counts)) [
  | inl e ↦ ground (arith, e, lookup-cons_other same_sender same_sender-IsTest from to 1 counts h)
  | inr (n, e) ↦
      ground (arith, e, lookup-update_other same_sender same_sender-IsTest from to (n + 1) counts h)
]

pub get-inc :
    (from to : String) (counts : List (String × ℕ))
    → get_count from (inc_count to counts) ≡ get_count from counts + one_if (same_sender from to)
get-inc from to counts = elim (same_or_not from to) [
  | inl (h, p) ↦ rw (p, same_sender-IsTest.self to) (get-inc_self to counts)
  | inr h ↦ rw (h) (omega (arith, get-inc_other from to counts h))
]

get-dec_self :
    (to : String) (counts : List (String × ℕ))
    → Distinct same_sender counts
    → get_count to (dec_count to counts) ≡ get_count to counts - 1
unfolding get_count dec_count
get-dec_self to counts d = elim (Option-cases (lookup same_sender to counts)) [
  | inl e ↦ ground (arith, e)
  | inr (n, e) ↦ ground (
    arith,
    e,
    lookup-remove_self same_sender same_sender-IsTest to counts d,
    lookup-update_self same_sender same_sender-IsTest to n (n - 1) counts e,
  )
]

get-dec_other :
    (from to : String) (counts : List (String × ℕ))
    → same_sender from to ≡ false
    → get_count from (dec_count to counts) ≡ get_count from counts
unfolding get_count dec_count
get-dec_other from to counts h = elim (Option-cases (lookup same_sender to counts)) [
  | inl e ↦ ground (arith, e)
  | inr (n, e) ↦ ground (
    arith,
    e,
    lookup-remove_other same_sender same_sender-IsTest from to counts h,
    lookup-update_other same_sender same_sender-IsTest from to (n - 1) counts h,
  )
]

pub get-dec :
    (from to : String) (counts : List (String × ℕ))
    → Distinct same_sender counts
    → get_count from (dec_count to counts) ≡ get_count from counts - one_if (same_sender from to)
get-dec from to counts d = elim (same_or_not from to) [
  | inl (h, p) ↦ rw (p, same_sender-IsTest.self to) (get-dec_self to counts d)
  | inr h ↦ rw (h) (omega (arith, get-dec_other from to counts h))
]

pub Distinct-inc :
    (to : String) (counts : List (String × ℕ))
    → Distinct same_sender counts
    → Distinct same_sender (inc_count to counts)
unfolding inc_count
Distinct-inc to counts d = elim (Option-cases (lookup same_sender to counts)) [
  | inl e ↦ let p : inc_count to counts ≡ (to, 1) ∷ counts = ground (arith, e) in rw (p) (e, d)
  | inr (n, e) ↦
      let p : inc_count to counts ≡ update same_sender to (n + 1) counts = ground (arith, e) in
      rw (p) (Distinct-update same_sender same_sender-IsTest to (n + 1) counts d)
]

pub Distinct-dec :
    (to : String) (counts : List (String × ℕ))
    → Distinct same_sender counts
    → Distinct same_sender (dec_count to counts)
unfolding dec_count
Distinct-dec to counts d = elim (Option-cases (lookup same_sender to counts)) [
  | inl e ↦ let p : dec_count to counts ≡ counts = ground (arith, e) in rw (p) d
  | inr (n, e) ↦ ground (
    arith,
    e,
    d,
    Distinct-update same_sender same_sender-IsTest to (n - 1) counts d,
    Distinct-remove same_sender same_sender-IsTest to counts d,
  )
]
