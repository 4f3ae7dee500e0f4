-- ===== src/Voice/Assembler/Table/Invariant.antt =====
-- crates/voicetastic-core/src/voice/assembler: the invariant of the table, and that each primitive
-- change of it keeps it.
use Prim.Native.String.{String}
use voicetastic_core.Prelude.{
  ℕ, ◌≤◌, ◌≡◌, refl, sym, ◌∙◌, false, none, some, List, [], arith, length, Bool-cases, inl, inr,
}
use voicetastic_core.Prelude.Assoc.{lookup, remove}
use voicetastic_core.Prelude.Assoc.Laws.{
  Distinct, length-update, length-remove, lookup-remove_other, lookup-remove_self,
  lookup-update_other, Distinct-remove, Distinct-update,
}
use voicetastic_core.Proto.Consts.{
  max_in_progress_global, max_in_progress_per_sender, blacklist_max,
}
use voicetastic_core.Voice.Assembler.State.{
  AssemblyState, AssemblerInner, SenderKey, same_key, same_sender, per_sender_dec,
}
use voicetastic_core.Voice.Assembler.Finalize.{is_listed}
use voicetastic_core.Voice.Assembler.Accept.{prune_blacklist, retire, put}
use voicetastic_core.Voice.Assembler.Table.Counts.{
  same_key-IsTest, sender_count, get_count, count-remove, count-update, get-dec, Distinct-dec,
}
use voicetastic_core.Voice.Assembler.Table.Blacklist.{
  length-prune_blacklist, listed-prune_blacklist, length-push_blacklist, listed-push_blacklist,
}

pub record IsTable (inner : AssemblerInner) : Type 0 where
  pub distinct : Distinct same_key inner.in_progress
  pub senders : Distinct same_sender inner.per_sender
  -- The counts are those of the table, and within the cap.
  pub counted :
      (from : String) → get_count from inner.per_sender ≡ sender_count from inner.in_progress
  pub capped : (from : String) → sender_count from inner.in_progress ≤ max_in_progress_per_sender
  pub bounded : length inner.in_progress ≤ max_in_progress_global
  pub forgotten : length inner.blacklist ≤ blacklist_max
  -- A message in progress is not one that is over.
  pub apart :
      (key : SenderKey) (s : AssemblyState)
      → lookup same_key key inner.in_progress ≡ some s
      → is_listed key inner.blacklist ≡ false

pub empty-IsTable : IsTable (record { in_progress = []; per_sender = []; blacklist = [] })
unfolding lookup sender_count get_count is_listed
empty-IsTable = record {
  distinct = tt;
  senders = tt;
  counted = λ f. refl;
  capped = λ f. omega arith;
  bounded = omega arith;
  forgotten = omega arith;
  apart = λ k s e. refl;
}

pub prune-IsTable :
    (inner : AssemblerInner) (now ttl : ℕ)
    → IsTable inner
    → IsTable (record inner { blacklist = prune_blacklist inner.blacklist now ttl })
prune-IsTable inner now ttl v = record {
  distinct = v.distinct;
  senders = v.senders;
  counted = v.counted;
  capped = v.capped;
  bounded = v.bounded;
  forgotten = omega (arith, length-prune_blacklist inner.blacklist now ttl, v.forgotten);
  apart = λ k s e. listed-prune_blacklist k inner.blacklist now ttl (v.apart k s e);
}

-- What an entry of a table without `key` was in the table.
pub lookup-removed :
    (k key : SenderKey) (s : AssemblyState) (t : List (SenderKey × AssemblyState))
    → Distinct same_key t
    → lookup same_key k (remove same_key key t) ≡ some s
    → (same_key key k ≡ false) × (lookup same_key k t ≡ some s)
lookup-removed k key s t d e = elim (Bool-cases (same_key k key)) [
  | inl h ↦
      let p = same_key-IsTest.sound k key h in
      let n : lookup same_key key (remove same_key key t) ≡ none =
        lookup-remove_self same_key same_key-IsTest key t d in
      absurd cc
  | inr h ↦ (
    elim (Bool-cases (same_key key k)) [
      | inl g ↦ let p = same_key-IsTest.sound key k g in absurd cc
      | inr g ↦ g
    ],
    sym (lookup-remove_other same_key same_key-IsTest k key t h) ∙ e,
  )
]

pub retire-IsTable :
    (inner : AssemblerInner) (key : SenderKey) (s : AssemblyState) (now : ℕ)
    → lookup same_key key inner.in_progress ≡ some s
    → IsTable inner
    → IsTable (retire inner key now)
unfolding retire per_sender_dec
retire-IsTable inner key s now e v = record {
  distinct = Distinct-remove same_key same_key-IsTest key inner.in_progress v.distinct;
  senders = Distinct-dec key.0 inner.per_sender v.senders;
  counted = λ f. omega (
    arith,
    get-dec f key.0 inner.per_sender v.senders,
    count-remove f key s inner.in_progress e,
    v.counted f,
  );
  capped = λ f. omega (arith, count-remove f key s inner.in_progress e, v.capped f);
  bounded = omega (arith, length-remove same_key key inner.in_progress, v.bounded);
  forgotten = length-push_blacklist key now inner.blacklist v.forgotten;
  apart = λ k w p.
      let r = lookup-removed k key w inner.in_progress v.distinct p in
      listed-push_blacklist k key now inner.blacklist (v.apart k w r.1) r.0;
}

-- A write through `&mut state` of an entry that is there.
pub put-IsTable :
    (inner : AssemblerInner) (key : SenderKey) (s w : AssemblyState)
    → lookup same_key key inner.in_progress ≡ some s
    → IsTable inner
    → IsTable (put inner key w)
put-IsTable inner key s w e v = record {
  distinct = Distinct-update same_key same_key-IsTest key w inner.in_progress v.distinct;
  senders = v.senders;
  counted = λ f. omega (arith, count-update f key w inner.in_progress, v.counted f);
  capped = λ f. omega (arith, count-update f key w inner.in_progress, v.capped f);
  bounded = omega (arith, length-update same_key key w inner.in_progress, v.bounded);
  forgotten = v.forgotten;
  apart = λ k x p. elim (Bool-cases (same_key k key)) [
    | inl h ↦
        let q = same_key-IsTest.sound k key h in
        let n : is_listed key inner.blacklist ≡ false = v.apart key s e in cc
    | inr h ↦
        v.apart k x
          (sym (lookup-update_other same_key same_key-IsTest k key w inner.in_progress h) ∙ p)
  ];
}
