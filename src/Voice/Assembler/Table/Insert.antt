-- ===== src/Voice/Assembler/Table/Insert.antt =====
-- crates/voicetastic-core/src/voice/assembler/mod.rs: `evict_for_global_cap` and the insertion keep
-- the invariant of the table.
use voicetastic_core.Prelude.{
  ℕ, ◌<◌, ◌≡◌, ◌≢◌, refl, sym, ◌∙◌, false, none, some, List, [], ◌∷◌, arith, leb, leb→le, length,
  Bool-cases, Option-cases, inl, inr,
}
use voicetastic_core.Prelude.Assoc.{lookup}
use voicetastic_core.Prelude.Assoc.Laws.{
  length-remove-some, lookup-remove-none, lookup-cons_self, lookup-cons_other,
}
use voicetastic_core.Proto.Consts.{max_in_progress_global, max_in_progress_per_sender}
use voicetastic_core.Voice.Assembler.State.{
  AssemblyState, AssemblerInner, SenderKey, same_key, per_sender_dec,
}
use voicetastic_core.Voice.Assembler.Finalize.{is_listed}
use voicetastic_core.Voice.Assembler.Accept.{
  oldest, retire, evict_for_global_cap, insert, inc_count,
}
use voicetastic_core.Voice.Assembler.Table.Counts.{
  same_key-IsTest, same_or_not, sender_count, count-remove, get-inc, Distinct-inc,
}
use voicetastic_core.Voice.Assembler.Table.Blacklist.{listed-push_blacklist}
use voicetastic_core.Voice.Assembler.Table.Invariant.{IsTable, retire-IsTable}

-- The oldest entry is one of the table.
lookup-oldest :
    (t : List (SenderKey × AssemblyState)) (key : SenderKey) (at : ℕ)
    → oldest t ≡ some (key, at)
    → lookup same_key key t ≢ none
unfolding oldest lookup
lookup-oldest [] key at e n = ground arith
lookup-oldest ((j, s) ∷ t) key at e n =
    ground (arith, e, n, lookup-oldest t key at, same_key-IsTest.self j, same_key-IsTest.self key)

oldest-none : (t : List (SenderKey × AssemblyState)) → oldest t ≡ none → length t ≡ 0
unfolding oldest
oldest-none [] e = refl
oldest-none ((j, s) ∷ t) e = ground (arith, e)

found_of :
    (t : List (SenderKey × AssemblyState)) (key : SenderKey)
    → lookup same_key key t ≢ none
    → (s : AssemblyState) × (lookup same_key key t ≡ some s)
found_of t key n = elim (Option-cases (lookup same_key key t)) [
  | inl e ↦ absurd (n e)
  | inr found ↦ found
]

-- A key that is found and one that is not are different.
pub apart_keys :
    (t : List (SenderKey × AssemblyState)) (k key : SenderKey)
    → lookup same_key k t ≢ none
    → lookup same_key key t ≡ none
    → same_key k key ≡ false
apart_keys t k key f n = elim (Bool-cases (same_key k key)) [
  | inl h ↦ let p = same_key-IsTest.sound k key h in absurd (f (rw (p) n))
  | inr h ↦ h
]

-- A table with room for `key`.
record HasRoom (key : SenderKey) (inner : AssemblerInner) : Type 0 where
  sound : IsTable inner
  room : length inner.in_progress < max_in_progress_global
  absent : lookup same_key key inner.in_progress ≡ none
  unlisted : is_listed key inner.blacklist ≡ false
  below_cap : sender_count key.0 inner.in_progress < max_in_progress_per_sender

retire-HasRoom :
    (inner : AssemblerInner) (key victim : SenderKey) (now : ℕ)
    → IsTable inner
    → lookup same_key victim inner.in_progress ≢ none
    → lookup same_key key inner.in_progress ≡ none
    → is_listed key inner.blacklist ≡ false
    → sender_count key.0 inner.in_progress < max_in_progress_per_sender
    → HasRoom key (retire inner victim now)
unfolding retire per_sender_dec
retire-HasRoom inner key victim now v f n u c =
    let found = found_of inner.in_progress victim f in
    record {
      sound = retire-IsTable inner victim found.0 now found.1 v;
      room =
          omega (
            arith,
            length-remove-some same_key victim found.0 inner.in_progress found.1,
            v.bounded,
          );
      absent = lookup-remove-none same_key same_key-IsTest key victim inner.in_progress n;
      unlisted =
          listed-push_blacklist key victim now inner.blacklist u
            (apart_keys inner.in_progress victim key f n);
      below_cap = omega (arith, count-remove key.0 victim found.0 inner.in_progress found.1, c);
    }

evict-HasRoom :
    (inner : AssemblerInner) (key : SenderKey) (now : ℕ)
    → IsTable inner
    → lookup same_key key inner.in_progress ≡ none
    → is_listed key inner.blacklist ≡ false
    → sender_count key.0 inner.in_progress < max_in_progress_per_sender
    → HasRoom key (evict_for_global_cap inner now)
evict-HasRoom inner key now v n u c =
    elim (Bool-cases (leb max_in_progress_global (length inner.in_progress))) [
      | inr h ↦
          let p : evict_for_global_cap inner now ≡ inner =
            unfold evict_for_global_cap in ground (arith, h) in
          rw (p)
            (record { sound = v; room = ground arith; absent = n; unlisted = u; below_cap = c })
      | inl h ↦ elim (Option-cases (oldest inner.in_progress)) [
        | inl e ↦ absurd (omega (arith, oldest-none inner.in_progress e, leb→le _ _ h))
        | inr ((victim, at), e) ↦
            let p : evict_for_global_cap inner now ≡ retire inner victim now =
              unfold evict_for_global_cap in ground (arith, h, e) in
            rw (p) (
              retire-HasRoom inner key victim now v (lookup-oldest inner.in_progress victim at e) n
                u c)
      ]
    ]

add-IsTable :
    (inner : AssemblerInner) (key : SenderKey) (s : AssemblyState)
    → HasRoom key inner
    → IsTable (record inner {
      in_progress = (key, s) ∷ inner.in_progress;
      per_sender = inc_count key.0 inner.per_sender;
    })
unfolding sender_count
add-IsTable inner key s r = record {
  distinct = (r.absent, r.sound.distinct);
  senders = Distinct-inc key.0 inner.per_sender r.sound.senders;
  counted = λ f. omega (arith, get-inc f key.0 inner.per_sender, r.sound.counted f);
  capped = λ f. elim (same_or_not f key.0) [
    | inl (h, p) ↦
        let c : sender_count f inner.in_progress < max_in_progress_per_sender =
          rw (p) r.below_cap in
        rw (h) (omega (arith, c))
    | inr h ↦ rw (h) (omega (arith, r.sound.capped f))
  ];
  bounded = omega (arith, r.room);
  forgotten = r.sound.forgotten;
  apart = λ k x p. elim (Bool-cases (same_key k key)) [
    | inl h ↦ let q = same_key-IsTest.sound k key h in rw (q) r.unlisted
    | inr h ↦
        r.sound.apart k x
          (sym (lookup-cons_other same_key same_key-IsTest k key s inner.in_progress h) ∙ p)
  ];
}

-- A new message is inserted within the caps, and is found.
pub insert-IsTable :
    (inner : AssemblerInner) (key : SenderKey) (s : AssemblyState) (now : ℕ)
    → IsTable inner
    → lookup same_key key inner.in_progress ≡ none
    → is_listed key inner.blacklist ≡ false
    → sender_count key.0 inner.in_progress < max_in_progress_per_sender
    → IsTable (insert inner key s now)
unfolding insert
insert-IsTable inner key s now v n u c =
    add-IsTable (evict_for_global_cap inner now) key s (evict-HasRoom inner key now v n u c)

pub lookup-insert :
    (inner : AssemblerInner) (key : SenderKey) (s : AssemblyState) (now : ℕ)
    → lookup same_key key (insert inner key s now).in_progress ≡ some s
unfolding insert
lookup-insert inner key s now = lookup-cons_self same_key same_key-IsTest key s _
