-- ===== src/Voice/Assembler/Table/Blacklist.antt =====
-- crates/voicetastic-core/src/voice/assembler/finalize.rs and mod.rs: what pruning and pushing do to
-- the blacklist.
use voicetastic_core.Prelude.{
  ℕ, zero, suc, ◌-◌, ◌≤◌, ◌≡◌, refl, true, false, List, [], ◌∷◌, ◌++◌, arith, length, drop,
  length-append, length-drop,
}
use voicetastic_core.Proto.Consts.{blacklist_max}
use voicetastic_core.Voice.Assembler.State.{SenderKey, same_key}
use voicetastic_core.Voice.Assembler.Finalize.{is_listed, push_blacklist}
use voicetastic_core.Voice.Assembler.Accept.{prune_blacklist}
use voicetastic_core.Voice.Assembler.Table.Counts.{same_key-IsTest}

pub length-prune_blacklist :
    (bl : List (SenderKey × ℕ)) (now ttl : ℕ) → length (prune_blacklist bl now ttl) ≤ length bl
unfolding prune_blacklist
length-prune_blacklist [] now ttl = omega arith
length-prune_blacklist ((k, t) ∷ bl) now ttl = ground (arith, length-prune_blacklist bl now ttl)

pub listed-prune_blacklist :
    (key : SenderKey) (bl : List (SenderKey × ℕ)) (now ttl : ℕ)
    → is_listed key bl ≡ false
    → is_listed key (prune_blacklist bl now ttl) ≡ false
unfolding prune_blacklist is_listed
listed-prune_blacklist key [] now ttl h = refl
listed-prune_blacklist key ((k, t) ∷ bl) now ttl h =
    ground (arith, listed-prune_blacklist key bl now ttl)

listed-append :
    (key k : SenderKey) (now : ℕ) (bl : List (SenderKey × ℕ))
    → is_listed key bl ≡ false
    → same_key k key ≡ false
    → is_listed key (bl ++ ((k, now) ∷ [])) ≡ false
unfolding is_listed
listed-append key k now [] h n = ground (arith, n)
listed-append key k now ((j, t) ∷ bl) h n = ground (arith, listed-append key k now bl)

listed-drop :
    (key : SenderKey) (n : ℕ) (bl : List (SenderKey × ℕ))
    → is_listed key bl ≡ false
    → is_listed key (drop n bl) ≡ false
unfolding is_listed
listed-drop key zero bl h = h
listed-drop key (suc n) [] h = refl
listed-drop key (suc n) ((k, t) ∷ bl) h = ground (arith, listed-drop key n bl)

pub listed-push_blacklist :
    (key k : SenderKey) (now : ℕ) (bl : List (SenderKey × ℕ))
    → is_listed key bl ≡ false
    → same_key k key ≡ false
    → is_listed key (push_blacklist bl k now) ≡ false
unfolding push_blacklist
listed-push_blacklist key k now bl h n = ground (
  arith,
  h,
  listed-append key k now bl h n,
  listed-drop key (length (bl ++ ((k, now) ∷ [])) - blacklist_max) (bl ++ ((k, now) ∷ []))
      (listed-append key k now bl h n),
)

pub length-push_blacklist :
    (k : SenderKey) (now : ℕ) (bl : List (SenderKey × ℕ))
    → length bl ≤ blacklist_max
    → length (push_blacklist bl k now) ≤ blacklist_max
unfolding push_blacklist
length-push_blacklist k now bl h =
    ground
      (arith, h, length-append bl ((k, now) ∷ []), λ (m : ℕ). length-drop m (bl ++ ((k, now) ∷ [])))

is_listed-append_self :
    (k : SenderKey) (now : ℕ) (bl : List (SenderKey × ℕ))
    → is_listed k (bl ++ ((k, now) ∷ [])) ≡ true
unfolding is_listed
is_listed-append_self k now [] = ground (arith, same_key-IsTest.self k)
is_listed-append_self k now ((j, t) ∷ bl) = ground (arith, is_listed-append_self k now bl)

-- Dropping fewer than all entries keeps the last one.
is_listed-drop_self :
    (k : SenderKey) (now n : ℕ) (bl : List (SenderKey × ℕ))
    → n ≤ length bl
    → is_listed k (drop n (bl ++ ((k, now) ∷ []))) ≡ true
is_listed-drop_self k now zero bl h = is_listed-append_self k now bl
is_listed-drop_self k now (suc n) [] h = absurd (omega arith)
is_listed-drop_self k now (suc n) ((j, t) ∷ bl) h = is_listed-drop_self k now n bl (omega arith)

pub is_listed-push_blacklist :
    (k : SenderKey) (now : ℕ) (bl : List (SenderKey × ℕ))
    → is_listed k (push_blacklist bl k now) ≡ true
unfolding push_blacklist
is_listed-push_blacklist k now bl = ground (
  arith,
  length-append bl ((k, now) ∷ []),
  is_listed-append_self k now bl,
  is_listed-drop_self k now (length (bl ++ ((k, now) ∷ [])) - blacklist_max) bl,
)
