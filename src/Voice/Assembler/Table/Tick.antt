-- ===== src/Voice/Assembler/Table/Tick.antt =====
-- crates/voicetastic-core/src/voice/assembler/mod.rs: `tick` keeps the invariant of the table, and
-- ends every message whose time is up.
use voicetastic_core.Prelude.{
  ℕ, ◌≡◌, refl, ◌⊎◌, inl, inr, false, none, some, List, [], ◌∷◌, arith, Bool-cases, Option-cases,
}
use voicetastic_core.Prelude.Assoc.{lookup}
use voicetastic_core.Prelude.Assoc.Laws.{
  lookup-remove_other, lookup-remove-none, lookup-update_other, lookup-update-none,
}
use voicetastic_core.Proto.Mac.{Sha256}
use voicetastic_core.Voice.Assembler.Config.{AssemblerConfig}
use voicetastic_core.Voice.Assembler.State.{
  AssemblyState, AssemblerInner, SenderKey, same_key, per_sender_dec,
}
use voicetastic_core.Voice.Assembler.Accept.{retire}
use voicetastic_core.Voice.Assembler.Tick.{
  TickOutput, is_over, wants_nack, after_nack, tick_state, tick_key, tick_keys, tick,
}
use voicetastic_core.Voice.Assembler.Table.Counts.{same_key-IsTest}
use voicetastic_core.Voice.Assembler.Table.Invariant.{IsTable, prune-IsTable}
use voicetastic_core.Voice.Assembler.Table.Outcome.{Touched, Touched-IsTable}

module _ (sha : Sha256) (clock_max : ℕ) (cfg : AssemblerConfig) (now : ℕ) where
  abbrev pub step : AssemblerInner → SenderKey → AssemblerInner × TickOutput
  step inner key = tick_key sha clock_max cfg now inner key

  abbrev pub steps : AssemblerInner → List SenderKey → AssemblerInner × TickOutput
  steps inner keys = tick_keys sha clock_max cfg now inner keys

  -- A step leaves the table alone, or touches the entry of its key.
  step-cases :
      (inner : AssemblerInner) (key : SenderKey)
      → ((step inner key).0 ≡ inner)
        ⊎ ((s : AssemblyState) × (lookup same_key key inner.in_progress ≡ some s)
            × Touched inner key now (step inner key).0)
  unfolding tick_key tick_state
  step-cases inner key = elim (Option-cases (lookup same_key key inner.in_progress)) [
    | inl e ↦ inl (ground (arith, e))
    | inr (s, e) ↦ elim (Bool-cases (is_over cfg now s)) [
      | inl h ↦ inr (s, e, inr (ground (arith, e, h)))
      | inr h ↦ elim (Bool-cases (wants_nack cfg now s)) [
        | inl w ↦ inr (s, e, inl (after_nack clock_max cfg now s, ground (arith, e, h, w)))
        | inr w ↦ inl (ground (arith, e, h, w))
      ]
    ]
  ]

  pub step-IsTable :
      (inner : AssemblerInner) (key : SenderKey) → IsTable inner → IsTable (step inner key).0
  step-IsTable inner key v = elim (step-cases inner key) [
    | inl p ↦ rw (p) v
    | inr (s, e, t) ↦ Touched-IsTable inner _ key s now e v t
  ]

  steps-IsTable :
      (inner : AssemblerInner) (keys : List SenderKey)
      → IsTable inner
      → IsTable (steps inner keys).0
  unfolding tick_keys
  steps-IsTable inner [] v = v
  steps-IsTable inner (key ∷ keys) v =
      steps-IsTable (step inner key).0 keys (step-IsTable inner key v)

  -- `tick` keeps the table sound.
  pub tick-IsTable :
      (inner : AssemblerInner) → IsTable inner → IsTable (tick sha clock_max cfg now inner).0
  unfolding tick
  tick-IsTable inner v = steps-IsTable _ _ (prune-IsTable inner now cfg.completion_memory v)

  -- A step at another key does not change what is found.
  pub step-other :
      (inner : AssemblerInner) (key k : SenderKey)
      → same_key k key ≡ false
      → lookup same_key k (step inner key).0.in_progress ≡ lookup same_key k inner.in_progress
  unfolding retire per_sender_dec
  step-other inner key k n = elim (step-cases inner key) [
    | inl p ↦ rw (p) refl
    | inr (s, e, inl (w, p)) ↦
        rw (p) (lookup-update_other same_key same_key-IsTest k key w inner.in_progress n)
    | inr (s, e, inr p) ↦
        rw (p) (lookup-remove_other same_key same_key-IsTest k key inner.in_progress n)
  ]

  -- No step brings a message back.
  step-none :
      (inner : AssemblerInner) (key k : SenderKey)
      → lookup same_key k inner.in_progress ≡ none
      → lookup same_key k (step inner key).0.in_progress ≡ none
  unfolding retire per_sender_dec
  step-none inner key k n = elim (step-cases inner key) [
    | inl p ↦ rw (p) n
    | inr (s, e, inl (w, p)) ↦
        rw (p) (lookup-update-none same_key same_key-IsTest k key w inner.in_progress n)
    | inr (s, e, inr p) ↦
        rw (p) (lookup-remove-none same_key same_key-IsTest k key inner.in_progress n)
  ]

  pub steps-none :
      (inner : AssemblerInner) (keys : List SenderKey) (k : SenderKey)
      → lookup same_key k inner.in_progress ≡ none
      → lookup same_key k (steps inner keys).0.in_progress ≡ none
  unfolding tick_keys
  steps-none inner [] k n = n
  steps-none inner (key ∷ keys) k n = steps-none (step inner key).0 keys k (step-none inner key k n)
