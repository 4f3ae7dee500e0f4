-- ===== src/Voice/Assembler/Shards/Tick.antt =====
-- crates/voicetastic-core/src/voice/assembler/mod.rs: `tick` keeps the counters of every state.
use voicetastic_core.Prelude.{ℕ, ◌≡◌, inl, inr, List, [], ◌∷◌, map, arith, Bool-cases, Option-cases}
use voicetastic_core.Prelude.Assoc.{lookup}
use voicetastic_core.Proto.Mac.{Sha256}
use voicetastic_core.Voice.Assembler.Config.{AssemblerConfig}
use voicetastic_core.Voice.Assembler.State.{AssemblyState, AssemblerInner, SenderKey, same_key}
use voicetastic_core.Voice.Assembler.Accept.{prune_blacklist, retire, put}
use voicetastic_core.Voice.Assembler.Tick.{
  is_over, wants_nack, after_nack, tick_state, tick_key, tick_keys, tick,
}
use voicetastic_core.Voice.Assembler.Table.Invariant.{IsTable, prune-IsTable}
use voicetastic_core.Voice.Assembler.Table.Tick.{step, steps, step-IsTable}
use voicetastic_core.Voice.Assembler.Shards.Counted.{IsCounted}
use voicetastic_core.Voice.Assembler.Shards.Entries.{Entries, put-Entries, retire-Entries}

module _ (sha : Sha256) (clock_max : ℕ) (cfg : AssemblerConfig) (now : ℕ) where
  after_nack-IsCounted :
      (s : AssemblyState) → IsCounted s → IsCounted (after_nack clock_max cfg now s)
  unfolding after_nack
  after_nack-IsCounted s v = v

  step-Entries :
      (inner : AssemblerInner) (key : SenderKey)
      → IsTable inner
      → Entries inner
      → Entries (step sha clock_max cfg now inner key).0
  step-Entries inner key v t = elim (Option-cases (lookup same_key key inner.in_progress)) [
    | inl e ↦
        let p : (step sha clock_max cfg now inner key).0 ≡ inner =
          unfold tick_key tick_state in ground (arith, e) in
        rw (p) t
    | inr (s, e) ↦ elim (Bool-cases (is_over cfg now s)) [
      | inl h ↦
          let p : (step sha clock_max cfg now inner key).0 ≡ retire inner key now =
            unfold tick_key tick_state in ground (arith, e, h) in
          rw (p) (retire-Entries inner key now v.distinct t)
      | inr h ↦ elim (Bool-cases (wants_nack cfg now s)) [
        | inl w ↦
            let p : (step sha clock_max cfg now inner key).0
                ≡ put inner key (after_nack clock_max cfg now s) =
              unfold tick_key tick_state in ground (arith, e, h, w) in
            rw (p) (
              put-Entries inner key s (after_nack clock_max cfg now s) e
                (after_nack-IsCounted s (t key s e)) t)
        | inr w ↦
            let p : (step sha clock_max cfg now inner key).0 ≡ inner =
              unfold tick_key tick_state in ground (arith, e, h, w) in
            rw (p) t
      ]
    ]
  ]

  steps-Entries :
      (inner : AssemblerInner) (keys : List SenderKey)
      → IsTable inner
      → Entries inner
      → Entries (steps sha clock_max cfg now inner keys).0
  unfolding tick_keys
  steps-Entries inner [] v t = t
  steps-Entries inner (key ∷ keys) v t =
      steps-Entries (step sha clock_max cfg now inner key).0 keys
        (step-IsTable sha clock_max cfg now inner key v) (step-Entries inner key v t)

  -- In a sound table, `tick` keeps the counters of every state that stays in progress equal to the
  -- shards that it stores.
  pub tick-Entries :
      (inner : AssemblerInner)
      → IsTable inner
      → Entries inner
      → Entries (tick sha clock_max cfg now inner).0
  unfolding tick
  tick-Entries inner v t =
      steps-Entries
        (record inner { blacklist = prune_blacklist inner.blacklist now cfg.completion_memory })
        (map (λ e. e.0) inner.in_progress) (prune-IsTable inner now cfg.completion_memory v) t
