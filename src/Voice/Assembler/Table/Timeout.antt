-- ===== src/Voice/Assembler/Table/Timeout.antt =====
-- crates/voicetastic-core/src/voice/assembler/mod.rs: what a `tick` does to each single message.
use voicetastic_core.Prelude.{
  Bool, false, if◌then◌else◌, ℕ, ◌≡◌, ◌≢◌, refl, ◌∙◌, inl, inr, true, false, none, some, List, [],
  ◌∷◌, map, arith, Bool-cases, get_elem?, get-append_left, get-append_right,
}
use voicetastic_core.Prelude.Assoc.{lookup}
use voicetastic_core.Prelude.Assoc.Laws.{lookup-remove_self}
use voicetastic_core.Proto.Mac.{Sha256}
use voicetastic_core.Voice.Assembler.Config.{AssemblerConfig}
use voicetastic_core.Voice.Assembler.State.{
  AssemblyState, AssemblerInner, SenderKey, same_key, per_sender_dec,
}
use voicetastic_core.Voice.Assembler.Finalize.{finalize}
use voicetastic_core.Voice.Assembler.Accept.{retire}
use voicetastic_core.Voice.Assembler.Tick.{
  TickOutput, join, is_over, nack_enabled, give_up_output, outbound, tick_state, tick_key,
  tick_keys, tick,
}
use voicetastic_core.Voice.Assembler.Table.Counts.{same_key-IsTest}
use voicetastic_core.Voice.Assembler.Table.Invariant.{IsTable, prune-IsTable}
use voicetastic_core.Voice.Assembler.Table.Tick.{step, steps, step-other, step-IsTable, steps-none}

abbrev pub Has {ℓ} : {A : Type ℓ} → List A → A → Type ℓ
Has xs a = (i : ℕ) × (get_elem? xs i ≡ some a)

-- A claim that is made only where the test holds.
abbrev pub Wanted : Bool → Type 0 → Type 0
Wanted true T = T
Wanted false T = Unit

wanted_map : {T U : Type 0} (b : Bool) → (T → U) → Wanted b T → Wanted b U
wanted_map true f t = f t
wanted_map false f t = tt

wanted_one : {A : Type 0} (b : Bool) (a : A) → Wanted b (Has (if b then a ∷ [] else []) a)
wanted_one true a = (0, refl)
wanted_one false a = tt

-- The outputs hold the partial message and the last request, where the configuration wants them.
abbrev pub Reports : Sha256 → AssemblerConfig → SenderKey → AssemblyState → TickOutput → Type 0
Reports sha cfg key s out =
    Wanted cfg.partial_play_on_timeout (Has out.finalized (finalize key.0 key s false))
    × Wanted (nack_enabled cfg s) (Has out.nacks (outbound sha key s true))

module _ (sha : Sha256) (clock_max : ℕ) (cfg : AssemblerConfig) (now : ℕ) where
  Reports-first :
      (key : SenderKey) (s : AssemblyState) (a b : TickOutput)
      → Reports sha cfg key s a
      → Reports sha cfg key s (join a b)
  Reports-first key s a b (m, n) = (
    wanted_map cfg.partial_play_on_timeout
        (λ r. (r.0, get-append_left a.finalized b.finalized r.0 _ r.1)) m,
    wanted_map (nack_enabled cfg s) (λ r. (r.0, get-append_left a.nacks b.nacks r.0 _ r.1)) n,
  )

  Reports-rest :
      (key : SenderKey) (s : AssemblyState) (a b : TickOutput)
      → Reports sha cfg key s b
      → Reports sha cfg key s (join a b)
  Reports-rest key s a b (m, n) = (
    wanted_map cfg.partial_play_on_timeout (λ r. get-append_right a.finalized b.finalized r.0 _ r.1)
        m,
    wanted_map (nack_enabled cfg s) (λ r. get-append_right a.nacks b.nacks r.0 _ r.1) n,
  )

  module _ (inner : AssemblerInner) (key : SenderKey) (s : AssemblyState) where
    step_over :
        lookup same_key key inner.in_progress ≡ some s
        → is_over cfg now s ≡ true
        → step sha clock_max cfg now inner key
          ≡ (retire inner key now, give_up_output sha cfg key s)
    unfolding tick_key tick_state
    step_over e h = ground (arith, e, h)

    give_up-Reports : Reports sha cfg key s (give_up_output sha cfg key s)
    unfolding give_up_output
    give_up-Reports = (wanted_one cfg.partial_play_on_timeout _, wanted_one (nack_enabled cfg s) _)

    step_ends :
        IsTable inner
        → lookup same_key key inner.in_progress ≡ some s
        → is_over cfg now s ≡ true
        → (lookup same_key key (step sha clock_max cfg now inner key).0.in_progress ≡ none)
          × Reports sha cfg key s (step sha clock_max cfg now inner key).1
    unfolding retire per_sender_dec
    step_ends v e h = rw (step_over e h) (
      lookup-remove_self same_key same_key-IsTest key inner.in_progress v.distinct,
      give_up-Reports,
    )

  -- The loop over keys among which is `key`.
  steps_end :
      (t : List (SenderKey × AssemblyState)) (inner : AssemblerInner) (key : SenderKey)
      (s : AssemblyState)
      → IsTable inner
      → lookup same_key key t ≢ none
      → lookup same_key key inner.in_progress ≡ some s
      → is_over cfg now s ≡ true
      → (lookup same_key key (steps sha clock_max cfg now inner (map (λ e. e.0) t)).0.in_progress
          ≡ none)
        × Reports sha cfg key s (steps sha clock_max cfg now inner (map (λ e. e.0) t)).1
  unfolding tick_keys lookup
  steps_end [] inner key s v f e h = absurd (f refl)
  steps_end ((j, x) ∷ t) inner key s v f e h = elim (Bool-cases (same_key key j)) [
    | inl q ↦
        let p = same_key-IsTest.sound key j q in
        let r : (lookup same_key key (step sha clock_max cfg now inner j).0.in_progress ≡ none)
            × Reports sha cfg key s (step sha clock_max cfg now inner j).1 =
          rw (← p) (step_ends inner key s v e h) in
        (
          steps-none sha clock_max cfg now (step sha clock_max cfg now inner j).0 (map (λ e. e.0) t)
              key r.0,
          Reports-first key s (step sha clock_max cfg now inner j).1 _ r.1,
        )
    | inr q ↦
        let r =
          steps_end t (step sha clock_max cfg now inner j).0 key s
            (step-IsTable sha clock_max cfg now inner j v) (λ n. f (ground (arith, q, n)))
            (step-other sha clock_max cfg now inner j key q ∙ e) h in
        (r.0, Reports-rest key s (step sha clock_max cfg now inner j).1 _ r.1)
  ]

  -- A message whose time is up, or whose requests are used up, leaves the table at this tick, and
  -- the outputs hold the partial message and the last request that the configuration asks for.
  pub tick-ends :
      (inner : AssemblerInner) (key : SenderKey) (s : AssemblyState)
      → IsTable inner
      → lookup same_key key inner.in_progress ≡ some s
      → is_over cfg now s ≡ true
      → (lookup same_key key (tick sha clock_max cfg now inner).0.in_progress ≡ none)
        × Reports sha cfg key s (tick sha clock_max cfg now inner).1
  unfolding tick
  tick-ends inner key s v e h =
      steps_end inner.in_progress _ key s (prune-IsTable inner now cfg.completion_memory v)
        (λ n. cc) e h
