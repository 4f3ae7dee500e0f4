-- ===== src/Meshtastic/Reconnect/Growth.antt =====
-- The delays of a campaign grow up to their cap, and the campaign ends.
use voicetastic_core.Prelude.{
  ℕ, zero, suc, ◌+◌, ◌-◌, ◌*◌, ◌^◌, ◌≤◌, ◌<◌, ◌≡◌, refl, ap, ◌∙◌, ◌↔◌, true, some, Bool-cases, inl,
  inr, arith, leb, min,
}
use voicetastic_core.Meshtastic.Reconnect.{
  BleReconnectConfig, BleReconnectPolicy, as_millis, from_millis, u128_max, u64_max, grow,
  delay_loop, next_delay, record_failure, reset, should_give_up,
}
use native.Mathlib.Nat.{le-div_iff_mul-le, le_trans, mul-le-mul}

-- The factor is not below one, and the delays are within the range of a `Duration`.
pub record Grows (c : BleReconnectConfig) : Type 0 where
  pub den_pos : 0 < c.backoff_den
  pub den_small : c.backoff_den < 2 ^ 32
  pub factor : c.backoff_den ≤ c.backoff_num
  pub starts : c.initial_delay ≤ c.max_delay
  pub in_range : c.max_delay < 2 ^ 64 * 1_000_000_000

module _ (c : BleReconnectConfig) (g : Grows c) where
  product_le : (ms : ℕ) → ms * c.backoff_den ≤ ms * c.backoff_num
  product_le ms = let f = g.factor in grind arith

  saturated : (ms : ℕ) → ms ≤ as_millis c.max_delay → ms * c.backoff_den ≤ u128_max
  saturated ms h =
      let b : ms ≤ 2 ^ 74 = let r = g.in_range in omega arith in
      let d : c.backoff_den ≤ 2 ^ 32 = let r = g.den_small in omega arith in
      le_trans (mul-le-mul b d) (omega arith)

  grow_le : (ms : ℕ) → ms ≤ as_millis c.max_delay → ms ≤ grow c ms
  unfolding grow
  grow_le ms h =
      (le-div_iff_mul-le g.den_pos).1
        (let p = product_le ms in let s = saturated ms h in ground (arith, p, s))

  capped : (ms : ℕ) → ms ≤ as_millis c.max_delay → from_millis (min ms u64_max) ≤ c.max_delay
  capped ms h = omega arith

  -- One more failure: the loop runs a round more, and its delay is no shorter and within the cap.
  loop-grows :
      (rounds ms : ℕ)
      → ms ≤ as_millis c.max_delay
      → (delay_loop c rounds ms ≤ delay_loop c (suc rounds) ms)
        × (delay_loop c rounds ms ≤ c.max_delay)
  unfolding delay_loop
  loop-grows zero ms h = let l = grow_le ms h in let m = capped ms h in (ground (arith, l, m), m)
  loop-grows (suc rounds) ms h = elim (Bool-cases (leb (as_millis c.max_delay) (grow c ms))) [
    | inl t ↦ rw t (omega arith, omega arith)
    | inr t ↦ let ih = loop-grows rounds (grow c ms) (ground (arith, t)) in rw t (ih.0, ih.1)
  ]

next_delay-loop :
    (p : BleReconnectPolicy)
    → 0 < p.config.backoff_den
    → next_delay p ≡ delay_loop p.config p.attempts (as_millis p.config.initial_delay)
unfolding next_delay
next_delay-loop p h = ground arith

-- With a factor of one or more, an initial delay within the cap and a cap within the range of a
-- `Duration`, a failure never shortens the delay, and no delay exceeds the cap.
pub next_delay-Grows :
    (p : BleReconnectPolicy)
    → Grows p.config
    → p.attempts < 2 ^ 32
    → (next_delay p ≤ next_delay (record_failure p)) × (next_delay p ≤ p.config.max_delay)
unfolding record_failure
next_delay-Grows p g u =
    let c : BleReconnectConfig = p.config in
    let first : as_millis c.initial_delay ≤ as_millis c.max_delay =
      let s = g.starts in omega arith in
    let l = loop-grows c g p.attempts (as_millis c.initial_delay) first in
    rw (next_delay-loop p g.den_pos, next_delay-loop (record_failure p) g.den_pos)
      elim (Bool-cases (leb (p.attempts + 1) (2 ^ 32 - 1))) [
        | inl t ↦
            let e : min (p.attempts + 1) (2 ^ 32 - 1) ≡ suc p.attempts = ground (arith, t) in rw e l
        | inr t ↦
            let e : min (p.attempts + 1) (2 ^ 32 - 1) ≡ p.attempts = ground (arith, t) in
            rw e (omega arith, l.1)
      ]

-- A number of failed attempts in a row.
unfoldable pub failures : ℕ → BleReconnectPolicy → BleReconnectPolicy
failures zero p = p
failures (suc k) p = record_failure (failures k p)

failures-attempts :
    (k : ℕ) (p : BleReconnectPolicy)
    → (failures k (reset p)).config ≡ p.config
      × (failures k (reset p)).attempts ≡ min k (2 ^ 32 - 1)
unfolding failures reset record_failure
failures-attempts zero p = (refl, omega arith)
failures-attempts (suc k) p = let ih = failures-attempts k p in (ih.0, omega (arith, ih.1))

-- After a reset the policy gives up exactly from the limit of consecutive failures on.
pub failures-give_up_iff :
    (p : BleReconnectPolicy) (limit k : ℕ)
    → p.config.max_attempts ≡ some limit
    → limit < 2 ^ 32
    → (should_give_up (failures k (reset p)) ≡ true) ↔ (limit ≤ k)
unfolding should_give_up
failures-give_up_iff p limit k e l =
    let f = failures-attempts k p in
    let m : (failures k (reset p)).config.max_attempts ≡ some limit =
      ap (λ c. c.max_attempts) f.0 ∙ e in
    rw m (ground (arith, f.1))
