-- ===== src/Voice/Assembler/Config/Cap.antt =====
-- crates/voicetastic-core/src/voice/assembler/config.rs: the round cap covers the timeout.
use voicetastic_core.Prelude.{
  ℕ, ◌*◌, ◌%◌, ◌^◌, ◌≤◌, ◌<◌, min, max, ◌≡◌, ◌⊎◌, inl, inr, arith, leb, leb→le, Bool-cases,
}
use voicetastic_core.Proto.Builder.{div_ceil}
use voicetastic_core.Voice.Assembler.Config.{AssemblerConfig, sync_nack_cap_to_timeout, millis_of}

div_ceil_covers : (a b : ℕ) → 0 < b → a ≤ div_ceil a b * b
div_ceil_covers a b h = grind arith

capped_covers : (a b q : ℕ) → a ≤ q * b → (a ≤ min q 65535 * b) ⊎ (min q 65535 ≡ 65535)
capped_covers a b q h = elim (Bool-cases (leb q 65535)) [
  | inl t ↦ let e : min q 65535 ≡ q = omega (arith, leb→le q 65535 t) in inl (rw (e) h)
  | inr t ↦ inr (ground (arith, t))
]

-- After `sync_nack_cap_to_timeout`, as many windows as the round cap allows last as long as the
-- message timeout, in milliseconds, unless the cap is that of a `u16`; and the completion memory is
-- no shorter than the timeout. It holds for durations that a `u64` of milliseconds holds.
pub sync-covers :
    (cfg : AssemblerConfig)
    → millis_of cfg.message_timeout < 2 ^ 64
    → millis_of cfg.nack_window < 2 ^ 64
    → ((millis_of cfg.message_timeout
          ≤ (sync_nack_cap_to_timeout cfg).max_nack_rounds * max (millis_of cfg.nack_window) 1)
        ⊎ ((sync_nack_cap_to_timeout cfg).max_nack_rounds ≡ 65535))
      × (cfg.message_timeout ≤ (sync_nack_cap_to_timeout cfg).completion_memory)
unfolding sync_nack_cap_to_timeout
sync-covers cfg h w =
    let a = millis_of cfg.message_timeout in
    let b = max (millis_of cfg.nack_window) 1 in
    let c = div_ceil_covers a b (omega arith) in
    let ea : a % 2 ^ 64 ≡ a = omega (arith, h) in
    let eb : b % 2 ^ 64 ≡ b = omega (arith, w) in
    (rw (ea, eb) (capped_covers a b (div_ceil a b) c), omega arith)
