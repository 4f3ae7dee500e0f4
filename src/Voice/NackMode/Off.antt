-- ===== src/Voice/NackMode/Off.antt =====
-- crates/voicetastic-core/src/settings/api.rs: the parameters of `Off` against the assembler.
use voicetastic_core.Prelude.{
  ℕ, ◌-◌, ◌%◌, ◌^◌, ◌≤◌, ◌<◌, max, ◌≡◌, true, not, Option, arith, leb, ◌==◌, if◌then◌else◌,
}
use voicetastic_core.Proto.Consts.{millis}
use voicetastic_core.Proto.Types.{ModemPreset}
use voicetastic_core.Proto.Builder.{div_ceil}
use voicetastic_core.Voice.Assembler.Config.{AssemblerConfig, sync_nack_cap_to_timeout, millis_of}
use voicetastic_core.Voice.Assembler.State.{AssemblyState}
use voicetastic_core.Voice.Assembler.Tick.{is_over}
use voicetastic_core.Voice.NackMode.{off, NackParams, resolve_nack, disabled}

-- The closure that crates/voicetastic-gui/src/watchers.rs hands to `update_config`.
unfoldable pub apply_params : AssemblerConfig → NackParams → AssemblerConfig
apply_params cfg p =
    let taken : AssemblerConfig = record cfg {
      nack_window = p.nack_window;
      nack_backoff_base = p.backoff_base;
      max_nack_rounds = p.max_nack_rounds;
    } in
    if not (p.backoff_base == 0) then sync_nack_cap_to_timeout taken else taken

-- With the parameters of `Off`, every message is over at every tick, also one that has just begun:
-- the round cap is 0, and the test on the rounds reads it.
pub off-is_over :
    (cfg : AssemblerConfig) (preset : Option ModemPreset) (now : ℕ) (s : AssemblyState)
    → is_over (apply_params cfg (resolve_nack off preset)) now s ≡ true
unfolding is_over apply_params resolve_nack disabled
off-is_over cfg preset now s = ground arith

div_ceil_pos : (a b : ℕ) → 0 < a → 0 < b → 0 < div_ceil a b
div_ceil_pos a b h k = grind arith

-- With a back-off base other than 0, a message with no open request is over only when its time is
-- up, for timeouts of a millisecond at least that a `u64` of milliseconds holds, and a window that it
-- holds.
pub on-is_over :
    (cfg : AssemblerConfig) (p : NackParams) (now : ℕ) (s : AssemblyState)
    → 0 < p.backoff_base
    → millis 1 ≤ cfg.message_timeout
    → millis_of cfg.message_timeout < 2 ^ 64
    → millis_of p.nack_window < 2 ^ 64
    → s.nack_rounds ≡ 0
    → is_over (apply_params cfg p) now s ≡ leb cfg.message_timeout (now - s.started_at)
unfolding is_over apply_params sync_nack_cap_to_timeout
on-is_over cfg p now s b h k w z = ground (
  arith,
  z,
  div_ceil_pos (millis_of cfg.message_timeout % 2 ^ 64) (max (millis_of p.nack_window) 1 % 2 ^ 64),
)
