-- ===== src/Meshtastic/Reconnect.antt =====
-- crates/voicetastic-core/src/meshtastic/reconnect.rs: the back-off between attempts to connect.
pub mod Growth
use voicetastic_core.Prelude.{
  ℕ, zero, suc, ◌+◌, ◌-◌, ◌*◌, ◌/◌, ◌^◌, Bool, true, false, Option, none, some, ltb, leb, ◌==◌, min,
  if◌then◌else◌,
}

-- A `Duration` is a number of nanoseconds.
abbrev pub as_millis : ℕ → ℕ
as_millis d = d / 1_000_000

abbrev pub from_millis : ℕ → ℕ
from_millis ms = ms * 1_000_000

abbrev pub from_secs : ℕ → ℕ
from_secs s = s * 1_000_000_000

abbrev pub u128_max : ℕ
u128_max = 2 ^ 128 - 1

abbrev pub u64_max : ℕ
u64_max = 2 ^ 64 - 1

pub record BleReconnectConfig : Type 0 where
  pub initial_delay : ℕ
  pub backoff_num : ℕ
  pub backoff_den : ℕ
  pub max_delay : ℕ
  pub max_attempts : Option ℕ

abbrev pub default_config : BleReconnectConfig
default_config = record {
  initial_delay = from_secs 2;
  backoff_num = 2;
  backoff_den = 1;
  max_delay = from_secs 60;
  max_attempts = some 10;
}

pub record BleReconnectPolicy : Type 0 where
  pub config : BleReconnectConfig
  pub attempts : ℕ

abbrev pub new : BleReconnectConfig → BleReconnectPolicy
new config = record { config = config; attempts = 0 }

-- `ms.saturating_mul(num) / den`
unfoldable pub grow : BleReconnectConfig → ℕ → ℕ
grow config ms = min (ms * config.backoff_num) u128_max / config.backoff_den

-- The loop, with the rounds that are left: a delay that reaches the cap is returned at once.
unfoldable pub delay_loop : BleReconnectConfig → ℕ → ℕ → ℕ
unfolding grow
delay_loop config zero ms = from_millis (min ms u64_max)
delay_loop config (suc rounds) ms =
    let rest = delay_loop config rounds (grow config ms) in
    if leb (as_millis config.max_delay) (grow config ms) then config.max_delay else rest

unfoldable pub next_delay : BleReconnectPolicy → ℕ
unfolding delay_loop
next_delay p =
    if p.config.backoff_den == 0
    then p.config.initial_delay
    else delay_loop p.config p.attempts (as_millis p.config.initial_delay)

-- `saturating_add` on a `u32`.
unfoldable pub record_failure : BleReconnectPolicy → BleReconnectPolicy
record_failure p = record p { attempts = min (p.attempts + 1) (2 ^ 32 - 1) }

unfoldable pub reset : BleReconnectPolicy → BleReconnectPolicy
reset p = record p { attempts = 0 }

abbrev pub reached : Option ℕ → ℕ → Bool
reached none attempts = false
reached (some limit) attempts = leb limit attempts

unfoldable pub should_give_up : BleReconnectPolicy → Bool
should_give_up p = reached p.config.max_attempts p.attempts
