-- ===== src/Voice/TxState.antt =====
-- crates/voicetastic-core/src/voice/tx_policy.rs and tx_state.rs: pacing, backpressure, and the
-- burst sent frame by frame.
pub mod Steps
use voicetastic_core.Prelude.{
  ℕ, ◌-◌, Bool, true, false, not, ◌&&◌, Option, none, some, List, [], ◌∷◌, ltb, leb, ◌==◌,
  if◌then◌else◌, length,
}
use voicetastic_core.Proto.Consts.{secs, millis}
use voicetastic_core.Voice.Assembler.State.{is_some}

abbrev pub radio_queue_low_water : ℕ
radio_queue_low_water = 2

abbrev pub radio_queue_wait_timeout : ℕ
radio_queue_wait_timeout = secs 2

abbrev pub queue_recheck : ℕ
queue_recheck = millis 60

unfoldable pub pacing_delay : Option ℕ → ℕ → ℕ
pacing_delay none pacing = 0
pacing_delay (some elapsed) pacing = if ltb elapsed pacing then pacing - elapsed else 0

unfoldable pub queue_has_room : ℕ → Bool
queue_has_room free = ltb radio_queue_low_water free

pub record VoiceTx : Type 0 where
  pub total_data : ℕ
  pub queue : List (ℕ × List ℕ)
  pub channel : ℕ
  pub to : Option ℕ
  pub pacing : ℕ
  pub last_send_at : Option ℕ
  pub queue_block_started_at : Option ℕ

pub record SendAction : Type 0 where
  pub chunk_index : ℕ
  pub frame : List ℕ
  pub channel : ℕ
  pub to : Option ℕ
  pub want_ack : Bool
  pub is_data : Bool

pub data VoiceTxAction : Type 0 where
  send : SendAction → VoiceTxAction
  wait : ℕ → VoiceTxAction
  done : VoiceTxAction

unfoldable pub new_tx : ℕ → List (ℕ × List ℕ) → ℕ → Option ℕ → ℕ → VoiceTx
new_tx total_data frames channel to pacing = record {
  total_data = total_data;
  queue = frames;
  channel = channel;
  to = to;
  pacing = pacing;
  last_send_at = none;
  queue_block_started_at = none;
}

-- The time since the last frame; `duration_since` saturates at zero.
abbrev pub elapsed : Option ℕ → ℕ → Option ℕ
elapsed none now = none
elapsed (some t) now = some (now - t)

-- `get_or_insert(now)`
abbrev pub blocked_since : Option ℕ → ℕ → ℕ
blocked_since none now = now
blocked_since (some t) now = t

abbrev pub send_front : VoiceTx → ℕ → ℕ → List ℕ → List (ℕ × List ℕ) → VoiceTx × VoiceTxAction
send_front tx now chunk_index frame rest = (
  record tx { queue = rest; last_send_at = some now; queue_block_started_at = none },
  send (record {
    chunk_index = chunk_index;
    frame = frame;
    channel = tx.channel;
    to = tx.to;
    want_ack = is_some tx.to;
    is_data = ltb chunk_index tx.total_data;
  }),
)

-- One call, with the front of the queue at hand.
unfoldable pub step_front :
    VoiceTx → ℕ → ℕ → ℕ → List ℕ → List (ℕ × List ℕ) → VoiceTx × VoiceTxAction
step_front tx now queue_free chunk_index frame rest =
    let pace_wait = pacing_delay (elapsed tx.last_send_at now) tx.pacing in
    let since = blocked_since tx.queue_block_started_at now in
    if not (pace_wait == 0)
    then (tx, wait pace_wait)
    else if not (queue_has_room queue_free) && ltb (now - since) radio_queue_wait_timeout
    then (record tx { queue_block_started_at = some since }, wait queue_recheck)
    else send_front tx now chunk_index frame rest

unfoldable pub next_action : VoiceTx → ℕ → ℕ → VoiceTx × VoiceTxAction
next_action tx now queue_free = elim tx.queue [
  | [] ↦ (tx, done)
  | (chunk_index, frame) ∷ rest ↦ step_front tx now queue_free chunk_index frame rest
]

unfoldable pub frames_remaining : VoiceTx → ℕ
frames_remaining tx = length tx.queue
