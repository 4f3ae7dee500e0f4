-- ===== src/Voice/Sender/Burst.antt =====
-- crates/voicetastic-core/src/voice/sender.rs: run_send, from one wait to the next.
pub mod Whole
use voicetastic_core.Prelude.{
  ◌==◌, ℕ, ◌+◌, ◌%◌, Bool, true, false, not, ◌&&◌, Option, none, some, List, [], ◌∷◌, ◌++◌, ltb,
  if◌then◌else◌,
}
use voicetastic_core.Prelude.Assoc.{lookup, remove}
use voicetastic_core.Voice.Assembler.State.{is_some}
use voicetastic_core.Voice.Outgoing.{
  OutgoingVoiceRegistry, mark_chunk_sent, forget, prune_expired, meta,
}
use voicetastic_core.Voice.Sender.{
  SendStatus, sending, burst_complete, complete, failed, VoiceSender, emit, Phase, starting,
  bursting, enqueued, lingering, draining, ended, SendTask, is_active, unwrap_or, clean_up,
  inflight_count, retransmit_drain_timeout,
}

-- What wakes the task: the runtime, the answer for the frame that it enqueued, or a timer.
pub data RunEvent : Type 0 where
  scheduled refused elapsed : RunEvent
  accepted : ℕ → RunEvent

abbrev pub at_phase : Phase → SendTask → SendTask
at_phase phase t = record t { phase = phase }

-- `data_count`
abbrev pub data_count : Option (ℕ × Option ℕ × ℕ) → Option ℕ
data_count none = none
data_count (some (channel, dest, total_data)) = some total_data

unfoldable pub start_task : ℕ → VoiceSender → SendTask → SendTask
unfolding is_active meta
start_task id s t =
    if is_active id s
    then record t {
      phase = bursting;
      total_data = unwrap_or (data_count (meta s.registry id)) (t.total_frames % 256);
    }
    else at_phase ended t

-- The head of the `for` loop: a send that was cancelled enqueues nothing more.
unfoldable pub next_frame : ℕ → List (List ℕ) → VoiceSender → SendTask → VoiceSender × SendTask
unfolding is_active
next_frame id [] s t = (emit (burst_complete id t.packet_ids) s, at_phase lingering t)
next_frame id (frame ∷ frames) s t = (s, at_phase (if is_active id s then enqueued else ended) t)

unfoldable pub mark_sent : ℕ → SendTask → VoiceSender → VoiceSender
unfolding mark_chunk_sent
mark_sent id t s =
    if ltb t.position t.total_data
    then record s { registry = mark_chunk_sent s.registry id (t.position % 256) }
    else s

abbrev pub behind : List (List ℕ) → List (List ℕ)
behind [] = []
behind (frame ∷ frames) = frames

unfoldable pub frame_accepted : ℕ → ℕ → VoiceSender → SendTask → VoiceSender × SendTask
unfolding mark_sent
frame_accepted id packet_id s t = (
  emit (sending id (t.position + 1) t.total_frames) (mark_sent id t s),
  record t {
    phase = bursting;
    frames = behind t.frames;
    position = t.position + 1;
    packet_ids = t.packet_ids ++ (packet_id ∷ []);
  },
)

unfoldable pub frame_refused : ℕ → VoiceSender → SendTask → VoiceSender × SendTask
unfolding clean_up
frame_refused id s t = (clean_up id (emit (failed id) s), at_phase ended t)

-- Who removes the active entry claims the terminal status.
unfoldable pub finalize_send : ℕ → ℕ → VoiceSender → VoiceSender
unfolding is_active remove forget prune_expired
finalize_send id now s =
    let claimed = record s { active = remove ◌==◌ id s.active } in
    let told = if is_active id s then emit (complete id) claimed else claimed in
    record told { registry = prune_expired (forget told.registry id) now }

-- The `while` loop: it goes on while a batch is in flight and the deadline lies ahead.
unfoldable pub drain : ℕ → ℕ → ℕ → VoiceSender → SendTask → VoiceSender × SendTask
unfolding inflight_count finalize_send
drain id deadline now s t =
    if ltb 0 (inflight_count id s) && ltb now deadline
    then (s, t)
    else (finalize_send id now s, at_phase ended t)

unfoldable pub run_step : ℕ → ℕ → RunEvent → Phase → VoiceSender → SendTask → VoiceSender × SendTask
unfolding start_task next_frame frame_accepted frame_refused drain
run_step id now scheduled starting s t = (s, start_task id s t)
run_step id now scheduled bursting s t = next_frame id t.frames s t
run_step id now (accepted packet_id) enqueued s t = frame_accepted id packet_id s t
run_step id now refused enqueued s t = frame_refused id s t
run_step id now elapsed lingering s t = (s, at_phase (draining (now + retransmit_drain_timeout)) t)
run_step id now elapsed (draining deadline) s t = drain id deadline now s t
run_step id now event phase s t = (s, t)

-- `run_send`, from one wait to the next.
unfoldable pub run_send : ℕ → ℕ → RunEvent → VoiceSender → SendTask → VoiceSender × SendTask
unfolding run_step
run_send id now event s t = run_step id now event t.phase s t
