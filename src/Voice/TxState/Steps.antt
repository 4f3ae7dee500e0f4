-- ===== src/Voice/TxState/Steps.antt =====
-- crates/voicetastic-core/src/voice/tx_state.rs: what a driver sees that calls `next_action` again
-- and again.
use voicetastic_core.Prelude.{
  ℕ, ◌-◌, ◌≤◌, ◌<◌, ◌≡◌, refl, ◌∙◌, ap, ◌⊎◌, inl, inr, Option, none, some, List, ◌↔◌, List-cases,
  append_assoc, [], ◌∷◌, ◌++◌, arith,
}
use voicetastic_core.Voice.TxState.{
  VoiceTx, VoiceTxAction, send, wait, done, next_action, step_front, pacing_delay, queue_has_room,
  radio_queue_low_water, radio_queue_wait_timeout, elapsed, blocked_since,
}

-- The frames of a run, in the order in which they were handed out: a driver that calls at the given
-- times, with the given reports of the queue.
abbrev pub sent_now : VoiceTxAction → List (ℕ × List ℕ)
sent_now (send a) = (a.chunk_index, a.frame) ∷ []
sent_now (wait d) = []
sent_now done = []

unfoldable pub run : VoiceTx → List (ℕ × ℕ) → VoiceTx × List (ℕ × List ℕ)
run tx [] = (tx, [])
run tx ((now, free) ∷ calls) =
    let r = next_action tx now free in let rest = run r.0 calls in (rest.0, sent_now r.1 ++ rest.1)

next-empty : (tx : VoiceTx) (now free : ℕ) → tx.queue ≡ [] → next_action tx now free ≡ (tx, done)
unfolding next_action
next-empty tx now free e = ground (arith, e)

next-front :
    (tx : VoiceTx) (now free i : ℕ) (f : List ℕ) (rest : List (ℕ × List ℕ))
    → tx.queue ≡ (i, f) ∷ rest
    → next_action tx now free ≡ step_front tx now free i f rest
unfolding next_action
next-front tx now free i f rest e = ground (arith, e)

front-queue :
    (tx : VoiceTx) (now free i : ℕ) (f : List ℕ) (rest : List (ℕ × List ℕ))
    → tx.queue ≡ (i, f) ∷ rest
    → sent_now (step_front tx now free i f rest).1 ++ (step_front tx now free i f rest).0.queue
      ≡ tx.queue
unfolding step_front
front-queue tx now free i f rest e = ground (arith, e)

step-queue :
    (tx : VoiceTx) (now free : ℕ)
    → sent_now (next_action tx now free).1 ++ (next_action tx now free).0.queue ≡ tx.queue
step-queue tx now free = elim (List-cases tx.queue) [
  | inl e ↦ rw (next-empty tx now free e) refl
  | inr ((i, f), rest, e) ↦
      rw (next-front tx now free i f rest e) (front-queue tx now free i f rest e)
]

-- Whatever the driver does, the frames go out in the order of the queue: what was sent and what
-- remains is the queue of the start.
pub run-queue :
    (tx : VoiceTx) (calls : List (ℕ × ℕ)) → (run tx calls).1 ++ (run tx calls).0.queue ≡ tx.queue
unfolding run
run-queue tx [] = refl
run-queue tx ((now, free) ∷ calls) =
    let r = next_action tx now free in
    append_assoc (sent_now r.1) (run r.0 calls).1 (run r.0 calls).0.queue
    ∙ ap (λ q. sent_now r.1 ++ q) (run-queue r.0 calls)
    ∙ step-queue tx now free

-- The gap to the last frame has passed.
abbrev pub GapPassed : Option ℕ → ℕ → ℕ → Type 0
GapPassed none pacing now = Unit
GapPassed (some t) pacing now = pacing ≤ now - t

pacing_delay-GapPassed :
    (last : Option ℕ) (pacing now : ℕ)
    → (pacing_delay (elapsed last now) pacing ≡ 0) ↔ GapPassed last pacing now
unfolding pacing_delay
pacing_delay-GapPassed none pacing now = (λ h. tt, λ h. refl)
pacing_delay-GapPassed (some t) pacing now = ground arith

-- The radio has room, or was full for the whole time limit.
abbrev pub QueueOpen : Option ℕ → ℕ → ℕ → Type 0
QueueOpen blocked now free =
    (radio_queue_low_water < free) ⊎ (radio_queue_wait_timeout ≤ now - blocked_since blocked now)

front-send_iff :
    (tx : VoiceTx) (now free i : ℕ) (f : List ℕ) (rest : List (ℕ × List ℕ))
    → (sent_now (step_front tx now free i f rest).1 ≡ (i, f) ∷ []) ↔ (
        (pacing_delay (elapsed tx.last_send_at now) tx.pacing ≡ 0)
        × QueueOpen tx.queue_block_started_at now free)
unfolding step_front queue_has_room
front-send_iff tx now free i f rest = ground arith

-- A call hands the front frame out exactly when its gap has passed and the radio has room or was
-- full for the whole time limit.
pub next_action-send_iff :
    (tx : VoiceTx) (now free i : ℕ) (f : List ℕ) (rest : List (ℕ × List ℕ))
    → tx.queue ≡ (i, f) ∷ rest
    → (sent_now (next_action tx now free).1 ≡ (i, f) ∷ [])
      ↔ (GapPassed tx.last_send_at tx.pacing now × QueueOpen tx.queue_block_started_at now free)
next_action-send_iff tx now free i f rest e = rw (next-front tx now free i f rest e) (
    ground (
      arith,
      front-send_iff tx now free i f rest,
      pacing_delay-GapPassed tx.last_send_at tx.pacing now,
    ))
