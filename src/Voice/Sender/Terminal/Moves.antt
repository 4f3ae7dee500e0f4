-- ===== src/Voice/Sender/Terminal/Moves.antt =====
-- crates/voicetastic-core/src/voice/sender.rs: what a step of `run_send` tells of its own send.
use voicetastic_core.Prelude.{
  ℕ, ◌&&◌, Bool, true, false, Option, none, some, List, [], ◌∷◌, ◌==◌, ltb, inl, inr, ◌≡◌, refl, ap,
  Bool-cases, arith,
}
use voicetastic_core.Prelude.Assoc.{lookup, remove}
use voicetastic_core.Voice.Assembler.State.{is_some}
use voicetastic_core.Voice.Sender.{
  SendStatus, complete, gave_up, failed, is_terminal, VoiceSender, Phase, starting, bursting,
  enqueued, lingering, draining, ended, SendTask, is_active, clean_up, inflight_count,
}
use voicetastic_core.Voice.Sender.Burst.{
  RunEvent, scheduled, refused, elapsed, accepted, start_task, next_frame, frame_accepted,
  frame_refused, finalize_send, drain, run_step, run_send,
}
use voicetastic_core.Voice.Sender.Terminal.Quiet.{terminals, IsQuiet, same-IsQuiet}

abbrev pub is_ended : Phase → Bool
is_ended starting = false
is_ended bursting = false
is_ended enqueued = false
is_ended lingering = false
is_ended (draining deadline) = false
is_ended ended = true

-- What the terminal statuses of a send may be once its task has ended; `n` says that the listener
-- holds a frame for it.
pub data Verdict (id : ℕ) (n : Bool) (ts : List SendStatus) : Type 0 where
  by_end : ts ≡ complete id ∷ [] → Verdict id n ts
  by_error : ts ≡ failed id ∷ [] → Verdict id n ts
  by_receiver : n ≡ false → ts ≡ gave_up id ∷ [] → Verdict id n ts
  error_after : n ≡ false → ts ≡ failed id ∷ gave_up id ∷ [] → Verdict id n ts
  gave_up_late : n ≡ false → ts ≡ gave_up id ∷ complete id ∷ [] → Verdict id n ts
  gave_up_failed : n ≡ false → ts ≡ gave_up id ∷ failed id ∷ [] → Verdict id n ts

-- A send, by whether it is active (`a`), what was told of it, and whether its task has ended (`o`).
pub data Account (id : ℕ) (n a : Bool) (ts : List SendStatus) (o : Option Bool) : Type 0 where
  unsent : n ≡ false → a ≡ false → ts ≡ [] → o ≡ none → Account id n a ts o
  running : a ≡ true → ts ≡ [] → o ≡ some false → Account id n a ts o
  cancelled : n ≡ false → a ≡ false → ts ≡ gave_up id ∷ [] → o ≡ some false → Account id n a ts o
  closed : a ≡ false → o ≡ some true → Verdict id n ts → Account id n a ts o

-- A step of the task: it goes on, it ends without a word, or it tells a status and ends.
pub data Ran (id : ℕ) (s s' : VoiceSender) (p p' : Phase) : Type 0 where
  quiet : IsQuiet s s' → is_ended p' ≡ is_ended p → Ran id s s' p p'
  stops : IsQuiet s s' → is_active id s ≡ false → is_ended p' ≡ true → Ran id s s' p p'
  completes :
      is_active id s ≡ true
      → s'.active ≡ remove ◌==◌ id s.active
      → s'.emitted ≡ complete id ∷ s.emitted
      → is_ended p' ≡ true
      → Ran id s s' p p'
  fails :
      s'.active ≡ remove ◌==◌ id s.active
      → s'.emitted ≡ failed id ∷ s.emitted
      → is_ended p ≡ false
      → is_ended p' ≡ true
      → Ran id s s' p p'

remove-none :
    {V : Type 0} (id : ℕ) (t : List (ℕ × V))
    → is_some (lookup ◌==◌ id t) ≡ false
    → remove ◌==◌ id t ≡ t
unfolding lookup remove
remove-none id [] e = refl
remove-none id ((j, v) ∷ t) e = ground (arith, remove-none id t)

start_task-Ran :
    (id : ℕ) (s : VoiceSender) (t : SendTask) → Ran id s s starting (start_task id s t).phase
unfolding start_task
start_task-Ran id s t = elim (Bool-cases (is_active id s)) [
  | inl on ↦ quiet (same-IsQuiet s s refl refl) (rw on refl)
  | inr off ↦ stops (same-IsQuiet s s refl refl) off (rw off refl)
]

next_frame-Ran :
    (id : ℕ) (frames : List (List ℕ)) (s : VoiceSender) (t : SendTask)
    → Ran id s (next_frame id frames s t).0 bursting (next_frame id frames s t).1.phase
unfolding next_frame terminals is_terminal
next_frame-Ran id [] s t = quiet (record { active = refl; told = λ j. refl }) refl
next_frame-Ran id (frame ∷ frames) s t = elim (Bool-cases (is_active id s)) [
  | inl on ↦ quiet (same-IsQuiet s s refl refl) (rw on refl)
  | inr off ↦ stops (same-IsQuiet s s refl refl) off (rw off refl)
]

frame_accepted-Ran :
    (id packet_id : ℕ) (s : VoiceSender) (t : SendTask)
    → Ran id s
        (frame_accepted id packet_id s t).0
        enqueued
        (frame_accepted id packet_id s t).1.phase
unfolding frame_accepted terminals is_terminal
frame_accepted-Ran id packet_id s t = elim (Bool-cases (ltb t.position t.total_data)) [
  | inl lt ↦ quiet (record { active = rw lt refl; told = λ j. rw lt refl }) refl
  | inr ge ↦ quiet (record { active = rw ge refl; told = λ j. rw ge refl }) refl
]

finalize_send-Ran :
    (id now : ℕ) (s : VoiceSender) (p : Phase) → Ran id s (finalize_send id now s) p ended
unfolding finalize_send is_active
finalize_send-Ran id now s p = elim (Bool-cases (is_active id s)) [
  | inl on ↦ completes on (rw on refl) (rw on refl) refl
  | inr off ↦ stops (same-IsQuiet s _ (rw off (remove-none id s.active off)) (rw off refl)) off refl
]

drain-Ran :
    (id deadline now : ℕ) (s : VoiceSender) (t : SendTask)
    → t.phase ≡ draining deadline
    → Ran id s (drain id deadline now s t).0 (draining deadline) (drain id deadline now s t).1.phase
unfolding drain
drain-Ran id deadline now s t e =
    elim (Bool-cases (ltb 0 (inflight_count id s) && ltb now deadline)) [
      | inl on ↦ rw on (quiet (same-IsQuiet s s refl refl) (ap is_ended e))
      | inr off ↦ rw off (finalize_send-Ran id now s (draining deadline))
    ]

stays-Ran :
    (id : ℕ) (s : VoiceSender) (p : Phase) (t : SendTask) → t.phase ≡ p → Ran id s s p t.phase
stays-Ran id s p t e = quiet (same-IsQuiet s s refl refl) (ap is_ended e)

run_step-Ran :
    (id now : ℕ) (event : RunEvent) (p : Phase) (s : VoiceSender) (t : SendTask)
    → t.phase ≡ p
    → Ran id s (run_step id now event p s t).0 p (run_step id now event p s t).1.phase
unfolding run_step frame_refused clean_up
run_step-Ran id now scheduled starting s t e = start_task-Ran id s t
run_step-Ran id now scheduled bursting s t e = next_frame-Ran id t.frames s t
run_step-Ran id now (accepted packet_id) enqueued s t e = frame_accepted-Ran id packet_id s t
run_step-Ran id now refused enqueued s t e = fails refl refl refl refl
run_step-Ran id now elapsed lingering s t e = quiet (same-IsQuiet s s refl refl) refl
run_step-Ran id now elapsed (draining deadline) s t e = drain-Ran id deadline now s t e
run_step-Ran id now event p s t e = stays-Ran id s p t e

pub run_send-Ran :
    (id now : ℕ) (event : RunEvent) (s : VoiceSender) (t : SendTask)
    → Ran id s (run_send id now event s t).0 t.phase (run_send id now event s t).1.phase
unfolding run_send
run_send-Ran id now event s t = run_step-Ran id now event t.phase s t refl
