-- ===== src/Voice/Sender/Burst/Whole.antt =====
-- crates/voicetastic-core/src/voice/sender.rs: a burst that nothing disturbs, from its start to its end.
use voicetastic_core.Prelude.{
  ℕ, zero, suc, ◌+◌, ◌%◌, true, List, [], ◌∷◌, ◌++◌, ltb, length, append_assoc, ◌≡◌, inl, inr, refl,
  sym, subst, ap, ◌∙◌, Bool-cases, arith,
}
use voicetastic_core.Voice.Sender.{
  SendStatus, emit, complete, sending, burst_complete, VoiceSender, starting, bursting, enqueued,
  ended, SendTask, is_active, inflight_count, retransmit_drain_timeout, unwrap_or,
}
use voicetastic_core.Voice.Outgoing.{meta}
use voicetastic_core.Voice.Sender.Burst.{
  RunEvent, scheduled, elapsed, accepted, start_task, next_frame, frame_accepted, mark_sent,
  finalize_send, drain, run_step, run_send, data_count,
}

-- The events that wake the task one after the other, all at one time.
unfoldable pub run_all : ℕ → ℕ → List RunEvent → VoiceSender × SendTask → VoiceSender × SendTask
unfolding run_send
run_all id now [] r = r
run_all id now (event ∷ events) r = run_all id now events (run_send id now event r.0 r.1)

-- The radio takes each frame under the packet id that it gives; then the linger and one check pass.
unfoldable pub accepts_all : List ℕ → List RunEvent
accepts_all [] = scheduled ∷ elapsed ∷ elapsed ∷ []
accepts_all (packet_id ∷ packet_ids) = scheduled ∷ accepted packet_id ∷ accepts_all packet_ids

-- What is told of the `n` frames from position `i` on, the latest first, onto what was told before.
unfoldable pub progress : ℕ → ℕ → ℕ → ℕ → List SendStatus → List SendStatus
progress id total i zero told = told
progress id total i (suc n) told = progress id total (i + 1) n (sending id (i + 1) total ∷ told)

-- A task between two frames.
abbrev bursting_task : SendTask → List (List ℕ) → ℕ → ℕ → List ℕ → SendTask
bursting_task t frames total_data i packet_ids = record t {
  phase = bursting;
  frames = frames;
  total_data = total_data;
  position = i;
  packet_ids = packet_ids;
}

finalize_send-Told :
    (id now : ℕ) (s : VoiceSender)
    → is_active id s ≡ true
    → (finalize_send id now s).emitted ≡ complete id ∷ s.emitted
unfolding finalize_send
finalize_send-Told id now s on = rw on refl

drain-idle :
    (id deadline now : ℕ) (s : VoiceSender) (t : SendTask)
    → inflight_count id s ≡ 0
    → drain id deadline now s t ≡ (finalize_send id now s, record t { phase = ended })
unfolding drain
drain-idle id deadline now s t idle = rw idle refl

-- The state behind a frame that was accepted.
frame_accepted-Kept :
    (id packet_id : ℕ) (s : VoiceSender) (t : SendTask)
    → (is_active id (frame_accepted id packet_id s t).0 ≡ is_active id s)
      × (inflight_count id (frame_accepted id packet_id s t).0 ≡ inflight_count id s)
      × ((frame_accepted id packet_id s t).0.emitted
          ≡ sending id (t.position + 1) t.total_frames ∷ s.emitted)
unfolding frame_accepted mark_sent is_active inflight_count
frame_accepted-Kept id packet_id s t = elim (Bool-cases (ltb t.position t.total_data)) [
  | inl lt ↦ rw lt (refl, refl, refl)
  | inr ge ↦ rw ge (refl, refl, refl)
]

append_nil : (xs : List ℕ) → xs ++ [] ≡ xs
append_nil [] = refl
append_nil (x ∷ xs) = ap (λ l. x ∷ l) (append_nil xs)

-- The task ends, and all that was told then is `told`.
abbrev pub Finishes : ℕ → ℕ → List RunEvent → VoiceSender × SendTask → List SendStatus → Type 0
Finishes id now events r told =
    ((run_all id now events r).1.phase ≡ ended) × ((run_all id now events r).0.emitted ≡ told)

run_send-frame :
    (id now : ℕ) (f : List ℕ) (fs : List (List ℕ)) (s : VoiceSender) (t : SendTask) (total i : ℕ)
    (ids : List ℕ)
    → is_active id s ≡ true
    → run_send id now scheduled s (bursting_task t (f ∷ fs) total i ids)
      ≡ (s, record (bursting_task t (f ∷ fs) total i ids) { phase = enqueued })
unfolding run_send run_step next_frame
run_send-frame id now f fs s t total i ids on = rw on refl

burst-Finishes :
    (id now : ℕ) (frames : List (List ℕ)) (packet_ids : List ℕ) (s : VoiceSender) (t : SendTask)
    (total i : ℕ) (ids : List ℕ)
    → length frames ≡ length packet_ids
    → is_active id s ≡ true
    → inflight_count id s ≡ 0
    → Finishes id now
        (accepts_all packet_ids)
        (s, bursting_task t frames total i ids)
        (complete id
          ∷ burst_complete id (ids ++ packet_ids)
          ∷ progress id t.total_frames i (length frames) s.emitted)
unfolding run_all accepts_all run_send run_step next_frame progress frame_accepted inflight_count
    is_active
burst-Finishes id now [] [] s t total i ids e on idle =
    let told = emit (burst_complete id ids) s in
    let over = drain-idle id (now + retransmit_drain_timeout) now told _ idle in
    (
      ap (λ r. r.1.phase) over,
      ap (λ r. r.0.emitted) over
          ∙ finalize_send-Told id now told on
          ∙ ap (λ l. complete id ∷ burst_complete id l ∷ s.emitted) (sym (append_nil ids)),
    )
burst-Finishes id now [] (p ∷ ps) s t total i ids e on idle = absurd (omega (arith, e))
burst-Finishes id now (f ∷ fs) [] s t total i ids e on idle = absurd (omega (arith, e))
burst-Finishes id now (f ∷ fs) (p ∷ ps) s t total i ids e on idle =
    let t' : SendTask = record (bursting_task t (f ∷ fs) total i ids) { phase = enqueued } in
    let k = frame_accepted-Kept id p s t' in
    let s' = (frame_accepted id p s t').0 in
    let rest =
      burst-Finishes id now fs ps s' t total (i + 1) (ids ++ p ∷ []) (omega (arith, e)) (k.0 ∙ on)
        (k.1 ∙ idle) in
    let all =
      complete id
      ∷ burst_complete id (ids ++ p ∷ ps)
      ∷ progress id t.total_frames (i + 1) (length fs)
          (sending id (i + 1) t.total_frames ∷ s.emitted) in
    let told =
      ap
        (λ l.
          complete id
          ∷ burst_complete id l
          ∷ progress id t.total_frames (i + 1) (length fs) s'.emitted)
        (append_assoc ids (p ∷ []) ps)
      ∙ ap
          (λ l.
            complete id
            ∷ burst_complete id (ids ++ p ∷ ps)
            ∷ progress id t.total_frames (i + 1) (length fs) l)
          k.2 in
    subst (λ r. Finishes id now (accepted p ∷ accepts_all ps) r all)
      (sym (run_send-frame id now f fs s t total i ids on)) (rest.0, rest.1 ∙ told)

-- The number of data chunks that the task reads when it starts.
abbrev counted : ℕ → VoiceSender → SendTask → ℕ
unfolding meta
counted id s t = unwrap_or (data_count (meta s.registry id)) (t.total_frames % 256)

run_send-start :
    (id now : ℕ) (s : VoiceSender) (t : SendTask)
    → t.phase ≡ starting
    → t.position ≡ 0
    → t.packet_ids ≡ []
    → is_active id s ≡ true
    → run_send id now scheduled s t ≡ (s, bursting_task t t.frames (counted id s t) 0 [])
unfolding run_send run_step start_task counted
run_send-start id now s t p z n on =
    ap (λ q. run_step id now scheduled q s t) p
    ∙ rw on (λ i. (s, bursting_task t t.frames (counted id s t) (z i) (n i)))

-- A send that is active, that no retransmit is in flight of and that nobody disturbs, its frames taken
-- by the radio one by one: its task ends, and what it told is one `Sending` for each frame, in order
-- and counted from 1, then `BurstComplete` with the packet ids in order, then `Complete`.
pub run_send-Finishes :
    (id now : ℕ) (packet_ids : List ℕ) (s : VoiceSender) (t : SendTask)
    → t.phase ≡ starting
    → t.position ≡ 0
    → t.packet_ids ≡ []
    → length t.frames ≡ length packet_ids
    → is_active id s ≡ true
    → inflight_count id s ≡ 0
    → Finishes id now
        (scheduled ∷ accepts_all packet_ids)
        (s, t)
        (complete id
          ∷ burst_complete id packet_ids
          ∷ progress id t.total_frames 0 (length t.frames) s.emitted)
unfolding run_all
run_send-Finishes id now packet_ids s t p z n e on idle =
    let begun = run_send-start id now s t p z n on in
    subst
      (λ r. Finishes id now (accepts_all packet_ids) r (
        complete id
        ∷ burst_complete id packet_ids
        ∷ progress id t.total_frames 0 (length t.frames) s.emitted))
      (sym begun) (burst-Finishes id now t.frames packet_ids s t (counted id s t) 0 [] e on idle)
