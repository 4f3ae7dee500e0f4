-- ===== src/Voice/Sender/System/Balance.antt =====
-- crates/voicetastic-core/src/voice/sender.rs: the counts stand for the retransmits under way, and the
-- end of a send waits for them.
use voicetastic_core.Prelude.{
  ℕ, ◌+◌, ◌≤◌, ◌<◌, ◌&&◌, Option, List, [], ◌∷◌, ◌++◌, ==_iff, ltb, lt→ltb, ◌≡◌, refl, sym, ap, ◌∙◌,
  Bool-cases, inl, inr, arith,
}
use voicetastic_core.Prelude.Assoc.{lookup}
use voicetastic_core.Prelude.Int.{ℤ}
use voicetastic_core.Proto.Error.{ok}
use voicetastic_core.Proto.Mac.{Sha256}
use voicetastic_core.Proto.ReedSolomon.{ReedSolomon}
use voicetastic_core.Voice.Sender.{
  SendRequest, VoiceSender, Phase, bursting, enqueued, draining, SendTask, Draw, new_sender,
  fresh_message_id, send, start_send, clean_up, is_active, inflight_count,
}
use voicetastic_core.Voice.Sender.Burst.{
  RunEvent, scheduled, refused, elapsed, accepted, next_frame, frame_accepted, frame_refused,
  mark_sent, finalize_send, drain, run_step, run_send,
}
use voicetastic_core.Voice.Sender.Requests.{Retransmit, batch, waking, note_lagged}
use voicetastic_core.Voice.Sender.System.{
  System, sent, answered, went_on, Step, sends, runs, hears, answers, lags, goes_on, wakes, Reach,
  start, later,
}
use voicetastic_core.Voice.Sender.Terminal.Steps.{send_chain}
use voicetastic_core.Voice.Sender.System.Tallies.{at, task_id, pending_of, pending_of-append, tally}
use voicetastic_core.Voice.Sender.System.Loads.{Loads, inflight_count-tally}
use voicetastic_core.Voice.Sender.System.Calls.{
  IsCounted, on_nack-Loads, batch_step-Loads, wake_step-Loads,
}

finalize_send-counts :
    (id now : ℕ) (s : VoiceSender)
    → (finalize_send id now s).retransmit_inflight ≡ s.retransmit_inflight
unfolding finalize_send
finalize_send-counts id now s = elim (Bool-cases (is_active id s)) [
  | inl on ↦ rw on refl
  | inr off ↦ rw off refl
]

run_step-counts :
    (id now : ℕ) (event : RunEvent) (p : Phase) (s : VoiceSender) (t : SendTask)
    → (run_step id now event p s t).0.retransmit_inflight ≡ s.retransmit_inflight
unfolding run_step next_frame frame_accepted frame_refused mark_sent clean_up drain
run_step-counts id now scheduled bursting s t =
    elim t.frames as (λ f. (next_frame id f s t).0.retransmit_inflight ≡ s.retransmit_inflight) [
      | [] ↦ refl
      | frame ∷ frames ↦ refl
    ]
run_step-counts id now (accepted packet_id) enqueued s t =
    elim (Bool-cases (ltb t.position t.total_data)) [ inl lt ↦ rw lt refl | inr ge ↦ rw ge refl ]
run_step-counts id now refused enqueued s t = refl
run_step-counts id now elapsed (draining deadline) s t =
    elim (Bool-cases (ltb 0 (inflight_count id s) && ltb now deadline)) [
      | inl on ↦ rw on refl
      | inr off ↦ rw off (finalize_send-counts id now s)
    ]
run_step-counts id now event p s t = refl

-- The count of each send is the number of its batches and wake-ups.
pub record IsBalanced (y : System) : Type 0 where
  pub counted : IsCounted y.sender
  pub balanced : (id : ℕ) → tally id y.sender.retransmit_inflight ≡ pending_of id y.pending

same-IsBalanced :
    (y z : System)
    → z.sender.retransmit_inflight ≡ y.sender.retransmit_inflight
    → z.pending ≡ y.pending
    → IsBalanced y
    → IsBalanced z
same-IsBalanced y z e p h = record {
  counted = rw e h.counted;
  balanced = λ id. ap (tally id) e ∙ h.balanced id ∙ ap (pending_of id) (sym p);
}

answered-IsBalanced :
    (y : System) (r : VoiceSender × List Retransmit)
    → Loads y.sender (λ id. 0) r
    → IsBalanced y
    → IsBalanced (answered r y)
answered-IsBalanced y r l h = record {
  counted = l.distinct;
  balanced = λ id.
      let count = l.count id in
      let before = h.balanced id in
      let both = pending_of-append id y.pending r.1 in omega (arith, count, before, both);
}

pending-split :
    (id : ℕ) (task : Retransmit) (pre post : List Retransmit)
    → pending_of id (pre ++ task ∷ post)
      ≡ pending_of id pre + (at (task_id task) id + pending_of id post)
unfolding pending_of
pending-split id task pre post = pending_of-append id pre (task ∷ post)

-- A task that is under way is counted.
pending-counted :
    (y : System) (task : Retransmit) (pre post : List Retransmit)
    → y.pending ≡ pre ++ task ∷ post
    → IsBalanced y
    → 1 ≤ tally (task_id task) y.sender.retransmit_inflight
pending-counted y task pre post e h =
    let j = task_id task in
    let own : at j j ≡ 1 = rw ((==_iff j j).1 refl) refl in
    let total = h.balanced j ∙ ap (pending_of j) e ∙ pending-split j task pre post in
    omega (arith, own, total)

went_on-IsBalanced :
    (y : System) (task : Retransmit) (pre post : List Retransmit)
    (r : VoiceSender × List Retransmit)
    → y.pending ≡ pre ++ task ∷ post
    → Loads y.sender (at (task_id task)) r
    → IsBalanced y
    → IsBalanced (went_on pre post r y)
went_on-IsBalanced y task pre post r e l h = record {
  counted = l.distinct;
  balanced = λ id.
      let count = l.count id in
      let total = h.balanced id ∙ ap (pending_of id) e ∙ pending-split id task pre post in
      let outer = pending_of-append id (pre ++ r.1) post in
      let inner = pending_of-append id pre r.1 in omega (arith, count, total, outer, inner);
}

-- `send` counts nothing.
send-counts :
    (sha : Sha256) (rs : ReedSolomon) (draw : ℕ → Draw) (size : ℕ) (lora : Option ℤ) (now : ℕ)
    (req : SendRequest) (s s' : VoiceSender) (id : ℕ) (t : SendTask)
    → send sha rs draw size lora now req s ≡ ok (s', id, t)
    → s'.retransmit_inflight ≡ s.retransmit_inflight
unfolding send start_send
send-counts sha rs draw size lora now req s s' id t e =
    let (j, encoded, q) = send_chain (fresh_message_id draw s) _ _ (s', id, t) e in
    ap (λ (r : VoiceSender × ℕ × SendTask). r.0.retransmit_inflight) (sym q)

Step-IsBalanced : {y z : System} → Step y z → IsBalanced y → IsBalanced z
unfolding run_send note_lagged
Step-IsBalanced (sends sha rs draw size lora now req y s id t e new) h =
    same-IsBalanced y (sent s id t y) (send-counts sha rs draw size lora now req y.sender s id t e)
      refl h
Step-IsBalanced (runs id now event y t found) h =
    same-IsBalanced y _ (run_step-counts id now event t.phase y.sender t) refl h
Step-IsBalanced (hears sha incoming y) h = same-IsBalanced y _ refl refl h
Step-IsBalanced (answers clock pacing y) h =
    answered-IsBalanced y _ (on_nack-Loads clock pacing y.heard y.sender h.counted) h
Step-IsBalanced (lags n y) h = same-IsBalanced y _ refl refl h
Step-IsBalanced (goes_on took id plan pre post y e) h =
    let own = pending-counted y (batch id plan) pre post e h in
    went_on-IsBalanced y (batch id plan) pre post _ e
      (batch_step-Loads took id plan y.sender h.counted own) h
Step-IsBalanced (wakes id deadline pacing clock pre post y e) h =
    let own = pending-counted y (waking id deadline) pre post e h in
    went_on-IsBalanced y (waking id deadline) pre post _ e
      (wake_step-Loads id pacing clock y.sender h.counted own) h

Reach-IsBalanced : {y : System} → Reach y → IsBalanced y
unfolding new_sender pending_of tally lookup
Reach-IsBalanced start = record { counted = tt; balanced = λ id. refl }
Reach-IsBalanced (later r s) = Step-IsBalanced s (Reach-IsBalanced r)

drain-Waits :
    (id deadline now : ℕ) (s : VoiceSender) (t : SendTask)
    → 0 < inflight_count id s
    → now < deadline
    → drain id deadline now s t ≡ (s, t)
unfolding drain
drain-Waits id deadline now s t h lt =
    rw (lt→ltb 0 (inflight_count id s) h, lt→ltb now deadline lt) refl

-- In every state that the sender, its tasks and its listener can reach, two sends never sharing an
-- id: while a batch or a wake-up of a send is under way and the deadline lies ahead, the task of that
-- send, its linger over, stays as it is and tells nothing, whatever wakes it.
pub Reach-Waits :
    (y : System)
    → Reach y
    → (id deadline now : ℕ) (event : RunEvent) (t : SendTask) → t.phase ≡ draining deadline
    → now < deadline
    → 0 < pending_of id y.pending
    → run_send id now event y.sender t ≡ (y.sender, t)
unfolding run_send run_step
Reach-Waits y r id deadline now event t p lt some_task =
    let h = Reach-IsBalanced r in
    let counted = inflight_count-tally id y.sender ∙ h.balanced id in
    let waits = drain-Waits id deadline now y.sender t (omega (arith, counted, some_task)) lt in
    ap (λ q. run_step id now event q y.sender t) p
    ∙ elim event as (λ e. run_step id now e (draining deadline) y.sender t ≡ (y.sender, t)) [
      | scheduled ↦ refl
      | refused ↦ refl
      | elapsed ↦ waits
      | accepted k ↦ refl
    ]
