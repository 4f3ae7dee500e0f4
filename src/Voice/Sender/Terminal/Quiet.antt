-- ===== src/Voice/Sender/Terminal/Quiet.antt =====
-- crates/voicetastic-core/src/voice/sender.rs: what touches neither the active sends nor a terminal
-- status: the retransmits.
use voicetastic_core.Prelude.{
  ℕ, zero, suc, ◌+◌, ◌*◌, ◌&&◌, Bool, true, false, Option, none, some, List, [], ◌∷◌, ◌==◌,
  if◌then◌else◌, ◌≡◌, refl, ap,
}
use voicetastic_core.Voice.Outgoing.{
  take_retransmit, TakeResult, frames_to_send, skipped, cooldown_active, ttl_expired,
  budget_exhausted, all_chunks_pending, defer_nack, DeferOutcome, scheduled, already_scheduled,
  cooldown_elapsed, gone, take_deferred,
}
use voicetastic_core.Voice.Sender.{
  SendStatus, retransmitting, is_terminal, status_id, VoiceSender, inflight_inc, inflight_dec,
}
use voicetastic_core.Voice.Sender.Requests.{
  Retransmit, on_taken, on_deferred, dispatch_plan, scheduled_at, sleeps_on, ships, stops_waking,
  with_registry, serve_round, batch_step, after_deferred, wake_step,
}

-- The terminal statuses of a send, the latest first.
unfoldable pub terminals : ℕ → List SendStatus → List SendStatus
unfolding is_terminal status_id
terminals id [] = []
terminals id (e ∷ es) =
    let rest = terminals id es in if is_terminal e && status_id e == id then e ∷ rest else rest

pub record IsQuiet (s s' : VoiceSender) : Type 0 where
  pub active : s'.active ≡ s.active
  pub told : (id : ℕ) → terminals id s'.emitted ≡ terminals id s.emitted

module _ {κ} (P : VoiceSender × List Retransmit → Type κ) where
  pub on_deferred-holds :
      (o : DeferOutcome) (again : VoiceSender × List Retransmit)
      (later : ℕ → VoiceSender × List Retransmit) (done : VoiceSender × List Retransmit)
      → P again
      → ((deadline : ℕ) → P (later deadline))
      → P done
      → P (on_deferred o again later done)
  on_deferred-holds (scheduled deadline) again later done a l d = l deadline
  on_deferred-holds already_scheduled again later done a l d = d
  on_deferred-holds cooldown_elapsed again later done a l d = a
  on_deferred-holds gone again later done a l d = d

  pub on_taken-holds :
      (o : TakeResult) (dispatch : List (ℕ × List ℕ) → VoiceSender × List Retransmit)
      (defer done : VoiceSender × List Retransmit)
      → ((plan : List (ℕ × List ℕ)) → P (dispatch plan))
      → P defer
      → P done
      → P (on_taken o dispatch defer done)
  on_taken-holds (frames_to_send []) dispatch defer done p f d = d
  on_taken-holds (frames_to_send (f ∷ plan)) dispatch defer done p h d = p (f ∷ plan)
  on_taken-holds (skipped cooldown_active) dispatch defer done p f d = f
  on_taken-holds (skipped ttl_expired) dispatch defer done p f d = d
  on_taken-holds (skipped budget_exhausted) dispatch defer done p f d = d
  on_taken-holds (skipped all_chunks_pending) dispatch defer done p f d = d

-- A new registry and new counts change nothing of it.
pub same-IsQuiet :
    (s s' : VoiceSender) → s'.active ≡ s.active → s'.emitted ≡ s.emitted → IsQuiet s s'
same-IsQuiet s s' a e = record { active = a; told = λ id. ap (terminals id) e }

-- What `serve_round` and the wake-ups tell.
note-IsQuiet :
    (s s' : VoiceSender) (id : ℕ) (chunks : List ℕ)
    → s'.active ≡ s.active
    → s'.emitted ≡ retransmitting id chunks ∷ s.emitted
    → IsQuiet s s'
unfolding terminals is_terminal
note-IsQuiet s s' id chunks a e = record { active = a; told = λ j. ap (terminals j) e }

pub serve_round-IsQuiet :
    (rounds : ℕ) (clock : ℕ → ℕ) (id : ℕ) (missing : List ℕ) (pacing : ℕ) (s : VoiceSender)
    → IsQuiet s (serve_round rounds clock id missing pacing s).0
unfolding serve_round dispatch_plan scheduled_at inflight_inc
serve_round-IsQuiet zero clock id missing pacing s = same-IsQuiet s _ refl refl
serve_round-IsQuiet (suc rounds) clock id missing pacing s =
    on_taken-holds (λ r. IsQuiet s r.0)
      (take_retransmit s.registry id missing pacing (clock (2 * rounds + 1))).1 _ _ _
      (λ plan. note-IsQuiet s _ id _ refl refl)
      (on_deferred-holds (λ r. IsQuiet s r.0)
        (defer_nack (take_retransmit s.registry id missing pacing (clock (2 * rounds + 1))).0 id
          missing (clock (2 * rounds))).1
        _ _ _
        (let q = serve_round-IsQuiet rounds clock id missing pacing _ in
          record { active = q.active; told = q.told })
        (λ d. same-IsQuiet s _ refl refl) (same-IsQuiet s _ refl refl))
      (same-IsQuiet s _ refl refl)

pub batch_step-IsQuiet :
    (accepted : Bool) (id : ℕ) (plan : List (ℕ × List ℕ)) (s : VoiceSender)
    → IsQuiet s (batch_step accepted id plan s).0
unfolding batch_step inflight_dec
batch_step-IsQuiet accepted id [] s = same-IsQuiet s _ refl refl
batch_step-IsQuiet true id (f ∷ plan) s = same-IsQuiet s _ refl refl
batch_step-IsQuiet false id (f ∷ plan) s = same-IsQuiet s _ refl refl

after_deferred-IsQuiet :
    (id pacing : ℕ) (clock : ℕ → ℕ) (stashed : Option (List ℕ)) (s : VoiceSender)
    → IsQuiet s (after_deferred id pacing clock stashed s).0
unfolding after_deferred sleeps_on stops_waking ships inflight_inc inflight_dec
after_deferred-IsQuiet id pacing clock none s = same-IsQuiet s _ refl refl
after_deferred-IsQuiet id pacing clock (some missing) s =
    on_taken-holds (λ r. IsQuiet s r.0) (take_retransmit s.registry id missing pacing (clock 1)).1 _
      _ _ (λ plan. note-IsQuiet s _ id _ refl refl)
      (on_deferred-holds (λ r. IsQuiet s r.0)
        (defer_nack (take_retransmit s.registry id missing pacing (clock 1)).0 id missing
          (clock 0)).1
        _ _ _ (same-IsQuiet s _ refl refl) (λ d. same-IsQuiet s _ refl refl)
        (same-IsQuiet s _ refl refl))
      (same-IsQuiet s _ refl refl)

pub wake_step-IsQuiet :
    (id pacing : ℕ) (clock : ℕ → ℕ) (s : VoiceSender) → IsQuiet s (wake_step id pacing clock s).0
unfolding wake_step
wake_step-IsQuiet id pacing clock s =
    let stashed = take_deferred s.registry id in
    let q = after_deferred-IsQuiet id pacing clock stashed.1 (with_registry stashed.0 s) in
    record { active = q.active; told = q.told }
