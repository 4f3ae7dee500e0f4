-- ===== src/Voice/Sender/System/Calls.antt =====
-- crates/voicetastic-core/src/voice/sender.rs: the calls of the listener and of the retransmits, by
-- the counts that they move.
use voicetastic_core.Prelude.{
  ℕ, zero, suc, ◌+◌, ◌*◌, ◌≤◌, Bool, true, false, Option, none, some, List, [], ◌∷◌, ◌==◌, ◌≡◌,
  refl, Bool-cases, inl, inr, arith, ==_iff,
}
use voicetastic_core.Prelude.Assoc.Laws.{
  Distinct, number-IsTest, lookup-remove_self, Distinct-remove,
}
use voicetastic_core.Voice.Nack.{NackInfo}
use voicetastic_core.Voice.Outgoing.{take_retransmit, defer_nack, take_deferred}
use voicetastic_core.Voice.Sender.{VoiceSender, inflight_inc, inflight_dec, clean_up}
use voicetastic_core.Voice.Sender.Requests.{
  dispatch_plan, scheduled_at, sleeps_on, ships, stops_waking, with_registry, serve_round, on_nack,
  batch_step, after_deferred, wake_step,
}
use voicetastic_core.Voice.Sender.Terminal.Quiet.{on_taken-holds, on_deferred-holds}
use voicetastic_core.Voice.Sender.System.Tallies.{at, pending_of, tally, tally-raised}
use voicetastic_core.Voice.Sender.System.Loads.{Loads, still-Loads, raised-Loads, lowered-Loads}

abbrev pub IsCounted : VoiceSender → Type 0
IsCounted s = Distinct ◌==◌ s.retransmit_inflight

serve_round-Loads :
    (rounds : ℕ) (clock : ℕ → ℕ) (id : ℕ) (missing : List ℕ) (pacing : ℕ) (s : VoiceSender)
    → IsCounted s
    → Loads s (λ j. 0) (serve_round rounds clock id missing pacing s)
unfolding serve_round dispatch_plan scheduled_at pending_of inflight_inc
serve_round-Loads zero clock id missing pacing s d = still-Loads s d s _ [] refl (λ j. refl)
serve_round-Loads (suc rounds) clock id missing pacing s d =
    let taken = take_retransmit s.registry id missing pacing (clock (2 * rounds + 1)) in
    let deferred = defer_nack taken.0 id missing (clock (2 * rounds)) in
    let s'' : VoiceSender = with_registry deferred.0 s in
    let rest = serve_round-Loads rounds clock id missing pacing s'' d in
    on_taken-holds (λ r. Loads s (λ j. 0) r) taken.1 _ _ _
      (λ plan. raised-Loads s d _ id _ refl (λ j. omega arith))
      (on_deferred-holds (λ r. Loads s (λ j. 0) r) deferred.1 _ _ _
        (record { distinct = rest.distinct; count = rest.count })
        (λ deadline. raised-Loads s d _ id _ refl (λ j. omega arith))
        (still-Loads s d _ _ [] refl (λ j. refl)))
      (still-Loads s d _ _ [] refl (λ j. refl))

pub on_nack-Loads :
    (clock : ℕ → ℕ) (pacing : ℕ) (heard : Option (ℕ × NackInfo)) (s : VoiceSender)
    → IsCounted s
    → Loads s (λ j. 0) (on_nack clock pacing heard s)
unfolding on_nack clean_up pending_of
on_nack-Loads clock pacing none s d = still-Loads s d s _ [] refl (λ j. refl)
on_nack-Loads clock pacing (some (k, nack)) s d = elim (Bool-cases nack.give_up) [
  | inl on ↦ rw on (still-Loads s d _ _ [] refl (λ j. refl))
  | inr off ↦ rw off (serve_round-Loads 3 clock nack.message_id nack.missing pacing s d)
]

pub batch_step-Loads :
    (accepted : Bool) (id : ℕ) (plan : List (ℕ × List ℕ)) (s : VoiceSender)
    → IsCounted s
    → 1 ≤ tally id s.retransmit_inflight
    → Loads s (at id) (batch_step accepted id plan s)
unfolding batch_step pending_of inflight_dec
batch_step-Loads accepted id [] s d h = lowered-Loads s d _ id h refl
batch_step-Loads true id (f ∷ plan) s d h = still-Loads s d _ _ _ refl (λ j. omega arith)
batch_step-Loads false id (f ∷ plan) s d h = lowered-Loads s d _ id h refl

-- A wake-up that goes back to sleep.
sleeps_on-Loads :
    (id deadline : ℕ) (s : VoiceSender) → IsCounted s → Loads s (at id) (sleeps_on id deadline s)
unfolding sleeps_on pending_of inflight_inc tally
sleeps_on-Loads id deadline s d =
    let up : VoiceSender = inflight_inc id s in
    let raised = λ (j : ℕ). tally-raised j id s.retransmit_inflight in
    let counted : IsCounted up = (
      lookup-remove_self ◌==◌ number-IsTest id s.retransmit_inflight d,
      Distinct-remove ◌==◌ number-IsTest id s.retransmit_inflight d,
    ) in
    let own : at id id ≡ 1 = rw ((==_iff id id).1 refl) refl in
    let low =
      lowered-Loads up counted (inflight_dec id up) id (omega (arith, raised id, own)) refl in
    record {
      distinct = low.distinct;
      count = λ j. let l = low.count j in let r = raised j in omega (arith, l, r);
    }

after_deferred-Loads :
    (id pacing : ℕ) (clock : ℕ → ℕ) (stashed : Option (List ℕ)) (s : VoiceSender)
    → IsCounted s
    → 1 ≤ tally id s.retransmit_inflight
    → Loads s (at id) (after_deferred id pacing clock stashed s)
unfolding after_deferred ships stops_waking pending_of inflight_dec
after_deferred-Loads id pacing clock none s d h = lowered-Loads s d _ id h refl
after_deferred-Loads id pacing clock (some missing) s d h =
    let taken = take_retransmit s.registry id missing pacing (clock 1) in
    let deferred = defer_nack taken.0 id missing (clock 0) in
    let sleeps = λ (deadline : ℕ). sleeps_on-Loads id deadline (with_registry deferred.0 s) d in
    on_taken-holds (λ r. Loads s (at id) r) taken.1 _ _ _
      (λ plan. still-Loads s d _ _ _ refl (λ j. omega arith))
      (on_deferred-holds (λ r. Loads s (at id) r) deferred.1 _ _ _ (lowered-Loads s d _ id h refl)
        (λ deadline. record {
          distinct = (sleeps deadline).distinct;
          count = (sleeps deadline).count;
        })
        (lowered-Loads s d _ id h refl))
      (lowered-Loads s d _ id h refl)

pub wake_step-Loads :
    (id pacing : ℕ) (clock : ℕ → ℕ) (s : VoiceSender)
    → IsCounted s
    → 1 ≤ tally id s.retransmit_inflight
    → Loads s (at id) (wake_step id pacing clock s)
unfolding wake_step
wake_step-Loads id pacing clock s d h =
    let stashed = take_deferred s.registry id in
    let l = after_deferred-Loads id pacing clock stashed.1 (with_registry stashed.0 s) d h in
    record { distinct = l.distinct; count = l.count }
