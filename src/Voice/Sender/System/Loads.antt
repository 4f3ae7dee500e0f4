-- ===== src/Voice/Sender/System/Loads.antt =====
-- crates/voicetastic-core/src/voice/sender.rs: what each call does to the counts and the tasks.
use voicetastic_core.Prelude.{ℕ, ◌+◌, ◌≤◌, List, [], ◌==◌, ◌≡◌, refl, ap, ◌∙◌, arith}
use voicetastic_core.Prelude.Assoc.{lookup}
use voicetastic_core.Prelude.Assoc.Laws.{
  Distinct, number-IsTest, lookup-remove_self, Distinct-remove,
}
use voicetastic_core.Voice.Sender.{VoiceSender, inflight_inc, inflight_dec, inflight_count}
use voicetastic_core.Voice.Sender.Requests.{Retransmit}
use voicetastic_core.Voice.Sender.System.Tallies.{
  at, pending_of, tally, tally-raised, tally-lowered, Distinct-lowered,
}

pub inflight_count-tally :
    (id : ℕ) (s : VoiceSender) → inflight_count id s ≡ tally id s.retransmit_inflight
unfolding inflight_count tally
inflight_count-tally id s = refl

-- A call that uses up `used id` tasks of each send: the counts move as the tasks that it leaves do.
pub record Loads (s : VoiceSender) (used : ℕ → ℕ) (r : VoiceSender × List Retransmit) : Type 0 where
  pub distinct : Distinct ◌==◌ r.0.retransmit_inflight
  pub count :
      (id : ℕ)
      → tally id r.0.retransmit_inflight + used id
        ≡ tally id s.retransmit_inflight + pending_of id r.1

module _ (s : VoiceSender) (d : Distinct ◌==◌ s.retransmit_inflight) where
  pub still-Loads :
      (s' : VoiceSender) (used : ℕ → ℕ) (ts : List Retransmit)
      → s'.retransmit_inflight ≡ s.retransmit_inflight
      → ((id : ℕ) → pending_of id ts ≡ used id)
      → Loads s used (s', ts)
  still-Loads s' used ts e h = record { distinct = rw e d; count = λ id. rw (e, h id) refl }

  pub raised-Loads :
      (s' : VoiceSender) (j : ℕ) (ts : List Retransmit)
      → s'.retransmit_inflight ≡ (inflight_inc j s).retransmit_inflight
      → ((id : ℕ) → pending_of id ts ≡ at j id)
      → Loads s (λ id. 0) (s', ts)
  unfolding inflight_inc tally
  raised-Loads s' j ts e h = record {
    distinct = rw e (
      lookup-remove_self ◌==◌ number-IsTest j s.retransmit_inflight d,
      Distinct-remove ◌==◌ number-IsTest j s.retransmit_inflight d,
    );
    count = λ id.
        let raised = ap (tally id) e ∙ tally-raised id j s.retransmit_inflight in
        let made = h id in omega (arith, raised, made);
  }

  pub lowered-Loads :
      (s' : VoiceSender) (j : ℕ)
      → 1 ≤ tally j s.retransmit_inflight
      → s'.retransmit_inflight ≡ (inflight_dec j s).retransmit_inflight
      → Loads s (at j) (s', [])
  unfolding inflight_dec tally pending_of
  lowered-Loads s' j h e = record {
    distinct =
        rw e (Distinct-lowered j (lookup ◌==◌ j s.retransmit_inflight) s.retransmit_inflight d);
    count = λ id.
        let low = tally-lowered id j s.retransmit_inflight _ refl d h in
        let same = ap (tally id) e in omega (arith, low, same);
  }
