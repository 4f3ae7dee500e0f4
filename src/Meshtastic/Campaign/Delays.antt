-- ===== src/Meshtastic/Campaign/Delays.antt =====
-- crates/voicetastic-core/src/meshtastic/service/mod.rs: how long and how often the watcher tries.
use voicetastic_core.Prelude.{
  ℕ, ◌≤◌, ◌<◌, true, false, none, some, List, [], ◌∷◌, if◌then◌else◌, ◌≡◌, refl, sym, ap, subst,
  ◌∙◌, Bool-cases, inl, inr, arith,
}
use voicetastic_core.Voice.Assembler.State.{is_some}
use voicetastic_core.Meshtastic.Protocol.Service.{connecting}
use voicetastic_core.Meshtastic.Reconnect.{
  BleReconnectPolicy, from_secs, should_give_up, record_failure, next_delay, reset,
}
use voicetastic_core.Meshtastic.Reconnect.Growth.{Grows, next_delay-Grows}
use voicetastic_core.Meshtastic.Campaign.{
  Watcher, watcher_config, reconnect_stability_window, Place, waiting, trying, sleeping, Outcome,
  reached, refused, Event, connects, disconnects, drops, wakes, is_notified, answers, new_watcher,
  attempt, notified, slept, answered, campaign_should_reset, try_reconnect, user_disconnects,
  user_connects, link_drops, on_event, run,
}

watcher_config-Grows : Grows watcher_config
watcher_config-Grows = record {
  den_pos = omega arith;
  den_small = omega arith;
  factor = omega arith;
  starts = omega arith;
  in_range = omega arith;
}

abbrev pub Paced : Place → ℕ → Type 0
Paced waiting attempts = Unit {0}
Paced trying attempts = attempts < 10
Paced (sleeping delay) attempts = (delay ≤ from_secs 30) × (attempts < 10)

pub record IsPaced (w : Watcher) : Type 0 where
  pub config : w.policy.config ≡ watcher_config
  pub few : w.policy.attempts ≤ 10
  pub paced : Paced w.place w.policy.attempts

delay_le :
    (p : BleReconnectPolicy)
    → p.config ≡ watcher_config
    → p.attempts ≤ 10
    → next_delay p ≤ from_secs 30
delay_le p c few =
    let grows = subst Grows (sym c) watcher_config-Grows in
    let bound = (next_delay-Grows p grows (omega (arith, few))).1 in
    subst (λ d. next_delay p ≤ d) (ap (λ k. k.max_delay) c) bound

attempts_lt :
    (p : BleReconnectPolicy)
    → p.config ≡ watcher_config
    → p.attempts ≤ 10
    → should_give_up p ≡ false
    → p.attempts < 10
unfolding should_give_up
attempts_lt p c few h =
    let limit : p.config.max_attempts ≡ some 10 = ap (λ k. k.max_attempts) c in
    ground (arith, limit, h, few)

attempt-IsPaced :
    (w : Watcher) → w.policy.config ≡ watcher_config → w.policy.attempts ≤ 10 → IsPaced (attempt w)
unfolding attempt
attempt-IsPaced w c few = elim (Bool-cases (should_give_up w.policy)) [
  | inl on ↦ rw on (record { config = c; few = few; paced = tt })
  | inr off ↦ rw off (record {
    config = c;
    few = few;
    paced = (delay_le w.policy c few, attempts_lt w.policy c few off);
  })
]

notified-IsPaced : (now : ℕ) (w : Watcher) → IsPaced w → IsPaced (notified now w)
unfolding notified reset
notified-IsPaced now w h =
    elim (Bool-cases (campaign_should_reset w.last_connected_at now reconnect_stability_window)) [
      | inl on ↦ rw on (
          attempt-IsPaced
            (record w { requested = false; last_connected_at = none; policy = reset w.policy })
            h.config (omega arith))
      | inr off ↦ rw off (
          attempt-IsPaced (record w { requested = false; last_connected_at = none }) h.config h.few)
    ]

slept-IsPaced :
    (w : Watcher) → w.policy.config ≡ watcher_config → w.policy.attempts < 10 → IsPaced (slept w)
unfolding slept
slept-IsPaced w c few =
    elim w.linked
      as (λ b. IsPaced (
        if b
        then record w { place = waiting }
        else if is_some w.reconnect_config
        then record w { state = connecting; place = trying }
        else record w { place = waiting })) [
          | true ↦ record { config = c; few = omega (arith, few); paced = tt }
          | false ↦
              elim (is_some w.reconnect_config)
                as (λ b. IsPaced (
                  if b
                  then record w { state = connecting; place = trying }
                  else record w { place = waiting })) [
                    | true ↦ record { config = c; few = omega (arith, few); paced = few }
                    | false ↦ record { config = c; few = omega (arith, few); paced = tt }
                  ]
        ]

answered-IsPaced :
    (now : ℕ) (o : Outcome) (w : Watcher)
    → w.policy.config ≡ watcher_config
    → w.policy.attempts < 10
    → IsPaced (answered now o w)
unfolding answered user_disconnects record_failure
answered-IsPaced now (reached state closes) w c few =
    elim (Bool-cases (is_some w.reconnect_config)) [
      | inl on ↦ rw on (record { config = c; few = omega (arith, few); paced = tt })
      | inr off ↦ rw off (record { config = c; few = omega (arith, few); paced = tt })
    ]
answered-IsPaced now (refused linked state) w c few =
    attempt-IsPaced (record w { linked = linked; state = state; policy = record_failure w.policy })
      c (ground (arith, few))

same-IsPaced : (w w' : Watcher) → w'.place ≡ w.place → w'.policy ≡ w.policy → IsPaced w → IsPaced w'
same-IsPaced w w' p q h = record {
  config = ap (λ k. k.config) q ∙ h.config;
  few = rw q h.few;
  paced = rw (p, q) h.paced;
}

on_event-IsPaced :
    (event : Event) (place : Place) (w : Watcher)
    → w.place ≡ place
    → IsPaced w
    → IsPaced (on_event event place w)
unfolding on_event user_connects user_disconnects link_drops try_reconnect
on_event-IsPaced (connects target (reached state closes)) place w e h = same-IsPaced w _ refl refl h
on_event-IsPaced (connects target (refused linked state)) place w e h = same-IsPaced w _ refl refl h
on_event-IsPaced (disconnects closes) place w e h = same-IsPaced w _ refl refl h
on_event-IsPaced drops place w e h = same-IsPaced w _ refl refl h
on_event-IsPaced (is_notified now) waiting w e h =
    elim w.requested as (λ b. IsPaced (if b then notified now w else w)) [
      | true ↦ notified-IsPaced now w h
      | false ↦ h
    ]
on_event-IsPaced (is_notified now) trying w e h = h
on_event-IsPaced (is_notified now) (sleeping d) w e h = h
on_event-IsPaced wakes waiting w e h = h
on_event-IsPaced wakes trying w e h = h
on_event-IsPaced wakes (sleeping d) w e h =
    let p : Paced (sleeping d) w.policy.attempts =
      subst (λ q. Paced q w.policy.attempts) e h.paced in
    slept-IsPaced w h.config p.1
on_event-IsPaced (answers now o) waiting w e h = h
on_event-IsPaced (answers now o) trying w e h =
    answered-IsPaced now o w h.config (subst (λ q. Paced q w.policy.attempts) e h.paced)
on_event-IsPaced (answers now o) (sleeping d) w e h = h

run-Kept : (events : List Event) (w : Watcher) → IsPaced w → IsPaced (run events w)
unfolding run
run-Kept [] w h = h
run-Kept (event ∷ events) w h = run-Kept events _ (on_event-IsPaced event w.place w refl h)

-- Whatever the user, the link and the clock do from the start of the service on: the watcher counts at
-- most ten failures in a row, sleeps and tries only below ten, and never sleeps longer than 30 s.
pub run-IsPaced : (events : List Event) → IsPaced (run events new_watcher)
unfolding new_watcher
run-IsPaced events =
    run-Kept events new_watcher (record { config = refl; few = omega arith; paced = tt })
