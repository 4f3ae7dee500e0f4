-- ===== src/Meshtastic/Campaign/Given.antt =====
-- crates/voicetastic-core/src/meshtastic/service/mod.rs: the watcher once it has given up.
use voicetastic_core.Prelude.{
  ℕ, zero, suc, ◌+◌, true, false, none, some, List, [], ◌∷◌, if◌then◌else◌, ◌≡◌, refl, ap, ◌∙◌,
  arith,
}
use voicetastic_core.Voice.Assembler.State.{is_some}
use voicetastic_core.Meshtastic.Protocol.Service.{disconnected, connecting}
use voicetastic_core.Meshtastic.Reconnect.{
  BleReconnectPolicy, should_give_up, record_failure, next_delay,
}
use voicetastic_core.Meshtastic.Campaign.{
  Target, watcher_config, reconnect_stability_window, slept, answered, Watcher, Place, waiting,
  trying, sleeping, reached, refused, Event, connects, disconnects, drops, wakes, is_notified,
  answers, attempt, notified, campaign_should_reset, try_reconnect, user_disconnects, user_connects,
  link_drops, on_event, run,
}

-- The watcher waits with its attempts used up, and no connection that it made stands.
pub record IsExhausted (w : Watcher) : Type 0 where
  pub idle : w.place ≡ waiting
  pub used_up : should_give_up w.policy ≡ true
  pub no_success : w.last_connected_at ≡ none

attempt-IsExhausted :
    (w : Watcher)
    → should_give_up w.policy ≡ true
    → w.last_connected_at ≡ none
    → IsExhausted (attempt w)
unfolding attempt
attempt-IsExhausted w u n = rw u (record { idle = refl; used_up = u; no_success = n })

notified-IsExhausted : (now : ℕ) (w : Watcher) → IsExhausted w → IsExhausted (notified now w)
unfolding notified campaign_should_reset
notified-IsExhausted now w h =
    let keeps : campaign_should_reset w.last_connected_at now reconnect_stability_window ≡ false =
      ap (λ l. campaign_should_reset l now reconnect_stability_window) h.no_success in
    rw keeps (
      attempt-IsExhausted (record w { requested = false; last_connected_at = none }) h.used_up refl)

same-IsExhausted :
    (w w' : Watcher)
    → w'.place ≡ w.place
    → w'.policy ≡ w.policy
    → w'.last_connected_at ≡ w.last_connected_at
    → IsExhausted w
    → IsExhausted w'
same-IsExhausted w w' p q l h = record {
  idle = p ∙ h.idle;
  used_up = ap should_give_up q ∙ h.used_up;
  no_success = l ∙ h.no_success;
}

on_event-IsExhausted :
    (event : Event) (place : Place) (w : Watcher)
    → w.place ≡ place
    → IsExhausted w
    → IsExhausted (on_event event place w)
unfolding on_event user_connects user_disconnects link_drops try_reconnect
on_event-IsExhausted (connects target (reached state closes)) place w e h =
    same-IsExhausted w _ refl refl refl h
on_event-IsExhausted (connects target (refused linked state)) place w e h =
    same-IsExhausted w _ refl refl refl h
on_event-IsExhausted (disconnects closes) place w e h = same-IsExhausted w _ refl refl refl h
on_event-IsExhausted drops place w e h = same-IsExhausted w _ refl refl refl h
on_event-IsExhausted (is_notified now) waiting w e h =
    elim w.requested as (λ b. IsExhausted (if b then notified now w else w)) [
      | true ↦ notified-IsExhausted now w h
      | false ↦ h
    ]
on_event-IsExhausted (is_notified now) trying w e h = h
on_event-IsExhausted (is_notified now) (sleeping d) w e h = h
on_event-IsExhausted wakes waiting w e h = h
on_event-IsExhausted wakes trying w e h = h
on_event-IsExhausted wakes (sleeping d) w e h = absurd (cc (e, h.idle))
on_event-IsExhausted (answers now o) waiting w e h = h
on_event-IsExhausted (answers now o) trying w e h = absurd (cc (e, h.idle))
on_event-IsExhausted (answers now o) (sleeping d) w e h = h

-- Once the attempts are used up while the watcher waits, and it made no connection since, they stay
-- used up: whatever the user, the link and the clock do, the watcher never tries to connect again, not
-- even after the user has connected by hand and that link drops.
pub run-IsExhausted :
    (events : List Event) (w : Watcher) → IsExhausted w → IsExhausted (run events w)
unfolding run
run-IsExhausted [] w h = h
run-IsExhausted (event ∷ events) w h =
    run-IsExhausted events _ (on_event-IsExhausted event w.place w refl h)

-- `n` rounds of sleep and failed attempt, the slot left empty.
unfoldable pub failing : ℕ → List Event
failing zero = []
failing (suc n) = wakes ∷ answers 0 (refused false connecting) ∷ failing n

-- What a campaign that gives up leaves.
pub record IsGivenUp (w : Watcher) : Type 0 where
  pub exhausted : IsExhausted w
  pub no_target : w.reconnect_config ≡ none
  pub told : w.state ≡ disconnected

give_up_at :
    (p : BleReconnectPolicy)
    → p.config ≡ watcher_config
    → p.attempts + 1 ≡ 10
    → should_give_up (record_failure p) ≡ true
unfolding should_give_up record_failure
give_up_at p c k = rw (ap (λ d. d.max_attempts) c) (ground (arith, k))

go_on_at :
    (p : BleReconnectPolicy) (n : ℕ)
    → p.config ≡ watcher_config
    → p.attempts + suc (suc n) ≡ 10
    → should_give_up (record_failure p) ≡ false
unfolding should_give_up record_failure
go_on_at p n c k = rw (ap (λ d. d.max_attempts) c) (ground (arith, k))

count_at :
    (p : BleReconnectPolicy) (n : ℕ)
    → p.attempts + suc (suc n) ≡ 10
    → (record_failure p).attempts + suc n ≡ 10
unfolding record_failure
count_at p n k = ground (arith, k)

-- One round: the sleep ends, and the attempt fails.
round-attempt :
    (n : ℕ) (w : Watcher) (delay : ℕ) (target : Target)
    → w.place ≡ sleeping delay
    → w.linked ≡ false
    → w.reconnect_config ≡ some target
    → run (failing (suc n)) w
      ≡ run (failing n) (
          attempt (record w {
            place = trying;
            linked = false;
            state = connecting;
            policy = record_failure w.policy;
          }))
unfolding run failing on_event slept answered
round-attempt n w delay target p l t =
    let awake : slept w ≡ record w { state = connecting; place = trying } = λ i.
      if l i
      then record w { place = waiting }
      else if is_some (t i)
      then record w { state = connecting; place = trying }
      else record w { place = waiting } in
    let tries = ap (λ q. on_event wakes q w) p ∙ awake in
    ap (λ u. run (failing n) (on_event (answers 0 (refused false connecting)) u.place u)) tries

-- In a campaign whose next attempt is asleep and that nobody interferes with, the attempt that fails
-- as the tenth ends it: the watcher forgets the target, publishes `Disconnected`, and its attempts are
-- used up.
pub failing-IsGivenUp :
    (n : ℕ) (w : Watcher) (delay : ℕ) (target : Target)
    → w.place ≡ sleeping delay
    → w.policy.config ≡ watcher_config
    → w.policy.attempts + suc n ≡ 10
    → w.linked ≡ false
    → w.reconnect_config ≡ some target
    → w.last_connected_at ≡ none
    → IsGivenUp (run (failing (suc n)) w)
unfolding run failing attempt record_failure
failing-IsGivenUp zero w delay target p c k l t z =
    let u = give_up_at w.policy c k in
    rw (round-attempt zero w delay target p l t) (
      rw u (record {
        exhausted = record { idle = refl; used_up = u; no_success = z };
        no_target = refl;
        told = refl;
      }))
failing-IsGivenUp (suc n) w delay target p c k l t z =
    let go = go_on_at w.policy n c k in
    let w' : Watcher = record w {
      place = sleeping (next_delay (record_failure w.policy));
      linked = false;
      state = connecting;
      policy = record_failure w.policy;
    } in
    rw (round-attempt (suc n) w delay target p l t) (
      rw go (
        failing-IsGivenUp n w' (next_delay (record_failure w.policy)) target refl c
          (count_at w.policy n k) refl t z))
