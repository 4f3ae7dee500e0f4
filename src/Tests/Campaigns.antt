-- ===== src/Tests/Campaigns.antt =====
-- Tests and examples of the watcher of crates/voicetastic-core/src/meshtastic/service/mod.rs.
use voicetastic_core.Prelude.{true, some, List, [], ◌∷◌, ◌++◌, ◌≡◌, refl, arith}
use voicetastic_core.Meshtastic.Reconnect.{should_give_up}
use voicetastic_core.Meshtastic.Protocol.Service.{configuring}
use voicetastic_core.Meshtastic.Campaign.{
  Watcher, Target, ble, watcher_config, new_watcher, waiting, sleeping, Event, connects,
  disconnects, drops, wakes, is_notified, reached, run, on_event, attempt, notified, slept,
  answered, user_connects, link_drops, try_reconnect,
}
use voicetastic_core.Meshtastic.Campaign.Given.{
  IsExhausted, IsGivenUp, failing, run-IsExhausted, failing-IsGivenUp,
}
use voicetastic_core.Meshtastic.Campaign.Delays.{IsPaced, run-IsPaced}

abbrev radio : Target
radio = ble "radio"

-- The user connects, and the link drops.
abbrev visit : List Event
visit = connects radio (reached configuring true) ∷ drops ∷ is_notified 5 ∷ []

-- Ten failed attempts, then the user connects by hand and that link drops: nothing is tried.
given_up_for_good : (run (visit ++ failing 10 ++ visit) new_watcher).place ≡ waiting
unfolding run failing on_event new_watcher attempt notified slept answered user_connects link_drops
    try_reconnect
given_up_for_good = refl

abbrev tired : Watcher
tired = record new_watcher { policy = record { config = watcher_config; attempts = 10 } }

tired-IsExhausted : IsExhausted tired
unfolding new_watcher should_give_up
tired-IsExhausted = record { idle = refl; used_up = refl; no_success = refl }

run-IsExhausted_example : IsExhausted (run (visit ++ wakes ∷ disconnects true ∷ []) tired)
run-IsExhausted_example =
    run-IsExhausted (visit ++ wakes ∷ disconnects true ∷ []) tired tired-IsExhausted

abbrev asleep : Watcher
asleep = record new_watcher {
  policy = record { config = watcher_config; attempts = 7 };
  place = sleeping 30_000_000_000;
  reconnect_config = some radio;
}

failing-IsGivenUp_example : IsGivenUp (run (failing 3) asleep)
unfolding new_watcher
failing-IsGivenUp_example =
    failing-IsGivenUp 2 asleep 30_000_000_000 radio refl refl (omega arith) refl refl refl

run-IsPaced_example : IsPaced (run (visit ++ failing 3) new_watcher)
run-IsPaced_example = run-IsPaced (visit ++ failing 3)
