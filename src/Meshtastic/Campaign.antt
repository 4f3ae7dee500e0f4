-- ===== src/Meshtastic/Campaign.antt =====
-- crates/voicetastic-core/src/meshtastic/service/mod.rs: the watcher that MeshtasticService::new spawns
-- to bring a lost link back, from one wait to the next. A clock is an argument.
pub mod Given
pub mod Delays
use Prim.Native.String.{String}
use voicetastic_core.Prelude.{
  ℕ, ◌-◌, Bool, true, false, not, ◌&&◌, ◌||◌, Option, none, some, List, [], ◌∷◌, leb, if◌then◌else◌,
}
use voicetastic_core.Voice.Assembler.State.{is_some}
use voicetastic_core.Meshtastic.Reconnect.{
  BleReconnectConfig, BleReconnectPolicy, new, from_secs, next_delay, record_failure, reset,
  should_give_up,
}
use voicetastic_core.Meshtastic.Protocol.Service.{ConnectionState, disconnected, connecting}

-- `ReconnectConfig`
pub data Target : Type 0 where
  serial : String → ℕ → Target
  ble : String → Target

abbrev pub reconnect_stability_window : ℕ
reconnect_stability_window = from_secs 60

abbrev pub watcher_config : BleReconnectConfig
watcher_config = record {
  initial_delay = from_secs 1;
  backoff_num = 2;
  backoff_den = 1;
  max_delay = from_secs 30;
  max_attempts = some 10;
}

-- `elapsed` stops at zero.
unfoldable pub campaign_should_reset : Option ℕ → ℕ → ℕ → Bool
campaign_should_reset none now window = false
campaign_should_reset (some t) now window = leb window (now - t)

-- Where the watcher waits: for a notification, in `sleep`, or for the attempt to connect.
pub data Place : Type 0 where
  waiting trying : Place
  sleeping : ℕ → Place

-- The watcher's own variables, and what it shares with the service: the target, whether there is a
-- transport, the published state, and the permit of the notification.
pub record Watcher : Type 0 where
  pub policy : BleReconnectPolicy
  pub last_connected_at : Option ℕ
  pub place : Place
  pub reconnect_config : Option Target
  pub linked : Bool
  pub state : ConnectionState
  pub requested : Bool

unfoldable pub new_watcher : Watcher
new_watcher = record {
  policy = new watcher_config;
  last_connected_at = none;
  place = waiting;
  reconnect_config = none;
  linked = false;
  state = disconnected;
  requested = false;
}

-- The head of the inner loop.
unfoldable pub attempt : Watcher → Watcher
unfolding should_give_up next_delay
attempt w =
    if should_give_up w.policy
    then record w { reconnect_config = none; state = disconnected; place = waiting }
    else record w { place = sleeping (next_delay w.policy) }

-- `reconnect_request.notified()` returned.
unfoldable pub notified : ℕ → Watcher → Watcher
unfolding campaign_should_reset reset attempt
notified now w = attempt (record w {
  requested = false;
  last_connected_at = none;
  policy =
      if campaign_should_reset w.last_connected_at now reconnect_stability_window
      then reset w.policy
      else w.policy;
})

-- The sleep is over: the user may have connected or disconnected meanwhile.
unfoldable pub slept : Watcher → Watcher
slept w =
    if w.linked
    then record w { place = waiting }
    else if is_some w.reconnect_config
    then record w { state = connecting; place = trying }
    else record w { place = waiting }

-- How an attempt to connect ends, with what it leaves of transport and published state; a transport
-- that it brings up closes without an error or with one, should it be closed at once.
pub data Outcome : Type 0 where
  reached : ConnectionState → Bool → Outcome
  refused : Bool → ConnectionState → Outcome

unfoldable pub try_reconnect : Watcher → Watcher
try_reconnect w = record w { requested = w.requested || is_some w.reconnect_config }

-- An error of the transport's `disconnect` leaves the published state.
unfoldable pub user_disconnects : Bool → Watcher → Watcher
user_disconnects closes w = record w {
  reconnect_config = none;
  linked = false;
  state = if w.linked && not closes then w.state else disconnected;
}

-- The attempt of the watcher is over.
unfoldable pub answered : ℕ → Outcome → Watcher → Watcher
unfolding user_disconnects attempt record_failure
answered now (reached state closes) w =
    let up = record w { linked = true; state = state; place = waiting } in
    if is_some w.reconnect_config
    then record up { last_connected_at = some now }
    else user_disconnects closes up
answered now (refused linked state) w =
    attempt (record w { linked = linked; state = state; policy = record_failure w.policy })

abbrev pub reverted : ConnectionState → ConnectionState
reverted connecting = disconnected
reverted state = state

-- `connect_by_address` and `connect_by_serial_baud`, at their return.
unfoldable pub user_connects : Target → Outcome → Watcher → Watcher
user_connects target (reached state closes) w = record w {
  reconnect_config = some target;
  linked = true;
  state = state;
}
user_connects target (refused linked state) w = record w {
  reconnect_config = some target;
  linked = linked;
  state = reverted state;
}

-- The end of the reader that was spawned for the transport in the slot.
unfoldable pub link_drops : Watcher → Watcher
unfolding try_reconnect
link_drops w = try_reconnect (record w { linked = false; state = disconnected })

pub data Event : Type 0 where
  connects : Target → Outcome → Event
  disconnects : Bool → Event
  drops wakes : Event
  is_notified : ℕ → Event
  answers : ℕ → Outcome → Event

unfoldable pub on_event : Event → Place → Watcher → Watcher
unfolding user_connects user_disconnects link_drops notified slept answered
on_event (connects target outcome) place w = user_connects target outcome w
on_event (disconnects closes) place w = user_disconnects closes w
on_event drops place w = link_drops w
on_event (is_notified now) waiting w = if w.requested then notified now w else w
on_event wakes (sleeping delay) w = slept w
on_event (answers now outcome) trying w = answered now outcome w
on_event event place w = w

unfoldable pub run : List Event → Watcher → Watcher
unfolding on_event
run [] w = w
run (event ∷ events) w = run events (on_event event w.place w)
