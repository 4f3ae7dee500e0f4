-- ===== src/Voice/Sender/System.antt =====
-- crates/voicetastic-core/src/voice/sender.rs: the sender, its tasks and its listener, one step of
-- one of them after the other. A round of the listener is two steps: it lets go of the lock on the
-- active sends before it answers. Two sends never have the same id here.
pub mod Tallies
mod Loads
mod Calls
pub mod Balance
use voicetastic_core.Prelude.{ℕ, Bool, Option, none, some, List, [], ◌∷◌, ◌++◌, ◌==◌, ◌≡◌}
use voicetastic_core.Prelude.Assoc.{lookup, update}
use voicetastic_core.Prelude.Int.{ℤ}
use voicetastic_core.Proto.Error.{ok}
use voicetastic_core.Proto.Mac.{Sha256}
use voicetastic_core.Proto.ReedSolomon.{ReedSolomon}
use voicetastic_core.Voice.Nack.{NackInfo}
use voicetastic_core.Voice.Sender.{SendRequest, VoiceSender, SendTask, Draw, new_sender, send}
use voicetastic_core.Voice.Sender.Burst.{RunEvent, run_send}
use voicetastic_core.Voice.Sender.Requests.{
  Retransmit, batch, waking, trusted_nack, on_nack, note_lagged, batch_step, wake_step,
}
use voicetastic_core.Meshtastic.Protocol.State.{IncomingData}

pub record System : Type 0 where
  pub sender : VoiceSender
  pub tasks : List (ℕ × SendTask)
  pub pending : List Retransmit
  pub heard : Option (ℕ × NackInfo)

abbrev pub init : System
init = record { sender = new_sender; tasks = []; pending = []; heard = none }

abbrev pub sent : VoiceSender → ℕ → SendTask → System → System
sent s id t y = record y { sender = s; tasks = (id, t) ∷ y.tasks }

abbrev pub ran : ℕ → VoiceSender × SendTask → System → System
ran id r y = record y { sender = r.0; tasks = update ◌==◌ id r.1 y.tasks }

abbrev pub answered : VoiceSender × List Retransmit → System → System
answered r y = record y { sender = r.0; pending = y.pending ++ r.1; heard = none }

abbrev pub went_on :
    List Retransmit → List Retransmit → VoiceSender × List Retransmit → System → System
went_on pre post r y = record y { sender = r.0; pending = pre ++ r.1 ++ post }

pub data Step : System → System → Type 0 where
  sends :
      (sha : Sha256) (rs : ReedSolomon) (draw : ℕ → Draw) (size : ℕ) (lora : Option ℤ) (now : ℕ)
      (req : SendRequest) (y : System) (s : VoiceSender) (id : ℕ) (t : SendTask)
      → send sha rs draw size lora now req y.sender ≡ ok (s, id, t)
      → lookup ◌==◌ id y.tasks ≡ none
      → Step y (sent s id t y)
  runs :
      (id now : ℕ) (event : RunEvent) (y : System) (t : SendTask)
      → lookup ◌==◌ id y.tasks ≡ some t
      → Step y (ran id (run_send id now event y.sender t) y)
  hears :
      (sha : Sha256) (incoming : IncomingData) (y : System)
      → Step y (record y { heard = trusted_nack sha incoming y.sender })
  answers :
      (clock : ℕ → ℕ) (pacing : ℕ) (y : System)
      → Step y (answered (on_nack clock pacing y.heard y.sender) y)
  lags : (n : ℕ) (y : System) → Step y (record y { sender = note_lagged n y.sender })
  goes_on :
      (accepted : Bool) (id : ℕ) (plan : List (ℕ × List ℕ)) (pre post : List Retransmit)
      (y : System)
      → y.pending ≡ pre ++ batch id plan ∷ post
      → Step y (went_on pre post (batch_step accepted id plan y.sender) y)
  wakes :
      (id deadline pacing : ℕ) (clock : ℕ → ℕ) (pre post : List Retransmit) (y : System)
      → y.pending ≡ pre ++ waking id deadline ∷ post
      → Step y (went_on pre post (wake_step id pacing clock y.sender) y)

pub data Reach : System → Type 0 where
  start : Reach init
  later : {y z : System} → Reach y → Step y z → Reach z
