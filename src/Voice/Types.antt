-- ===== src/Voice/Types.antt =====
-- crates/voicetastic-core/src/voice/types.rs and message.rs: addresses, messages and events.
use Prim.Native.String.{String}
use voicetastic_core.Prelude.{ℕ, Bool, List}
use voicetastic_core.Proto.Types.{VoiceCodec}
use voicetastic_core.Proto.Error.{VoiceError}
use voicetastic_core.Voice.Nack.{NackInfo}

pub data VoiceDestination : Type 0 where
  node : ℕ → VoiceDestination
  broadcast : VoiceDestination

-- A range of `gaps` is its two ends; `timestamp` is a wall-clock reading.
pub record VoiceMessage : Type 0 where
  pub message_id : ℕ
  pub from : String
  pub to : VoiceDestination
  pub stream_seq : ℕ
  pub codec : VoiceCodec
  pub codec_param : ℕ
  pub audio : List ℕ
  pub gaps : List (ℕ × ℕ)
  pub timestamp : ℕ
  pub is_complete : Bool
  pub total_data : ℕ
  pub received_data : ℕ
  pub recovered_via_fec : ℕ
  pub channel : ℕ

-- `pending` carries the fields of the source's variant, in their order.
pub data AssemblyEvent : Type 0 where
  pending : ℕ → String → ℕ → ℕ → ℕ → AssemblyEvent
  duplicate : AssemblyEvent
  rejected : VoiceError → AssemblyEvent
  complete : VoiceMessage → AssemblyEvent
  nack : NackInfo → AssemblyEvent
