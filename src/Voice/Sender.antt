-- ===== src/Voice/Sender.antt =====
-- crates/voicetastic-core/src/voice/sender.rs: VoiceSender. What the channels carry is the list of
-- what was sent on them, the latest first; a clock and the random draws are arguments.
pub mod Burst
pub mod Requests
pub mod System
pub mod Terminal
use Prim.Native.String.{String}
use voicetastic_core.Prelude.{
  ℕ, zero, suc, ◌+◌, ◌-◌, ◌%◌, ◌^◌, min, ◌⊎◌, Bool, true, false, not, ◌&&◌, ◌||◌, Option, none,
  some, List, [], ◌∷◌, ◌==◌, if◌then◌else◌, length, get_elem?,
}
use voicetastic_core.Prelude.Assoc.{lookup, remove, update}
use voicetastic_core.Proto.Consts.{secs, max_body_size}
use voicetastic_core.Prelude.Int.{ℤ, pos, negsuc}
use voicetastic_core.Proto.Types.{
  VoiceCodec, amr_nb, ModemPreset, short_turbo, short_fast, short_slow, medium_fast, medium_slow,
  long_fast, long_moderate, long_slow, very_long_slow, pacing, fallback_pacing,
}
use voicetastic_core.Proto.Error.{Result, ok, err, ◌>>=◌}
use voicetastic_core.Proto.Mac.{Sha256}
use voicetastic_core.Proto.ReedSolomon.{ReedSolomon}
use voicetastic_core.Proto.Builder.{BuildConfig, EncodedMessage, build_message, random_message_id}
use voicetastic_core.Voice.Assembler.State.{is_some}
use voicetastic_core.Voice.Outgoing.{
  OutgoingVoiceRegistry, default_retain_ttl, new_registry, register, forget,
}

abbrev pub default_linger : ℕ
default_linger = default_retain_ttl

abbrev pub retransmit_drain_timeout : ℕ
retransmit_drain_timeout = secs 45

pub record SendRequest : Type 0 where
  pub audio : List ℕ
  pub codec : VoiceCodec
  pub codec_param : ℕ
  pub channel : ℕ
  pub to : Option ℕ
  pub parity_count : ℕ
  pub chunk_size : Option ℕ
  pub linger : Option ℕ
  pub stream_seq : ℕ
  pub last_in_stream : Bool
  pub pacing : Option ℕ

abbrev pub default_request : SendRequest
default_request = record {
  audio = [];
  codec = amr_nb;
  codec_param = 0;
  channel = 0;
  to = none;
  parity_count = 0;
  chunk_size = none;
  linger = none;
  stream_seq = 0;
  last_in_stream = true;
  pacing = none;
}

-- `failed` carries no text.
pub data SendStatus : Type 0 where
  building sending : ℕ → ℕ → ℕ → SendStatus
  burst_complete retransmitting : ℕ → List ℕ → SendStatus
  complete gave_up failed : ℕ → SendStatus

unfoldable pub is_terminal : SendStatus → Bool
is_terminal (complete id) = true
is_terminal (gave_up id) = true
is_terminal (failed id) = true
is_terminal (building id d p) = false
is_terminal (sending id n total) = false
is_terminal (burst_complete id ids) = false
is_terminal (retransmitting id chunks) = false

unfoldable pub status_id : SendStatus → ℕ
status_id (building id d p) = id
status_id (sending id n total) = id
status_id (burst_complete id ids) = id
status_id (retransmitting id chunks) = id
status_id (complete id) = id
status_id (gave_up id) = id
status_id (failed id) = id

pub record ActiveSend : Type 0 where
  pub channel : ℕ
  pub to : Option ℕ

pub record VoiceSender : Type 0 where
  pub registry : OutgoingVoiceRegistry
  pub active : List (ℕ × ActiveSend)
  pub lagged_nack_count : ℕ
  pub retransmit_inflight : List (ℕ × ℕ)
  pub emitted : List SendStatus

unfoldable pub new_sender : VoiceSender
unfolding new_registry
new_sender = record {
  registry = new_registry;
  active = [];
  lagged_nack_count = 0;
  retransmit_inflight = [];
  emitted = [];
}

abbrev pub emit : SendStatus → VoiceSender → VoiceSender
emit status s = record s { emitted = status ∷ s.emitted }

-- The task that `run_send` is, by the place where it waits.
pub data Phase : Type 0 where
  starting bursting enqueued lingering ended : Phase
  draining : ℕ → Phase

pub record SendTask : Type 0 where
  pub phase : Phase
  pub frames : List (List ℕ)
  pub position : ℕ
  pub total_frames : ℕ
  pub total_data : ℕ
  pub channel : ℕ
  pub to : Option ℕ
  pub pacing : ℕ
  pub linger : ℕ
  pub packet_ids : List ℕ

-- `contains_key`
unfoldable pub is_active : ℕ → VoiceSender → Bool
unfolding lookup
is_active id s = is_some (lookup ◌==◌ id s.active)

unfoldable pub is_registered : ℕ → VoiceSender → Bool
unfolding lookup
is_registered id s = is_some (lookup ◌==◌ id s.registry.inner)

-- The bytes of one draw, or an error of the system.
abbrev pub Draw : Type 0
Draw = String ⊎ (ℕ × ℕ × ℕ × ℕ)

-- The loop over the tries that are left; `draw` gives the draw of each try, the last one at zero.
unfoldable pub roll_id : ℕ → (ℕ → Draw) → VoiceSender → Result ℕ
unfolding random_message_id is_active is_registered
roll_id zero draw s = random_message_id (draw 0)
roll_id (suc tries) draw s = elim (random_message_id (draw (suc tries))) [
  | err e ↦ err e
  | ok id ↦
      let rest = roll_id tries draw s in
      if not (is_active id s) && not (is_registered id s) then ok id else rest
]

unfoldable pub fresh_message_id : (ℕ → Draw) → VoiceSender → Result ℕ
unfolding roll_id
fresh_message_id draw s = roll_id 8 draw s

abbrev pub unwrap_or {ℓ} : {A : Type ℓ} → Option A → A → A
unwrap_or none d = d
unwrap_or (some a) d = a

-- The presets, by the number that the LoRa configuration gives them.
abbrev presets : List ModemPreset
presets =
    long_fast ∷ long_slow ∷ very_long_slow ∷ medium_slow ∷ medium_fast ∷ short_slow ∷ short_fast
    ∷ long_moderate ∷ short_turbo ∷ []

unfoldable pub modem_preset_from_proto : ℤ → Option ModemPreset
modem_preset_from_proto (pos n) = get_elem? presets n
modem_preset_from_proto (negsuc n) = none

abbrev pacing_or_fallback : Option ModemPreset → ℕ
unfolding pacing fallback_pacing
pacing_or_fallback none = fallback_pacing
pacing_or_fallback (some preset) = pacing preset

-- The number of the preset in the last LoRa configuration, if there was one.
unfoldable pub current_pacing : Option ℤ → ℕ
unfolding modem_preset_from_proto pacing_or_fallback
current_pacing none = pacing_or_fallback none
current_pacing (some lora) = pacing_or_fallback (modem_preset_from_proto lora)

-- What `send` asks of the builder, with the body size of the transport.
unfoldable pub build_config : ℕ → SendRequest → ℕ → BuildConfig
build_config max_voice_body_size req message_id =
    let transport_max_body = min max_voice_body_size max_body_size in
    record {
      message_id = message_id;
      stream_seq = req.stream_seq;
      codec = req.codec;
      codec_param = req.codec_param;
      chunk_size = min (unwrap_or req.chunk_size transport_max_body) transport_max_body;
      parity_count = req.parity_count;
      last_in_stream = req.last_in_stream;
    }

-- The number of data chunks is read when the task starts.
unfoldable pub new_task : SendRequest → Option ℤ → EncodedMessage → SendTask
unfolding current_pacing
new_task req lora encoded = record {
  phase = starting;
  frames = encoded.frames;
  position = 0;
  total_frames = length encoded.frames % 2 ^ 32;
  total_data = 0;
  channel = req.channel;
  to = req.to;
  pacing = unwrap_or req.pacing (current_pacing lora);
  linger = unwrap_or req.linger default_linger;
  packet_ids = [];
}

-- The second half of `send`: the frames are built.
unfoldable pub start_send : SendRequest → ℕ → EncodedMessage → ℕ → VoiceSender → VoiceSender
unfolding register remove
start_send req id encoded now s =
    emit (building id encoded.total_data encoded.parity_count) (record s {
      registry = register s.registry id encoded req.channel req.to now;
      active = (id, record { channel = req.channel; to = req.to }) ∷ remove ◌==◌ id s.active;
    })

unfoldable pub send :
    Sha256
    → ReedSolomon
    → (ℕ → Draw)
    → ℕ
    → Option ℤ
    → ℕ
    → SendRequest
    → VoiceSender
    → Result (VoiceSender × ℕ × SendTask)
unfolding fresh_message_id build_message build_config start_send new_task
send sha rs draw max_voice_body_size lora now req s = do
  id ← fresh_message_id draw s
  encoded ← build_message sha rs req.audio (build_config max_voice_body_size req id)
  ok (start_send req id encoded now s, id, new_task req lora encoded)

-- `cleanup`
unfoldable pub clean_up : ℕ → VoiceSender → VoiceSender
unfolding forget remove
clean_up id s = record s { active = remove ◌==◌ id s.active; registry = forget s.registry id }

unfoldable pub inflight_inc : ℕ → VoiceSender → VoiceSender
unfolding lookup remove
inflight_inc id s = record s {
  retransmit_inflight =
      (id, unwrap_or (lookup ◌==◌ id s.retransmit_inflight) 0 + 1)
      ∷ remove ◌==◌ id s.retransmit_inflight;
}

unfoldable pub lowered : ℕ → Option ℕ → List (ℕ × ℕ) → List (ℕ × ℕ)
unfolding remove update
lowered id none counts = counts
lowered id (some c) counts =
    if c - 1 == 0 then remove ◌==◌ id counts else update ◌==◌ id (c - 1) counts

unfoldable pub inflight_dec : ℕ → VoiceSender → VoiceSender
unfolding lookup lowered
inflight_dec id s = record s {
  retransmit_inflight = lowered id (lookup ◌==◌ id s.retransmit_inflight) s.retransmit_inflight;
}

unfoldable pub inflight_count : ℕ → VoiceSender → ℕ
unfolding lookup
inflight_count id s = unwrap_or (lookup ◌==◌ id s.retransmit_inflight) 0
