-- ===== src/Voice/Assembler/Finalize.antt =====
-- crates/voicetastic-core/src/voice/assembler/finalize.rs: the message of a state, and the
-- blacklist of messages that are over.
use Prim.Native.String.{String}
use voicetastic_core.Prelude.{
  ℕ, ◌+◌, ◌-◌, Bool, false, ◌||◌, none, some, List, [], ◌∷◌, ◌++◌, ltb, ◌==◌, if◌then◌else◌, length,
  drop, replicate,
}
use voicetastic_core.Proto.Consts.{blacklist_max}
use voicetastic_core.Voice.Types.{VoiceMessage}
use voicetastic_core.Voice.Assembler.State.{Slot, AssemblyState, SenderKey, same_key}

unfoldable pub is_listed : SenderKey → List (SenderKey × ℕ) → Bool
is_listed key [] = false
is_listed key ((k, t) ∷ bl) = same_key k key || is_listed key bl

unfoldable pub push_blacklist : List (SenderKey × ℕ) → SenderKey → ℕ → List (SenderKey × ℕ)
push_blacklist bl key now =
    let pushed = bl ++ ((key, now) ∷ []) in
    if is_listed key bl
    then bl
    else if ltb blacklist_max (length pushed)
    then drop (length pushed - blacklist_max) pushed
    else pushed

-- A new gap, or more of the last one.
unfoldable pub push_gap : ℕ → ℕ → List (ℕ × ℕ) → List (ℕ × ℕ)
push_gap start stop [] = (start, stop) ∷ []
push_gap start stop ((a, b) ∷ []) =
    if b == start then (a, stop) ∷ [] else (a, b) ∷ (start, stop) ∷ []
push_gap start stop (gap ∷ next ∷ gaps) = gap ∷ push_gap start stop (next ∷ gaps)

-- The loop over the slots, when the chunk size is known.
unfoldable pub padded_audio : ℕ → List Slot → List ℕ → List (ℕ × ℕ) → List ℕ × List (ℕ × ℕ)
padded_audio chunk_size [] audio gaps = (audio, gaps)
padded_audio chunk_size (some payload ∷ slots) audio gaps =
    padded_audio chunk_size slots (audio ++ payload) gaps
padded_audio chunk_size (none ∷ slots) audio gaps =
    padded_audio chunk_size slots (audio ++ replicate chunk_size 0)
      (push_gap (length audio) (length audio + chunk_size) gaps)

-- The bytes that are there, when it is not.
unfoldable pub present_audio : List Slot → List ℕ
present_audio [] = []
present_audio (none ∷ slots) = present_audio slots
present_audio (some payload ∷ slots) = payload ++ present_audio slots

unfoldable pub audio_of : AssemblyState → List ℕ × List (ℕ × ℕ)
audio_of s = elim s.chunk_size [
  | some chunk_size ↦ padded_audio chunk_size s.data_shards [] []
  | none ↦ (present_audio s.data_shards, [])
]

unfoldable pub finalize : String → SenderKey → AssemblyState → Bool → VoiceMessage
finalize from key s is_complete = record {
  message_id = key.1;
  from = from;
  to = s.to;
  stream_seq = s.header_template.stream_seq;
  codec = s.header_template.codec;
  codec_param = s.header_template.codec_param;
  audio = (audio_of s).0;
  gaps = (audio_of s).1;
  timestamp = s.first_seen;
  is_complete = is_complete;
  total_data = s.header_template.total_data;
  received_data = s.received_data;
  recovered_via_fec = s.recovered_via_fec;
  channel = s.channel;
}
