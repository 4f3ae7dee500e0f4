-- ===== src/Voice/Assembler/State.antt =====
-- crates/voicetastic-core/src/voice/assembler/state.rs: one message in progress, and the table.
use Prim.Native.String.{String}
use voicetastic_core.Prelude.{
  ℕ, ◌+◌, ◌-◌, min, inl, inr, Bool, true, false, ◌&&◌, Option, none, some, List, [], ◌∷◌, ◌++◌, ltb,
  ◌==◌, if◌then◌else◌, length, get_or, take, replicate,
}
use voicetastic_core.Prelude.Assoc.{lookup, remove, update}
use voicetastic_core.Proto.Error.{fec, Result, ok, err, ◌>>=◌}
use voicetastic_core.Proto.Header.{ChunkHeader}
use voicetastic_core.Proto.ReedSolomon.{ReedSolomon}
use voicetastic_core.Proto.Builder.{pad}
use voicetastic_core.Voice.Types.{VoiceDestination}
use text.Mathlib.Text.{◌==◌ as ◌=text=◌}

-- A slot of a shard list: the body, once it is there.
abbrev pub Slot : Type 0
Slot = Option (List ℕ)

abbrev pub is_some {ℓ} : {A : Type ℓ} → Option A → Bool
is_some none = false
is_some (some a) = true

abbrev pub is_none {ℓ} : {A : Type ℓ} → Option A → Bool
is_none none = true
is_none (some a) = false

-- `saturating_add(1)` on a `u8`.
abbrev pub bump : ℕ → ℕ
bump n = min (n + 1) 255

pub record AssemblyState : Type 0 where
  pub header_template : ChunkHeader
  pub chunk_size : Option ℕ
  pub last_data_len : Option ℕ
  pub data_shards : List Slot
  pub parity_shards : List Slot
  pub received_data : ℕ
  pub received_parity : ℕ
  pub started_at : ℕ
  pub last_chunk_at : ℕ
  pub last_data_at : ℕ
  pub first_seen : ℕ
  pub nack_rounds : ℕ
  pub validation_strikes : ℕ
  pub to : VoiceDestination
  pub channel : ℕ
  pub recovered_via_fec : ℕ

-- `now` stands for the readings of the clock, `wall` for the one of the calendar.
unfoldable pub new_state : ChunkHeader → Option ℕ → VoiceDestination → ℕ → ℕ → ℕ → AssemblyState
new_state header chunk_size to channel now wall = record {
  header_template = header;
  chunk_size = chunk_size;
  last_data_len = none;
  data_shards = replicate header.total_data none;
  parity_shards = replicate header.parity_count none;
  received_data = 0;
  received_parity = 0;
  started_at = now;
  last_chunk_at = now;
  last_data_at = now;
  first_seen = wall;
  nack_rounds = 0;
  validation_strikes = 0;
  to = to;
  channel = channel;
  recovered_via_fec = 0;
}

-- The data shards for the coder from index `idx` on: the last one is padded.
unfoldable pub padded_data : ℕ → ℕ → ℕ → List Slot → List Slot
padded_data total chunk_size idx [] = []
padded_data total chunk_size idx (none ∷ slots) =
    none ∷ padded_data total chunk_size (idx + 1) slots
padded_data total chunk_size idx (some p ∷ slots) =
    some (if (idx == total - 1) && ltb (length p) chunk_size then pad chunk_size p else p)
    ∷ padded_data total chunk_size (idx + 1) slots

-- `payload[..real_len]`, for the last shard only.
abbrev pub trimmed : Bool → Option ℕ → List ℕ → List ℕ
trimmed true (some real_len) payload = take real_len payload
trimmed is_last real_len payload = payload

-- The loop that pulls recovered shards back; it returns the two counters after it.
unfoldable pub pull_back : ℕ → Option ℕ → ℕ → List Slot → List Slot → ℕ → ℕ → List Slot × ℕ × ℕ
pull_back total last_len idx [] shards received recovered = ([], received, recovered)
pull_back total last_len idx (slot ∷ slots) [] received recovered =
    (slot ∷ slots, received, recovered)
pull_back total last_len idx (none ∷ slots) (some payload ∷ shards) received recovered =
    let rest = pull_back total last_len (idx + 1) slots shards (bump received) (bump recovered) in
    (some (trimmed (idx == total - 1) last_len payload) ∷ rest.0, rest.1, rest.2)
pull_back total last_len idx (slot ∷ slots) (shard ∷ shards) received recovered =
    let rest = pull_back total last_len (idx + 1) slots shards received recovered in
    (slot ∷ rest.0, rest.1, rest.2)

-- The last data shard is missing and its length was never seen.
abbrev pub tail_unknown : AssemblyState → Bool
tail_unknown s =
    is_none (get_or s.data_shards (s.header_template.total_data - 1) none)
    && is_none s.last_data_len

unfoldable pub reconstruct : ReedSolomon → AssemblyState → ℕ → Result (List Slot)
reconstruct rs s chunk_size =
    let d = s.header_template.total_data in
    let p = s.header_template.parity_count in
    elim (rs.new_error d p) [
      | some e ↦ err (fec e)
      | none ↦
          elim (rs.reconstruct_data d p
            (padded_data d chunk_size 0 s.data_shards ++ s.parity_shards)) [
              | inl e ↦ err (fec e)
              | inr shards ↦ ok shards
            ]
    ]

abbrev pub with_recovered : AssemblyState → List Slot → AssemblyState
with_recovered s shards =
    let d = s.header_template.total_data in
    let r =
      pull_back d s.last_data_len 0 s.data_shards (take d shards) s.received_data
        s.recovered_via_fec in
    record s { data_shards = r.0; received_data = r.1; recovered_via_fec = r.2 }

-- An error leaves the state as it was.
unfoldable pub try_fec_recover : ReedSolomon → AssemblyState → Result AssemblyState
try_fec_recover rs s = if s.header_template.parity_count == 0 then ok s else elim s.chunk_size [
  | none ↦ ok s
  | some chunk_size ↦
      if ltb (s.received_data + s.received_parity) s.header_template.total_data
      then ok s
      else if tail_unknown s
      then ok s
      else (do shards ← reconstruct rs s chunk_size; ok (with_recovered s shards))
]

-- The indices of the empty slots from index `i` on; `i as u8` is a no-op below 256.
unfoldable pub missing_from : ℕ → List Slot → List ℕ
missing_from i [] = []
missing_from i (none ∷ slots) = i ∷ missing_from (i + 1) slots
missing_from i (some p ∷ slots) = missing_from (i + 1) slots

unfoldable pub missing_data_indices : AssemblyState → List ℕ
missing_data_indices s = missing_from 0 s.data_shards

abbrev pub SenderKey : Type 0
SenderKey = String × ℕ

abbrev pub same_sender : String → String → Bool
same_sender a b = a =text= b

abbrev pub same_key : SenderKey → SenderKey → Bool
same_key j k = same_sender j.0 k.0 && (j.1 == k.1)

pub record AssemblerInner : Type 0 where
  pub in_progress : List (SenderKey × AssemblyState)
  pub per_sender : List (String × ℕ)
  pub blacklist : List (SenderKey × ℕ)

unfoldable pub dec_count : String → List (String × ℕ) → List (String × ℕ)
dec_count from counts = elim (lookup same_sender from counts) [
  | none ↦ counts
  | some n ↦
      if n - 1 == 0 then remove same_sender from counts else update same_sender from (n - 1) counts
]

unfoldable pub per_sender_dec : AssemblerInner → String → AssemblerInner
per_sender_dec inner from = record inner { per_sender = dec_count from inner.per_sender }
