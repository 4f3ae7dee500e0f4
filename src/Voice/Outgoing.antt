-- ===== src/Voice/Outgoing.antt =====
-- crates/voicetastic-core/src/voice/outgoing.rs: the sender's registry of what may be asked for again.
pub mod Retransmit
use voicetastic_core.Prelude.{
  ℕ, zero, suc, ◌+◌, ◌-◌, ◌*◌, ◌/◌, ◌^◌, min, max, Bool, true, false, not, ◌&&◌, ◌||◌, Option, none,
  some, List, [], ◌∷◌, ltb, leb, ◌==◌, if◌then◌else◌, length, is_empty, get_or,
}
use voicetastic_core.Prelude.Assoc.{lookup, remove, update}
use voicetastic_core.Proto.Consts.{secs}
use voicetastic_core.Proto.Builder.{EncodedMessage}

pub data RetransmitSkipReason : Type 0 where
  ttl_expired budget_exhausted cooldown_active all_chunks_pending : RetransmitSkipReason

pub data DeferOutcome : Type 0 where
  scheduled : ℕ → DeferOutcome
  already_scheduled cooldown_elapsed gone : DeferOutcome

abbrev pub default_retain_ttl : ℕ
default_retain_ttl = secs 1200

abbrev pub max_retransmits_per_message : ℕ
max_retransmits_per_message = 2400

-- The set `pending_chunks` is the list of its members.
pub record OutgoingVoice : Type 0 where
  pub frames : List (List ℕ)
  pub total_data : ℕ
  pub parity_count : ℕ
  pub channel : ℕ
  pub dest : Option ℕ
  pub registered_at : ℕ
  pub retransmits : ℕ
  pub cooldown_until : Option ℕ
  pub pending_chunks : List ℕ
  pub deferred_missing : Option (List ℕ)
  pub deferred_task_scheduled : Bool

unfoldable pub member : ℕ → List ℕ → Bool
member i [] = false
member i (j ∷ js) = (j == i) || member i js

unfoldable pub without : ℕ → List ℕ → List ℕ
without i [] = []
without i (j ∷ js) = let rest = without i js in if j == i then rest else j ∷ rest

unfoldable pub frames_for : OutgoingVoice → List ℕ → List (ℕ × List ℕ)
frames_for v [] = []
frames_for v (idx ∷ missing) =
    let rest = frames_for v missing in
    if ltb idx v.total_data && not (member idx v.pending_chunks)
    then (idx, get_or v.frames idx []) ∷ rest
    else rest

pub record OutgoingVoiceRegistry : Type 0 where
  pub inner : List (ℕ × OutgoingVoice)
  pub retain_ttl_secs : ℕ

unfoldable pub new_registry : OutgoingVoiceRegistry
new_registry = record { inner = []; retain_ttl_secs = default_retain_ttl / 1_000_000_000 }

unfoldable pub set_retain_ttl : OutgoingVoiceRegistry → ℕ → OutgoingVoiceRegistry
set_retain_ttl r ttl = record r { retain_ttl_secs = max (ttl / 1_000_000_000) 1 }

unfoldable pub retain_ttl : OutgoingVoiceRegistry → ℕ
retain_ttl r = secs r.retain_ttl_secs

unfoldable pub retain : List (ℕ × OutgoingVoice) → ℕ → ℕ → List (ℕ × OutgoingVoice)
retain [] now ttl = []
retain ((id, v) ∷ t) now ttl =
    let rest = retain t now ttl in if ltb (now - v.registered_at) ttl then (id, v) ∷ rest else rest

-- The indices `0..n`, from `i` on.
unfoldable pub indices : ℕ → ℕ → List ℕ
indices i zero = []
indices i (suc n) = i ∷ indices (i + 1) n

unfoldable pub fresh_voice : EncodedMessage → ℕ → Option ℕ → ℕ → OutgoingVoice
fresh_voice encoded channel dest now = record {
  frames = encoded.frames;
  total_data = encoded.total_data;
  parity_count = encoded.parity_count;
  channel = channel;
  dest = dest;
  registered_at = now;
  retransmits = 0;
  cooldown_until = none;
  pending_chunks = indices 0 encoded.total_data;
  deferred_missing = none;
  deferred_task_scheduled = false;
}

-- `map.insert` replaces an entry of the same id.
unfoldable pub register :
    OutgoingVoiceRegistry → ℕ → EncodedMessage → ℕ → Option ℕ → ℕ → OutgoingVoiceRegistry
register r id encoded channel dest now = record r {
  inner =
      (id, fresh_voice encoded channel dest now)
      ∷ remove ◌==◌ id (retain r.inner now (retain_ttl r));
}

unfoldable pub mark_chunk_sent : OutgoingVoiceRegistry → ℕ → ℕ → OutgoingVoiceRegistry
mark_chunk_sent r id chunk_index = elim (lookup ◌==◌ id r.inner) [
  | none ↦ r
  | some v ↦
      let released = record v { pending_chunks = without chunk_index v.pending_chunks } in
      record r { inner = update ◌==◌ id released r.inner }
]

unfoldable pub forget : OutgoingVoiceRegistry → ℕ → OutgoingVoiceRegistry
forget r id = record r { inner = remove ◌==◌ id r.inner }

unfoldable pub meta : OutgoingVoiceRegistry → ℕ → Option (ℕ × Option ℕ × ℕ)
meta r id = elim (lookup ◌==◌ id r.inner) [
  | none ↦ none
  | some v ↦ some (v.channel, v.dest, v.total_data)
]

unfoldable pub prune_expired : OutgoingVoiceRegistry → ℕ → OutgoingVoiceRegistry
prune_expired r now = record r { inner = retain r.inner now (retain_ttl r) }

unfoldable pub insert_all : List (ℕ × List ℕ) → List ℕ → List ℕ
insert_all [] pending = pending
insert_all ((idx, f) ∷ frames) pending =
    insert_all frames (if member idx pending then pending else idx ∷ pending)

abbrev pub duration_max : ℕ
duration_max = 2 ^ 64 * 1_000_000_000 - 1

-- `saturating_mul`, `clamp` and `min`.
unfoldable pub cooldown : ℕ → ℕ → ℕ → ℕ
cooldown pacing frames ttl =
    min (min (max (min (pacing * frames) duration_max) (secs 1)) (secs 30)) ttl

abbrev pub after_batch : OutgoingVoice → List (ℕ × List ℕ) → ℕ → ℕ → ℕ → OutgoingVoice
after_batch v frames pacing ttl now = record v {
  pending_chunks = insert_all frames v.pending_chunks;
  retransmits = min (v.retransmits + 1) 65535;
  cooldown_until = some (now + cooldown pacing (length frames) ttl);
}

abbrev pub cooling : Option ℕ → ℕ → Bool
cooling none now = false
cooling (some until) now = ltb now until

pub data TakeResult : Type 0 where
  frames_to_send : List (ℕ × List ℕ) → TakeResult
  skipped : RetransmitSkipReason → TakeResult

-- The request against the entry `v`, and the entry after it; an entry past its time is gone.
unfoldable pub take_from : OutgoingVoice → List ℕ → ℕ → ℕ → ℕ → Option OutgoingVoice × TakeResult
take_from v missing pacing ttl now =
    let frames = frames_for v missing in
    if leb ttl (now - v.registered_at)
    then (none, skipped ttl_expired)
    else if leb max_retransmits_per_message v.retransmits
    then (some v, skipped budget_exhausted)
    else if cooling v.cooldown_until now
    then (some v, skipped cooldown_active)
    else if is_empty frames
    then (some v, skipped all_chunks_pending)
    else (some (after_batch v frames pacing ttl now), frames_to_send frames)

abbrev pub keep : OutgoingVoiceRegistry → ℕ → Option OutgoingVoice → OutgoingVoiceRegistry
keep r id none = forget r id
keep r id (some w) = record r { inner = update ◌==◌ id w r.inner }

unfoldable pub take_retransmit :
    OutgoingVoiceRegistry → ℕ → List ℕ → ℕ → ℕ → OutgoingVoiceRegistry × TakeResult
take_retransmit r id missing pacing now = elim (lookup ◌==◌ id r.inner) [
  | none ↦ (r, skipped ttl_expired)
  | some v ↦
      let (kept, outcome) = take_from v missing pacing (retain_ttl r) now in
      (keep r id kept, outcome)
]

-- The deadline that lies ahead, if there is one.
abbrev pub ahead : Option ℕ → ℕ → Option ℕ
ahead none now = none
ahead (some deadline) now = if leb deadline now then none else some deadline

unfoldable pub defer_nack :
    OutgoingVoiceRegistry → ℕ → List ℕ → ℕ → OutgoingVoiceRegistry × DeferOutcome
defer_nack r id missing now = elim (lookup ◌==◌ id r.inner) [
  | none ↦ (r, gone)
  | some v ↦ elim (ahead v.cooldown_until now) [
    | none ↦ (r, cooldown_elapsed)
    | some deadline ↦
        let w = record v { deferred_missing = some missing; deferred_task_scheduled = true } in
        (
          record r { inner = update ◌==◌ id w r.inner },
          (if v.deferred_task_scheduled then already_scheduled else scheduled deadline),
        )
  ]
]

unfoldable pub take_deferred : OutgoingVoiceRegistry → ℕ → OutgoingVoiceRegistry × Option (List ℕ)
take_deferred r id = elim (lookup ◌==◌ id r.inner) [
  | none ↦ (r, none)
  | some v ↦
      let w = record v { deferred_task_scheduled = false; deferred_missing = none } in
      (record r { inner = update ◌==◌ id w r.inner }, v.deferred_missing)
]
