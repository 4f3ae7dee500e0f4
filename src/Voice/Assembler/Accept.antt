-- ===== src/Voice/Assembler/Accept.antt =====
-- crates/voicetastic-core/src/voice/assembler/mod.rs: `accept` and its helpers.
use Prim.Native.String.{String}
use voicetastic_core.Prelude.{
  ℕ, ◌+◌, ◌-◌, Bool, true, false, not, ◌||◌, Option, none, some, List, [], ◌∷◌, ltb, leb, ◌==◌,
  if◌then◌else◌, length,
}
use voicetastic_core.Prelude.Assoc.{lookup, remove, update}
use voicetastic_core.Proto.Consts.{
  max_in_progress_global, max_in_progress_per_sender, max_total_shards,
}
use voicetastic_core.Proto.Types.{nack_packet, VoiceCodec, unknown, codec_eq}
use voicetastic_core.Proto.Error.{
  blacklisted, per_sender_cap, unknown_codec, unsupported_codec, too_many_shards, Result, ok, err,
  ◌>>=◌, ◌>>◌, guard,
}
use voicetastic_core.Proto.Mac.{Sha256}
use voicetastic_core.Proto.Header.{ChunkHeader, parse}
use voicetastic_core.Proto.ReedSolomon.{ReedSolomon}
use voicetastic_core.Voice.Nack.{parse_nack_body}
use voicetastic_core.Voice.Types.{
  VoiceDestination, AssemblyEvent, pending, rejected, complete, nack,
}
use voicetastic_core.Voice.Assembler.Config.{AssemblerConfig, max_validation_strikes}
use voicetastic_core.Voice.Assembler.State.{
  AssemblyState, AssemblerInner, SenderKey, same_key, same_sender, new_state, try_fec_recover,
  per_sender_dec, bump, is_some,
}
use voicetastic_core.Voice.Assembler.Finalize.{finalize, push_blacklist, is_listed}
use voicetastic_core.Voice.Assembler.Ingest.{
  derive_initial_chunk_size, validate_template, grow_parity, ingest,
}

-- `duration_since` saturates at zero.
unfoldable pub prune_blacklist : List (SenderKey × ℕ) → ℕ → ℕ → List (SenderKey × ℕ)
prune_blacklist [] now ttl = []
prune_blacklist ((k, t) ∷ bl) now ttl =
    let rest = prune_blacklist bl now ttl in if ltb (now - t) ttl then (k, t) ∷ rest else rest

unfoldable pub in_use : AssemblerInner → String → ℕ
in_use inner from = elim (lookup same_sender from inner.per_sender) [ none ↦ 0 | some n ↦ n ]

unfoldable pub check_per_sender_cap : AssemblerInner → String → Result (Unit {0})
check_per_sender_cap inner from =
    guard (ltb (in_use inner from) max_in_progress_per_sender) (per_sender_cap from)

-- `min_by_key` on `started_at`: the first of the oldest, in the order of iteration.
unfoldable pub oldest : List (SenderKey × AssemblyState) → Option (SenderKey × ℕ)
oldest [] = none
oldest ((k, s) ∷ t) = elim (oldest t) [
  | none ↦ some (k, s.started_at)
  | some (k', at) ↦ if leb s.started_at at then some (k, s.started_at) else some (k', at)
]

-- The entry leaves the table for the blacklist.
unfoldable pub retire : AssemblerInner → SenderKey → ℕ → AssemblerInner
retire inner key now =
    let fewer =
      per_sender_dec (record inner { in_progress = remove same_key key inner.in_progress }) key.0 in
    record fewer { blacklist = push_blacklist fewer.blacklist key now }

unfoldable pub evict_for_global_cap : AssemblerInner → ℕ → AssemblerInner
evict_for_global_cap inner now =
    if leb max_in_progress_global (length inner.in_progress)
    then elim (oldest inner.in_progress) [
      | none ↦ inner
      | some (victim, at) ↦ retire inner victim now
    ]
    else inner

abbrev pub check_known : VoiceCodec → Result (Unit {0})
check_known (unknown b) = err (unknown_codec b)
check_known c = ok tt

unfoldable pub contains : List VoiceCodec → VoiceCodec → Bool
contains [] c = false
contains (d ∷ ds) c = codec_eq d c || contains ds c

abbrev pub check_supported : Option (List VoiceCodec) → VoiceCodec → Result (Unit {0})
check_supported none c = ok tt
check_supported (some allow) c = guard (contains allow c) (unsupported_codec c)

-- The checks before any slot is touched: they read the table only.
unfoldable pub admit :
    AssemblerConfig → AssemblerInner → SenderKey → ChunkHeader → List ℕ → Result (Option ℕ)
admit cfg inner key header body = do
  guard (not (is_listed key inner.blacklist)) blacklisted
  if is_some (lookup same_key key inner.in_progress)
      then ok tt
      else check_per_sender_cap inner key.0
  check_known header.codec
  check_supported cfg.supported_codecs header.codec
  guard (leb (header.total_data + header.parity_count) max_total_shards)
      (too_many_shards header.total_data header.parity_count)
  derive_initial_chunk_size header body

unfoldable pub inc_count : String → List (String × ℕ) → List (String × ℕ)
inc_count from counts = elim (lookup same_sender from counts) [
  | none ↦ (from, 1) ∷ counts
  | some n ↦ update same_sender from (n + 1) counts
]

-- A new entry, after room was made for it.
unfoldable pub insert : AssemblerInner → SenderKey → AssemblyState → ℕ → AssemblerInner
insert inner key s now =
    let roomy = evict_for_global_cap inner now in
    record roomy {
      in_progress = (key, s) ∷ roomy.in_progress;
      per_sender = inc_count key.0 roomy.per_sender;
    }

-- A write through `&mut state`.
abbrev pub put : AssemblerInner → SenderKey → AssemblyState → AssemblerInner
put inner key s = record inner { in_progress = update same_key key s inner.in_progress }

unfoldable pub strike : AssemblerInner → SenderKey → AssemblyState → ℕ → AssemblerInner
strike inner key s now =
    let strikes = bump s.validation_strikes in
    if leb max_validation_strikes strikes
    then retire inner key now
    else put inner key (record s { validation_strikes = strikes })

-- An error of the recovery is logged and dropped.
abbrev pub recovered_or : AssemblyState → Result AssemblyState → AssemblyState
recovered_or s (ok recovered) = recovered
recovered_or s (err e) = s

-- Recovery, and the reset of the back-off on progress.
unfoldable pub settle : ReedSolomon → AssemblyState → ℕ → ℕ → AssemblyState
settle rs s before now =
    let r = recovered_or s (try_fec_recover rs s) in
    if ltb before r.received_data then record r { nack_rounds = 0; last_chunk_at = now } else r

-- The frame is stored: the message is over, or goes on.
unfoldable pub finish :
    AssemblerInner → SenderKey → AssemblyState → ℕ → ℕ → AssemblerInner × Result AssemblyEvent
finish inner key s channel now =
    if s.received_data == s.header_template.total_data
    then (retire inner key now, ok (complete (finalize key.0 key s true)))
    else (
      put inner key s,
      ok (
          pending s.header_template.message_id key.0 s.received_data s.header_template.total_data
            channel),
    )

-- The frame against the state `s`, which the table has for `key`.
unfoldable pub apply_frame :
    ReedSolomon
    → AssemblerInner
    → SenderKey
    → AssemblyState
    → ChunkHeader
    → List ℕ
    → ℕ
    → ℕ
    → AssemblerInner × Result AssemblyEvent
apply_frame rs inner key s header body channel now = elim (validate_template s header) [
  | err e ↦ (strike inner key s now, err e)
  | ok u ↦
      let heard = record (grow_parity s header) { last_data_at = now } in
      elim (ingest heard header body) [
        | err e ↦ (put inner key heard, err e)
        | ok (stored, some ev) ↦ (put inner key stored, ok ev)
        | ok (stored, none) ↦
            finish inner key (settle rs stored heard.received_data now) channel now
      ]
]

unfoldable pub accept_chunk :
    ReedSolomon
    → AssemblerConfig
    → AssemblerInner
    → ℕ
    → ℕ
    → String
    → VoiceDestination
    → ℕ
    → ChunkHeader
    → List ℕ
    → AssemblerInner × Result AssemblyEvent
accept_chunk rs cfg before now wall from to channel header body =
    let key : SenderKey = (from, header.message_id) in
    let inner : AssemblerInner = record before {
      blacklist = prune_blacklist before.blacklist now cfg.completion_memory;
    } in
    elim (admit cfg inner key header body) [
      | err e ↦ (inner, err e)
      | ok initial ↦ elim (lookup same_key key inner.in_progress) [
        | some s ↦ apply_frame rs inner key s header body channel now
        | none ↦
            let fresh : AssemblyState = new_state header initial to channel now wall in
            apply_frame rs (insert inner key fresh now) key fresh header body channel now
      ]
    ]

unfoldable pub accept_inner :
    Sha256
    → ReedSolomon
    → AssemblerConfig
    → AssemblerInner
    → ℕ
    → ℕ
    → String
    → VoiceDestination
    → ℕ
    → List ℕ
    → AssemblerInner × Result AssemblyEvent
accept_inner sha rs cfg inner now wall from to channel bytes = elim (parse sha bytes) [
  | err e ↦ (inner, err e)
  | ok (header, body) ↦ elim header.packet_type [
    | nack_packet ↦ (inner, parse_nack_body header body >>= λ info. ok (nack info))
    | _ ↦ accept_chunk rs cfg inner now wall from to channel header body
  ]
]

unfoldable pub accept :
    Sha256
    → ReedSolomon
    → AssemblerConfig
    → AssemblerInner
    → ℕ
    → ℕ
    → String
    → VoiceDestination
    → ℕ
    → List ℕ
    → AssemblerInner × AssemblyEvent
accept sha rs cfg inner now wall from to channel bytes =
    let r = accept_inner sha rs cfg inner now wall from to channel bytes in
    (r.0, elim r.1 [ ok ev ↦ ev | err e ↦ rejected e ])
