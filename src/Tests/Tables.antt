-- ===== src/Tests/Tables.antt =====
-- The reassembly table at concrete frames and times.
use voicetastic_core.Prelude.{
  ◌⊎◌, ◌*◌, max, ℕ, ◌^◌, ◌≤◌, ◌<◌, ◌≡◌, refl, true, false, none, some, List, [], ◌∷◌, arith,
  replicate,
}
use voicetastic_core.Prelude.Assoc.{lookup}
use voicetastic_core.Proto.Consts.{secs, millis}
use voicetastic_core.Proto.Types.{data_packet, opus, from_byte, from_bits}
use voicetastic_core.Proto.Error.{chunk_too_large, ok, err}
use voicetastic_core.Proto.Header.{ChunkHeader, parse, check_index}
use voicetastic_core.Proto.Mac.{verify}
use voicetastic_core.Voice.Types.{node}
use voicetastic_core.Voice.Assembler.Config.Cap.{sync-covers}
use voicetastic_core.Voice.Assembler.Config.{default_config, millis_of, sync_nack_cap_to_timeout}
use voicetastic_core.Voice.Assembler.State.{
  AssemblyState, AssemblerInner, SenderKey, same_key, new_state,
}
use voicetastic_core.Voice.Assembler.Finalize.{is_listed}
use voicetastic_core.Voice.Assembler.Ingest.{derive_initial_chunk_size}
use voicetastic_core.Voice.Assembler.Accept.{
  insert, accept, accept_inner, accept_chunk, admit, check_per_sender_cap, in_use, prune_blacklist,
}
use voicetastic_core.Voice.Assembler.Tick.{tick, is_over}
use voicetastic_core.Voice.Assembler.Table.Counts.{sender_count}
use voicetastic_core.Voice.Assembler.Table.Invariant.{IsTable, empty-IsTable}
use voicetastic_core.Voice.Assembler.Table.Insert.{insert-IsTable, lookup-insert}
use voicetastic_core.Voice.Assembler.Table.Accept.{accept-IsTable}
use voicetastic_core.Voice.Assembler.Table.Rejected.{Unmoved, accept_inner-Unmoved}
use voicetastic_core.Voice.Assembler.Table.Tick.{tick-IsTable}
use voicetastic_core.Voice.Assembler.Table.Timeout.{Reports, tick-ends}
use voicetastic_core.Voice.NackMode.{off, resolve_nack}
use voicetastic_core.Voice.NackMode.Off.{apply_params, off-is_over}
use voicetastic_core.Tests.Stubs.{toy_sha, toy_rs, toy_digest}

abbrev empty_table : AssemblerInner
empty_table = record { in_progress = []; per_sender = []; blacklist = [] }

-- Chunk 3 of 10, with a body of sixteen bytes.
abbrev chunk_bytes : List ℕ
chunk_bytes =
    0x03
    ∷ 0x10
    ∷ 0x12
    ∷ 0x34
    ∷ 0x56
    ∷ 0x78
    ∷ 1
    ∷ 16
    ∷ 42
    ∷ 3
    ∷ 10
    ∷ 4
    ∷ 0x03
    ∷ 0x10
    ∷ 0x12
    ∷ 0x34
    ∷ replicate 16 7

-- The same with a body of two, which is too short for a chunk size.
abbrev short_bytes : List ℕ
short_bytes =
    0x03 ∷ 0x10 ∷ 0x12 ∷ 0x34 ∷ 0x56 ∷ 0x78 ∷ 1 ∷ 16 ∷ 42 ∷ 3 ∷ 10 ∷ 4 ∷ 0x03 ∷ 0x10 ∷ 0x12 ∷ 0x34
    ∷ 104 ∷ 101 ∷ []

accept-IsTable_example :
    IsTable (accept toy_sha toy_rs default_config empty_table 5 9 "!a1" (node 7) 0 chunk_bytes).0
accept-IsTable_example =
    accept-IsTable toy_sha toy_rs default_config empty_table 5 9 "!a1" (node 7) 0 chunk_bytes
      empty-IsTable

short_rejected :
    (accept_inner toy_sha toy_rs default_config empty_table 5 9 "!a1" (node 7) 0 short_bytes).1
    ≡ err (chunk_too_large 2 215)
unfolding accept_inner accept_chunk parse check_index verify from_byte from_bits toy_digest admit
    check_per_sender_cap in_use prune_blacklist is_listed lookup derive_initial_chunk_size
    default_config
short_rejected = refl

none_there :
    (header : ChunkHeader) (body : List ℕ)
    → parse toy_sha short_bytes ≡ ok (header, body)
    → lookup same_key ("!a1", header.message_id) empty_table.in_progress ≡ none
unfolding lookup
none_there header body e = refl

accept_inner-Unmoved_example :
    Unmoved empty_table
      (accept_inner toy_sha toy_rs default_config empty_table 5 9 "!a1" (node 7) 0 short_bytes).0
accept_inner-Unmoved_example =
    accept_inner-Unmoved toy_sha toy_rs default_config empty_table 5 9 "!a1" (node 7) 0 short_bytes
      (chunk_too_large 2 215) short_rejected none_there

abbrev sample_key : SenderKey
sample_key = ("!a1", 0x12345678)

abbrev open_header : ChunkHeader
open_header = record {
  packet_type = data_packet;
  last_in_stream = false;
  message_id = 0x12345678;
  codec = opus;
  codec_param = 16;
  stream_seq = 42;
  chunk_index = 3;
  total_data = 10;
  parity_count = 4;
}

abbrev open_state : AssemblyState
open_state = new_state open_header (some 16) (node 7) 0 5 9

abbrev open_table : AssemblerInner
open_table = insert empty_table sample_key open_state 5

open-IsTable : IsTable open_table
unfolding lookup is_listed sender_count
open-IsTable =
    insert-IsTable empty_table sample_key open_state 5 empty-IsTable refl refl (omega arith)

tick-IsTable_example :
    IsTable (tick toy_sha (secs 9_000_000) default_config (secs 2000) open_table).0
tick-IsTable_example =
    tick-IsTable toy_sha (secs 9_000_000) default_config (secs 2000) open_table open-IsTable

open_over : is_over default_config (secs 2000) open_state ≡ true
unfolding is_over new_state default_config
open_over = refl

tick-ends_example :
    (lookup same_key sample_key
        (tick toy_sha (secs 9_000_000) default_config (secs 2000) open_table).0.in_progress
      ≡ none)
    × Reports toy_sha default_config sample_key open_state
        (tick toy_sha (secs 9_000_000) default_config (secs 2000) open_table).1
tick-ends_example =
    tick-ends toy_sha (secs 9_000_000) default_config (secs 2000) open_table sample_key open_state
      open-IsTable (lookup-insert empty_table sample_key open_state 5) open_over

off-is_over_example :
    is_over (apply_params default_config (resolve_nack off none)) 6 open_state ≡ true
off-is_over_example = off-is_over default_config none 6 open_state

no_rounds : open_state.nack_rounds ≡ 0
unfolding new_state
no_rounds = refl

long_enough : millis 1 ≤ default_config.message_timeout
unfolding default_config
long_enough = omega arith

short_enough : millis_of default_config.message_timeout < 2 ^ 64
unfolding default_config
short_enough = omega arith

short_window : millis_of default_config.nack_window < 2 ^ 64
unfolding default_config
short_window = omega arith

sync-covers_example :
    ((millis_of default_config.message_timeout
        ≤ (sync_nack_cap_to_timeout default_config).max_nack_rounds
          * max (millis_of default_config.nack_window) 1)
      ⊎ ((sync_nack_cap_to_timeout default_config).max_nack_rounds ≡ 65535))
    × (default_config.message_timeout ≤ (sync_nack_cap_to_timeout default_config).completion_memory)
sync-covers_example = sync-covers default_config short_enough short_window
