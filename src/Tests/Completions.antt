-- ===== src/Tests/Completions.antt =====
-- A message of one frame, from its bytes to its audio, and one of ten of which one is there.
use voicetastic_core.Prelude.{replicate, ℕ, ◌≡◌, refl, true, List, [], ◌∷◌, arith}
use voicetastic_core.Prelude.Assoc.{lookup}
use voicetastic_core.Proto.Types.{opus, from_byte, from_bits, codec_eq}
use voicetastic_core.Proto.Error.{ok}
use voicetastic_core.Proto.Header.{parse, check_index}
use voicetastic_core.Proto.Mac.{verify}
use voicetastic_core.Voice.Types.{VoiceMessage, node, complete}
use voicetastic_core.Voice.Assembler.Config.{default_config}
use voicetastic_core.Voice.Assembler.State.{AssemblerInner, new_state, try_fec_recover}
use voicetastic_core.Voice.Assembler.Finalize.{is_listed, finalize, audio_of, present_audio}
use voicetastic_core.Voice.Assembler.Ingest.{
  derive_initial_chunk_size, validate_template, ingest, ingest_data, grow_parity,
}
use voicetastic_core.Voice.Assembler.Accept.{
  insert, evict_for_global_cap, accept, accept_inner, accept_chunk, admit, check_per_sender_cap,
  in_use, prune_blacklist, apply_frame, settle, finish,
}
use voicetastic_core.Voice.Assembler.Table.Invariant.{IsTable, empty-IsTable}
use voicetastic_core.Voice.Assembler.Table.Accept.{accept-IsTable}
use voicetastic_core.Voice.Assembler.Shards.Entries.{Entries, accept-Entries}
use voicetastic_core.Voice.Assembler.Shards.Complete.{IsWhole, accept-IsWhole}
use voicetastic_core.Tests.Stubs.{toy_sha, toy_rs, toy_digest}

abbrev no_messages : AssemblerInner
no_messages = record { in_progress = []; per_sender = []; blacklist = [] }

no_messages-Entries : Entries no_messages
unfolding lookup
no_messages-Entries k s e = absurd (ground (arith, e))

abbrev single_bytes : List ℕ
single_bytes =
    0x03 ∷ 0x10 ∷ 0x12 ∷ 0x34 ∷ 0x56 ∷ 0x78 ∷ 1 ∷ 16 ∷ 42 ∷ 0 ∷ 1 ∷ 0 ∷ 0x03 ∷ 0x10 ∷ 0x12 ∷ 0x34
    ∷ 104 ∷ 101 ∷ []

abbrev single_message : VoiceMessage
single_message = record {
  message_id = 0x12345678;
  from = "!a1";
  to = node 7;
  stream_seq = 42;
  codec = opus;
  codec_param = 16;
  audio = 104 ∷ 101 ∷ [];
  gaps = [];
  timestamp = 9;
  is_complete = true;
  total_data = 1;
  received_data = 1;
  recovered_via_fec = 0;
  channel = 0;
}

single_completes :
    (accept_inner toy_sha toy_rs default_config no_messages 5 9 "!a1" (node 7) 0 single_bytes).1
    ≡ ok (complete single_message)
unfolding accept_inner accept_chunk parse check_index verify from_byte from_bits toy_digest admit
    check_per_sender_cap in_use prune_blacklist is_listed lookup derive_initial_chunk_size
    default_config apply_frame validate_template codec_eq new_state ingest ingest_data grow_parity
    settle finish try_fec_recover finalize audio_of present_audio insert evict_for_global_cap
single_completes = refl

accept-IsWhole_example : IsWhole single_message
accept-IsWhole_example =
    accept-IsWhole toy_sha toy_rs default_config no_messages 5 9 "!a1" (node 7) 0 single_bytes
      single_message (omega arith) no_messages-Entries single_completes

accept-Entries_example :
    Entries (accept toy_sha toy_rs default_config no_messages 5 9 "!a1" (node 7) 0 single_bytes).0
accept-Entries_example =
    accept-Entries toy_sha toy_rs default_config no_messages 5 9 "!a1" (node 7) 0 single_bytes
      (omega arith) empty-IsTable no_messages-Entries

abbrev half_bytes : List ℕ
half_bytes =
    0x03
    ∷ 0x10
    ∷ 0x12
    ∷ 0x34
    ∷ 0x56
    ∷ 0x78
    ∷ 1
    ∷ 16
    ∷ 42
    ∷ 3
    ∷ 10
    ∷ 4
    ∷ 0x03
    ∷ 0x10
    ∷ 0x12
    ∷ 0x34
    ∷ replicate 16 7

-- The table after chunk 3 of 10.
abbrev half_table : AssemblerInner
half_table = (accept toy_sha toy_rs default_config no_messages 5 9 "!a1" (node 7) 0 half_bytes).0

half-IsTable : IsTable half_table
half-IsTable =
    accept-IsTable toy_sha toy_rs default_config no_messages 5 9 "!a1" (node 7) 0 half_bytes
      empty-IsTable

half-Entries : Entries half_table
half-Entries =
    accept-Entries toy_sha toy_rs default_config no_messages 5 9 "!a1" (node 7) 0 half_bytes
      (omega arith) empty-IsTable no_messages-Entries
