-- ===== src/Voice/Assembler/Ingest.antt =====
-- crates/voicetastic-core/src/voice/assembler/mod.rs, lines 485 to 654: a frame against the state
-- of its message.
use voicetastic_core.Prelude.{
  ℕ, ◌-◌, Bool, not, ◌&&◌, Option, none, some, List, ◌++◌, ltb, leb, ◌==◌, if◌then◌else◌, length,
  get_or, set, replicate,
}
use voicetastic_core.Proto.Consts.{min_chunk_size, max_body_size}
use voicetastic_core.Proto.Types.{data_packet, parity_packet, nack_packet, codec_eq}
use voicetastic_core.Proto.Error.{
  chunk_too_large, body_len_mismatch, total_mismatch, codec_mismatch, stream_seq_mismatch,
  parity_count_decrease, Result, ok, ◌>>=◌, ◌>>◌, guard,
}
use voicetastic_core.Proto.Header.{ChunkHeader}
use voicetastic_core.Voice.Types.{AssemblyEvent, duplicate}
use voicetastic_core.Voice.Assembler.State.{AssemblyState, is_some, bump}

-- `(MIN_CHUNK_SIZE..=MAX_BODY_SIZE).contains(&len)`
abbrev pub in_range : ℕ → Bool
in_range len = leb min_chunk_size len && leb len max_body_size

abbrev pub check_range : Option ℕ → Result (Option ℕ)
check_range none = ok none
check_range (some cs) = guard (in_range cs) (chunk_too_large cs max_body_size) >> ok (some cs)

-- A NACK never comes here: its arm of the source's `match` is `unreachable!`.
unfoldable pub derive_initial_chunk_size : ChunkHeader → List ℕ → Result (Option ℕ)
derive_initial_chunk_size header body = elim header.packet_type [
  | data_packet ↦
      check_range (if header.chunk_index == header.total_data - 1 then none else some (length body))
  | parity_packet ↦ check_range (some (length body))
  | nack_packet ↦ ok none
]

unfoldable pub validate_template : AssemblyState → ChunkHeader → Result (Unit {0})
validate_template s header = do
  let first = s.header_template
  guard (header.total_data == first.total_data) (total_mismatch first.total_data header.total_data)
  guard (codec_eq header.codec first.codec) (codec_mismatch first.codec header.codec)
  guard (header.stream_seq == first.stream_seq)
      (stream_seq_mismatch first.stream_seq header.stream_seq)
  guard (leb first.parity_count header.parity_count)
      (parity_count_decrease first.parity_count header.parity_count)

-- The index of the last data shard.
abbrev pub last_idx : AssemblyState → ℕ
last_idx s = s.header_template.total_data - 1

-- The last shard is dropped when it turns out to be too long.
abbrev pub drop_long_tail : ℕ → AssemblyState → AssemblyState
drop_long_tail len s = elim (get_or s.data_shards (last_idx s) none) [
  | none ↦ s
  | some stored ↦
      if ltb len (length stored)
      then record s {
        data_shards = set s.data_shards (last_idx s) none;
        received_data = s.received_data - 1;
        last_data_len = none;
      }
      else s
]

unfoldable pub pin_chunk_size : AssemblyState → ℕ → Result AssemblyState
pin_chunk_size s len = elim s.chunk_size [
  | some expected ↦ guard (len == expected) (body_len_mismatch len expected) >> ok s
  | none ↦
      guard (in_range len) (chunk_too_large len max_body_size)
      >> ok (drop_long_tail len (record s { chunk_size = some len }))
]

abbrev pub store_data : AssemblyState → ℕ → List ℕ → AssemblyState
store_data s idx body = record s {
  data_shards = set s.data_shards idx (some body);
  received_data = bump s.received_data;
}

abbrev pub check_tail : Option ℕ → ℕ → Result (Unit {0})
check_tail none len = ok tt
check_tail (some expected) len = guard (leb len expected) (body_len_mismatch len expected)

-- An index out of range would panic; the parser has checked it against the counts of the header.
unfoldable pub ingest_data :
    AssemblyState → ChunkHeader → List ℕ → Result (AssemblyState × Option AssemblyEvent)
ingest_data s header body =
    let idx = header.chunk_index in
    if is_some (get_or s.data_shards idx none)
    then ok (s, some duplicate)
    else if not (idx == last_idx s)
    then (do pinned ← pin_chunk_size s (length body); ok (store_data pinned idx body, none))
    else (do
      check_tail s.chunk_size (length body)
      ok (store_data (record s { last_data_len = some (length body) }) idx body, none))

abbrev pub store_parity : AssemblyState → ℕ → List ℕ → AssemblyState
store_parity s idx body = record s {
  parity_shards = set s.parity_shards idx (some body);
  received_parity = bump s.received_parity;
}

unfoldable pub ingest_parity :
    AssemblyState → ChunkHeader → List ℕ → Result (AssemblyState × Option AssemblyEvent)
ingest_parity s header body =
    let idx = header.chunk_index in
    if is_some (get_or s.parity_shards idx none)
    then ok (s, some duplicate)
    else (do pinned ← pin_chunk_size s (length body); ok (store_parity pinned idx body, none))

-- `parity_shards.resize(new_len, None)`, under the test that the count grew.
unfoldable pub grow_parity : AssemblyState → ChunkHeader → AssemblyState
grow_parity s header =
    if ltb s.header_template.parity_count header.parity_count
    then record s {
      parity_shards =
          s.parity_shards ++ replicate (header.parity_count - length s.parity_shards) none;
      header_template = record s.header_template { parity_count = header.parity_count };
    }
    else s

unfoldable pub ingest :
    AssemblyState → ChunkHeader → List ℕ → Result (AssemblyState × Option AssemblyEvent)
ingest s header body = elim header.packet_type [
  | data_packet ↦ ingest_data s header body
  | parity_packet ↦ ingest_parity s header body
  | nack_packet ↦ ok (s, none)
]
