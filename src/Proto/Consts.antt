-- ===== src/Proto/Consts.antt =====
-- crates/voicetastic-proto/src/consts.rs: the protocol's constants. Durations are in nanoseconds.
use voicetastic_core.Prelude.{ℕ, ◌-◌, ◌*◌}

abbrev pub secs : ℕ → ℕ
secs n = n * 1_000_000_000

abbrev pub millis : ℕ → ℕ
millis n = n * 1_000_000

abbrev pub protocol_version : ℕ
protocol_version = 0x03

abbrev pub header_size : ℕ
header_size = 16

abbrev pub header_mac_len : ℕ
header_mac_len = 4

abbrev pub max_packet_size : ℕ
max_packet_size = 231

abbrev pub max_body_size : ℕ
max_body_size = max_packet_size - header_size

abbrev pub min_chunk_size : ℕ
min_chunk_size = 16

abbrev pub max_chunks_per_message : ℕ
max_chunks_per_message = 255

abbrev pub max_parity_per_message : ℕ
max_parity_per_message = 128

abbrev pub max_total_shards : ℕ
max_total_shards = 256

abbrev pub max_in_progress_global : ℕ
max_in_progress_global = 64

abbrev pub max_in_progress_per_sender : ℕ
max_in_progress_per_sender = 4

abbrev pub blacklist_max : ℕ
blacklist_max = 100

abbrev pub dead_sender_timeout : ℕ
dead_sender_timeout = secs 120

abbrev pub nack_max_rounds : ℕ
nack_max_rounds = 400

abbrev pub nack_window_ms : ℕ
nack_window_ms = 3000
