-- ===== src/Tests/Frames.antt =====
-- Headers and messages at concrete inputs.
use voicetastic_core.Prelude.{ℕ, ◌≤◌, ◌≡◌, refl, ◌↔◌, true, List, [], ◌∷◌, ◌++◌, arith, replicate}
use voicetastic_core.Proto.Consts.{max_body_size}
use voicetastic_core.Proto.Types.{data_packet, opus, from_byte, to_byte, from_bits}
use voicetastic_core.Proto.Error.{ok, err, bad_mac}
use voicetastic_core.Proto.Mac.{verify}
use voicetastic_core.Proto.Header.{ChunkHeader, IsValid, serialize, parse, check_index}
use voicetastic_core.Proto.Header.RoundTrip.{parse-serialize}
use voicetastic_core.Proto.Header.Parsed.{parse-Parsed}
use voicetastic_core.Proto.Builder.{BuildConfig, EncodedMessage, build_message}
use voicetastic_core.Proto.Builder.Sent.{IsConfig}
use voicetastic_core.Proto.Builder.Message.{Accepts, Sent, build_message-ok_iff, build_message-Sent}
use voicetastic_core.Tests.Stubs.{toy_sha, toy_digest, toy_rs, toy_rs-IsReedSolomon}

-- The header of the source's own tests.
abbrev sample_header : ChunkHeader
sample_header = record {
  packet_type = data_packet;
  last_in_stream = true;
  message_id = 0x12345678;
  codec = opus;
  codec_param = 16;
  stream_seq = 42;
  chunk_index = 3;
  total_data = 10;
  parity_count = 4;
}

sample_header-IsValid : IsValid sample_header
unfolding to_byte from_byte
sample_header-IsValid = record {
  id_set = omega arith;
  id_fits = omega arith;
  codec_fits = (omega arith, refl);
  param_fits = omega arith;
  seq_fits = omega arith;
  some_data = omega arith;
  total_fits = omega arith;
  parity_fits = omega arith;
  index_ok = omega arith;
}

abbrev sample_bytes : List ℕ
sample_bytes =
    0x03 ∷ 0x10 ∷ 0x12 ∷ 0x34 ∷ 0x56 ∷ 0x78 ∷ 1 ∷ 16 ∷ 42 ∷ 3 ∷ 10 ∷ 4 ∷ 0x03 ∷ 0x10 ∷ 0x12 ∷ 0x34
    ∷ 104 ∷ 101 ∷ []

sample_parses : parse toy_sha sample_bytes ≡ ok (sample_header, 104 ∷ 101 ∷ [])
unfolding parse check_index verify from_byte from_bits toy_digest
sample_parses = refl

-- One bit of `total_data` flipped.
sample_tampered :
    parse toy_sha (
      0x03 ∷ 0x10 ∷ 0x12 ∷ 0x34 ∷ 0x56 ∷ 0x78 ∷ 1 ∷ 16 ∷ 42 ∷ 3 ∷ 11 ∷ 4 ∷ 0x04 ∷ 0x10 ∷ 0x12 ∷ 0x34
      ∷ [])
    ≡ err bad_mac
unfolding parse check_index verify from_byte from_bits toy_digest
sample_tampered = refl

parse-serialize_example :
    parse toy_sha (serialize toy_sha sample_header ++ (1 ∷ 2 ∷ [])) ≡ ok (sample_header, 1 ∷ 2 ∷ [])
parse-serialize_example =
    parse-serialize toy_sha sample_header sample_header-IsValid (1 ∷ 2 ∷ []) (omega arith)

parse-Parsed_example :
    IsValid sample_header
    × (serialize toy_sha sample_header ++ (104 ∷ 101 ∷ []) ≡ sample_bytes)
    × (2 ≤ max_body_size)
parse-Parsed_example =
    parse-Parsed toy_sha sample_bytes sample_header (104 ∷ 101 ∷ []) (omega arith) sample_parses

-- Forty bytes in chunks of sixteen, with two parity shards.
abbrev sample_config : BuildConfig
sample_config = record {
  message_id = 12345;
  stream_seq = 0;
  codec = opus;
  codec_param = 5;
  chunk_size = 16;
  parity_count = 2;
  last_in_stream = true;
}

abbrev sample_audio : List ℕ
sample_audio = replicate 40 42

sample_config-IsConfig : IsConfig sample_config
unfolding to_byte from_byte
sample_config-IsConfig = record {
  id_set = omega arith;
  id_fits = omega arith;
  codec_fits = (omega arith, refl);
  param_fits = omega arith;
  seq_fits = omega arith;
  parity_fits = omega arith;
}

sample-Accepts : Accepts sample_audio sample_config
sample-Accepts = record {
  chunk_lower = omega arith;
  chunk_upper = omega arith;
  some_audio = omega arith;
  few_chunks = omega arith;
  few_parity = omega arith;
  few_shards = omega arith;
}

build_message-ok_iff_example :
    Accepts sample_audio sample_config
    ↔ ((m : EncodedMessage) × (build_message toy_sha toy_rs sample_audio sample_config ≡ ok m))
build_message-ok_iff_example =
    build_message-ok_iff toy_sha toy_rs toy_rs-IsReedSolomon sample_audio sample_config
      (omega arith) sample_config-IsConfig

sample_message :
    (m : EncodedMessage) × (build_message toy_sha toy_rs sample_audio sample_config ≡ ok m)
sample_message =
    (build_message-ok_iff toy_sha toy_rs toy_rs-IsReedSolomon sample_audio sample_config
        (omega arith) sample_config-IsConfig).0
      sample-Accepts

build_message-Sent_example : Sent toy_sha sample_audio sample_config sample_message.0
build_message-Sent_example =
    build_message-Sent toy_sha toy_rs toy_rs-IsReedSolomon sample_audio sample_config (omega arith)
      sample_config-IsConfig sample_message.0 sample_message.1
