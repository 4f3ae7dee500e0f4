-- ===== src/Tests/Requests.antt =====
-- NACK frames at concrete inputs.
use voicetastic_core.Prelude.{ℕ, ◌≡◌, refl, false, List, [], ◌∷◌, arith}
use voicetastic_core.Proto.Types.{opus, to_byte, from_byte}
use voicetastic_core.Proto.Error.{ok}
use voicetastic_core.Proto.Header.{parse}
use voicetastic_core.Voice.Nack.{
  nack_header, build_nack, parse_nack_body, mark_all, mark, empty_body, read_bitmap,
}
use voicetastic_core.Voice.Nack.RoundTrip.{IsRequest, wanted, wanted-Ascending, parse-build_nack}
use voicetastic_core.Tests.Stubs.{toy_sha}

abbrev missing : List ℕ
missing = 1 ∷ 4 ∷ 9 ∷ []

sample_bitmap : mark_all 10 missing (empty_body 10 false) ≡ 0x01 ∷ 0x00 ∷ 0x48 ∷ 0x40 ∷ []
unfolding mark_all mark empty_body
sample_bitmap = refl

sample_read : read_bitmap (0x01 ∷ 0x00 ∷ 0x48 ∷ 0x40 ∷ []) 0 10 ≡ missing
unfolding read_bitmap
sample_read = refl

sample-IsRequest : IsRequest 0x1234 0 opus 16 10 2
unfolding to_byte from_byte
sample-IsRequest = record {
  id_set = omega arith;
  id_fits = omega arith;
  seq_fits = omega arith;
  codec_fits = (omega arith, refl);
  param_fits = omega arith;
  some_data = omega arith;
  total_fits = omega arith;
  parity_fits = omega arith;
}

parse-build_nack_example :
    (parse toy_sha (build_nack toy_sha 0x1234 0 opus 16 10 2 missing false)
      ≡ ok (nack_header 0x1234 0 opus 16 10 2, mark_all 10 missing (empty_body 10 false)))
    × (parse_nack_body
          (nack_header 0x1234 0 opus 16 10 2)
          (mark_all 10 missing (empty_body 10 false))
        ≡ ok (record {
          message_id = 0x1234;
          stream_seq = 0;
          total_data = 10;
          parity_count = 2;
          give_up = false;
          missing = wanted missing 0 10;
        }))
parse-build_nack_example =
    parse-build_nack toy_sha 0x1234 0 opus 16 10 2 missing false sample-IsRequest

wanted_sample : wanted missing 0 10 ≡ missing
wanted_sample = wanted-Ascending missing 0 10 10 (omega arith) (omega arith)
