-- ===== src/Tests/Codecs.antt =====
-- The theorems about the codecs' payloads, applied to short payloads.
use voicetastic_core.Prelude.{ℕ, refl, arith, List, [], ◌∷◌}
use voicetastic_core.Codec.Frames.{collect_all, next_packet, frame_size}
use voicetastic_core.Codec.RoundTrip.{Walked, next_packet-Walked}
use voicetastic_core.Codec.Fixed.{FixedMode, fixed-FixedMode}
use voicetastic_core.Codec.Timeline.{Conceals, feeds-Conceals}

-- A packet of one byte, one that is empty, and a length that announces too much.
next_packet-Walked_example :
    Walked
      (0 ∷ 1 ∷ 42 ∷ 0 ∷ 0 ∷ 0 ∷ 9 ∷ 7 ∷ [])
      (collect_all next_packet (0 ∷ 1 ∷ 42 ∷ 0 ∷ 0 ∷ 0 ∷ 9 ∷ 7 ∷ []))
next_packet-Walked_example = next_packet-Walked (0 ∷ 1 ∷ 42 ∷ 0 ∷ 0 ∷ 0 ∷ 9 ∷ 7 ∷ []) (
  omega arith,
  (
    omega arith,
    (omega arith, (omega arith, (omega arith, (omega arith, (omega arith, (omega arith, tt)))))),
  ),
)

-- A comfort-noise frame: type 8, with five bytes behind the header.
abbrev noise_frame : List ℕ
noise_frame = 68 ∷ 1 ∷ 2 ∷ 3 ∷ 4 ∷ 5 ∷ []

abbrev noise_frames : List (List ℕ)
noise_frames = noise_frame ∷ noise_frame ∷ []

fixed-FixedMode_example : FixedMode noise_frames 8 6
unfolding frame_size
fixed-FixedMode_example =
    fixed-FixedMode noise_frames 8 6 refl (refl, (refl, tt)) (refl, (refl, tt))

-- Four places of three bytes; the gap takes the fifth and the sixth byte, the second place.
feeds-Conceals_example :
    Conceals
      (1 ∷ 2 ∷ 3 ∷ 4 ∷ 0 ∷ 0 ∷ 7 ∷ 8 ∷ 9 ∷ 10 ∷ 11 ∷ 12 ∷ [])
      (record { start = 4; end = 6 } ∷ [])
      3
      1
feeds-Conceals_example =
    feeds-Conceals (1 ∷ 2 ∷ 3 ∷ 4 ∷ 0 ∷ 0 ∷ 7 ∷ 8 ∷ 9 ∷ 10 ∷ 11 ∷ 12 ∷ [])
      (record { start = 4; end = 6 } ∷ []) 3 1 (omega arith) (omega arith, tt) (omega arith)
