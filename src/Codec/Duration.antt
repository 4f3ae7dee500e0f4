-- ===== src/Codec/Duration.antt =====
-- crates/voicetastic-core/src/codec/mod.rs: how long an encoded payload plays, and imp.rs: which
-- frames of a partial payload are concealed.
use voicetastic_core.Prelude.{
  ℕ, zero, suc, ◌+◌, ◌*◌, ◌/◌, ◌%◌, ◌^◌, Bool, false, ◌&&◌, ◌||◌, Option, none, some, List, [], ◌∷◌,
  ltb, leb, if◌then◌else◌, length, get_or, is_empty,
}
use voicetastic_core.Proto.Types.{VoiceCodec, amr_nb, opus, codec2}
use voicetastic_core.Codec.Frames.{
  amrnb_frame_bytes, next_frame, next_packet, collect_all, opus_packet_samples_48k, slice,
}

abbrev codec2_samples_per_frame : List ℕ
codec2_samples_per_frame = 160 ∷ 160 ∷ 320 ∷ 320 ∷ 320 ∷ 320 ∷ []

abbrev codec2_bytes_per_frame : List ℕ
codec2_bytes_per_frame = 8 ∷ 6 ∷ 8 ∷ 7 ∷ 7 ∷ 6 ∷ []

unfoldable pub codec2_frame_sizes : ℕ → Option (ℕ × ℕ)
codec2_frame_sizes mode =
    if ltb mode (length codec2_samples_per_frame)
    then some (get_or codec2_samples_per_frame mode 0, get_or codec2_bytes_per_frame mode 0)
    else none

-- `unwrap_or`
abbrev pub or_else : Option ℕ → ℕ → ℕ
or_else none d = d
or_else (some n) d = n

-- A `u64` in the source. A packet adds at most 181,440, so that a payload that wraps it does not fit
-- an address space.
unfoldable pub total_samples : List (List ℕ) → ℕ
unfolding opus_packet_samples_48k
total_samples [] = 0
total_samples (packet ∷ packets) =
    or_else (opus_packet_samples_48k packet) 960 + total_samples packets

-- `frame_count * (samples as u32) / 8`, with the wrap of the multiplication.
abbrev pub codec2_duration : ℕ → Option (ℕ × ℕ) → ℕ
codec2_duration len none = 0
codec2_duration len (some (samples, bytes)) = (len / bytes % 2 ^ 32 * samples) % 2 ^ 32 / 8

-- A count of frames `as u32 * 20`.
abbrev pub twenty_ms : ℕ → ℕ
twenty_ms frames = (frames % 2 ^ 32 * 20) % 2 ^ 32

unfoldable pub payload_duration_ms : List ℕ → VoiceCodec → ℕ → ℕ
unfolding collect_all next_frame next_packet total_samples codec2_frame_sizes
payload_duration_ms payload opus param =
    total_samples (collect_all next_packet payload).1 / 48 % 2 ^ 32
payload_duration_ms payload codec2 param =
    codec2_duration (length payload) (codec2_frame_sizes param)
payload_duration_ms payload amr_nb param = twenty_ms (length (collect_all next_frame payload).1)
payload_duration_ms payload c param = 0

-- A gap is a range of bytes, its end not included.
pub record Range : Type 0 where
  pub start : ℕ
  pub end : ℕ

-- `Some(n) if n > 0` counts whole frames; all else is walked.
abbrev pub fixed_duration : List ℕ → ℕ → Option ℕ → ℕ
unfolding payload_duration_ms
fixed_duration payload param (some (suc n)) = twenty_ms (length payload / suc n)
fixed_duration payload param other = payload_duration_ms payload amr_nb param

abbrev pub duration_by_size : List ℕ → VoiceCodec → ℕ → ℕ
unfolding payload_duration_ms
duration_by_size payload amr_nb param =
    fixed_duration payload param (get_or amrnb_frame_bytes param none)
duration_by_size payload c param = payload_duration_ms payload c param

unfoldable pub payload_duration_ms_with_gaps : List ℕ → List Range → VoiceCodec → ℕ → ℕ
unfolding payload_duration_ms
payload_duration_ms_with_gaps payload gaps c param =
    if is_empty gaps then payload_duration_ms payload c param else duration_by_size payload c param

unfoldable pub frame_overlaps_gap : ℕ → ℕ → List Range → Bool
frame_overlaps_gap start len [] = false
frame_overlaps_gap start len (g ∷ gaps) =
    (ltb start g.end && ltb g.start (start + len)) || frame_overlaps_gap start len gaps

unfoldable pub codec2_mode_from_byte : ℕ → Option ℕ
codec2_mode_from_byte b = if ltb b 6 then some b else none

unfoldable pub amrnb_validate_mode : ℕ → Option ℕ
amrnb_validate_mode b = if ltb b 8 then some b else none

-- What a decoder of fixed frames is fed: the bytes of a frame, or the stand-in of a lost one.
pub data Feed : Type 0 where
  frame : List ℕ → Feed
  lost : Feed

abbrev pub feed_at : List ℕ → List Range → ℕ → ℕ → Feed
unfolding frame_overlaps_gap
feed_at payload gaps size i =
    if frame_overlaps_gap i size gaps then lost else frame (slice payload i size)

-- `while i + size <= payload.len()`, with fuel; a step is a byte at least.
unfoldable pub feeds_loop : List ℕ → List Range → ℕ → ℕ → ℕ → List Feed
unfolding frame_overlaps_gap
feeds_loop payload gaps size zero i = []
feeds_loop payload gaps size (suc fuel) i =
    let rest = feeds_loop payload gaps size fuel (i + size) in
    if leb (i + size) (length payload) then feed_at payload gaps size i ∷ rest else []

unfoldable pub feeds : List ℕ → List Range → ℕ → List Feed
unfolding feeds_loop
feeds payload gaps size = feeds_loop payload gaps size (suc (length payload)) 0
