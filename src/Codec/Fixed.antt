-- ===== src/Codec/Fixed.antt =====
-- An AMR-NB payload of one fixed mode: the walk by headers and the walk by strides agree.
use voicetastic_core.Prelude.{
  ℕ, zero, suc, ◌+◌, ◌*◌, ◌/◌, ◌≤◌, ◌<◌, ◌≡◌, refl, sym, ap, ◌∙◌, none, some, List, [], ◌∷◌, map,
  Bool-cases, inl, inr, arith, length, take, drop, get_or, All, length-append, take-append_length,
  is_empty,
}
use voicetastic_core.Proto.Types.{amr_nb}
use voicetastic_core.Codec.Frames.{amrnb_frame_bytes, collect_all, next_frame, slice}
use voicetastic_core.Codec.Walk.{spelled, drop-drop}
use voicetastic_core.Codec.Packets.{amrnb_frame_bytes-IsSize}
use voicetastic_core.Codec.RoundTrip.{IsFrame, frames-read, drop-append_length}
use voicetastic_core.Codec.Duration.{
  Range, frame, feeds_loop, feeds, payload_duration_ms, frame_overlaps_gap,
  payload_duration_ms_with_gaps, duration_by_size, fixed_duration, twenty_ms,
}
use voicetastic_core.Codec.Timeline.{feeds-stop, feeds-step}
use native.Mathlib.Nat.{mul-div_cancel}

-- Every frame has `n` bytes.
abbrev pub AllSized : ℕ → List (List ℕ) → Type 0
AllSized n frames = All (λ f. length f ≡ n) frames

length-spelled :
    (n : ℕ) (frames : List (List ℕ))
    → AllSized n frames
    → length (spelled (λ f. f) frames) ≡ length frames * n
length-spelled n [] h = omega arith
length-spelled n (f ∷ frames) h =
    let ih = length-spelled n frames h.1 in
    let s = length-append f (spelled (λ x. x) frames) in grind (arith, ih, s, h.0)

feeds_loop-frames :
    (payload : List ℕ) (n : ℕ) (frames : List (List ℕ)) (fuel i : ℕ)
    → 0 < n
    → AllSized n frames
    → length frames < fuel
    → drop i payload ≡ spelled (λ f. f) frames
    → i + length (spelled (λ f. f) frames) ≡ length payload
    → feeds_loop payload [] n fuel i ≡ map frame frames
unfolding frame_overlaps_gap
feeds_loop-frames payload n frames zero i p h l d e = absurd (omega arith)
feeds_loop-frames payload n [] (suc fuel) i p h l d e =
    feeds-stop payload [] n p fuel i (ground (arith, e))
feeds_loop-frames payload n (f ∷ frames) (suc fuel) i p h l d e =
    let s = length-append f (spelled (λ x. x) frames) in
    let w : i + n ≤ length payload = omega (arith, s, h.0, e) in
    let taken : slice payload i n ≡ f =
      ap (λ k. take k (drop i payload)) (sym h.0)
      ∙ ap (take (length f)) d
      ∙ take-append_length f (spelled (λ x. x) frames) in
    let left : drop (i + n) payload ≡ spelled (λ x. x) frames =
      sym (drop-drop n i payload)
      ∙ ap (λ k. drop k (drop i payload)) (sym h.0)
      ∙ ap (drop (length f)) d
      ∙ drop-append_length f (spelled (λ x. x) frames) in
    let ih =
      feeds_loop-frames payload n frames fuel (i + n) p h.1 (omega arith) left
        (omega (arith, s, h.0, e)) in
    rw (feeds-step payload [] n p fuel i (ground arith), ih, taken) refl

count-le :
    (n : ℕ) (frames : List (List ℕ))
    → 0 < n
    → AllSized n frames
    → length frames ≤ length (spelled (λ f. f) frames)
count-le n frames p h = let l = length-spelled n frames h in grind arith

fixed_duration-pos :
    (payload : List ℕ) (param n : ℕ)
    → 0 < n
    → fixed_duration payload param (some n) ≡ twenty_ms (length payload / n)
unfolding payload_duration_ms
fixed_duration-pos payload param zero p = absurd (omega arith)
fixed_duration-pos payload param (suc n) p = refl

-- The frames of one mode, written one after the other: with and without gaps each frame counts
-- 20 ms, and a decoder with nothing to conceal is fed the frames as they were written, whether it
-- walks by the headers or by strides.
pub record FixedMode (frames : List (List ℕ)) (param n : ℕ) : Type 0 where
  pub by_headers : (collect_all next_frame (spelled (λ f. f) frames)).1 ≡ frames
  pub by_strides : feeds (spelled (λ f. f) frames) [] n ≡ map frame frames
  pub complete :
      payload_duration_ms (spelled (λ f. f) frames) amr_nb param ≡ twenty_ms (length frames)
  pub partial :
      (gaps : List Range)
      → payload_duration_ms_with_gaps (spelled (λ f. f) frames) gaps amr_nb param
        ≡ payload_duration_ms (spelled (λ f. f) frames) amr_nb param

module _ (frames : List (List ℕ)) (param n : ℕ)
    (mode : get_or amrnb_frame_bytes param none ≡ some n) (framed : All IsFrame frames)
    (sized : AllSized n frames) where
  size_pos : 0 < n
  size_pos = let p = amrnb_frame_bytes-IsSize param in ground (arith, p)

  duration_complete :
      payload_duration_ms (spelled (λ f. f) frames) amr_nb param ≡ twenty_ms (length frames)
  unfolding payload_duration_ms
  duration_complete = ap (λ r. twenty_ms (length (r.1))) (frames-read frames framed)

  duration_by_size_complete :
      duration_by_size (spelled (λ f. f) frames) amr_nb param ≡ twenty_ms (length frames)
  unfolding payload_duration_ms
  duration_by_size_complete =
      let l : length (spelled (λ f. f) frames) / n ≡ length frames =
        ap (λ k. k / n) (length-spelled n frames sized) ∙ mul-div_cancel (length frames) size_pos in
      ap (fixed_duration (spelled (λ f. f) frames) param) mode
      ∙ fixed_duration-pos (spelled (λ f. f) frames) param n size_pos
      ∙ ap twenty_ms l

  -- On frames that announce their own length, all of the size of one mode, written one after the
  -- other: the walk by headers gives them back, a decoder with no gaps is fed them by strides, and the
  -- two durations agree on 20 ms for each.
  pub fixed-FixedMode : FixedMode frames param n
  unfolding feeds payload_duration_ms_with_gaps
  fixed-FixedMode = record {
    by_headers = ap (λ r. r.1) (frames-read frames framed);
    by_strides =
        feeds_loop-frames (spelled (λ f. f) frames) n frames
          (suc (length (spelled (λ f. f) frames))) 0 size_pos sized
          (omega (arith, count-le n frames size_pos sized)) refl (omega arith);
    complete = duration_complete;
    partial = λ gaps. elim (Bool-cases (is_empty gaps)) [
      | inl e ↦ rw e refl
      | inr e ↦ rw e (duration_by_size_complete ∙ sym duration_complete)
    ];
  }
