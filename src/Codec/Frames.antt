-- ===== src/Codec/Frames.antt =====
-- crates/voicetastic-core/src/codec/frames.rs: the iterators over AMR-NB frames and Opus packets.
use voicetastic_core.Prelude.{
  ℕ, zero, suc, ◌+◌, ◌-◌, ◌*◌, ◌/◌, ◌||◌, Option, none, some, List, [], ◌∷◌, bit_and, ltb, leb,
  ◌==◌, if◌then◌else◌, length, get_elem?, get_or, take, drop,
}

-- The bytes of a frame by its type, header included; `none` is a reserved type.
abbrev pub amrnb_frame_bytes : List (Option ℕ)
amrnb_frame_bytes =
    some 13
    ∷ some 14
    ∷ some 16
    ∷ some 18
    ∷ some 20
    ∷ some 21
    ∷ some 27
    ∷ some 32
    ∷ some 6
    ∷ none
    ∷ none
    ∷ none
    ∷ none
    ∷ none
    ∷ none
    ∷ some 1
    ∷ []

-- Both iterators hold the bytes and a position.
pub record Cursor : Type 0 where
  pub bytes : List ℕ
  pub pos : ℕ

abbrev pub new : List ℕ → Cursor
new bytes = record { bytes = bytes; pos = 0 }

unfoldable pub remaining : Cursor → ℕ
remaining c = length c.bytes - c.pos

-- `&data[from..from + n]`
abbrev pub slice : List ℕ → ℕ → ℕ → List ℕ
slice xs from n = take n (drop from xs)

-- The size that a header byte announces.
unfoldable pub frame_size : ℕ → Option ℕ
frame_size toc = get_or amrnb_frame_bytes (bit_and (toc / 8) 0x0f) none

unfoldable pub take_frame : Cursor → Option ℕ → Cursor × Option (List ℕ)
take_frame c none = (c, none)
take_frame c (some size) =
    if ltb (length c.bytes) (c.pos + size)
    then (c, none)
    else (record c { pos = c.pos + size }, some (slice c.bytes c.pos size))

unfoldable pub next_frame : Cursor → Cursor × Option (List ℕ)
unfolding take_frame
next_frame c =
    if leb (length c.bytes) c.pos
    then (c, none)
    else take_frame c (frame_size (get_or c.bytes c.pos 0))

-- `u16::from_be_bytes`
abbrev pub from_be : ℕ → ℕ → ℕ
from_be high low = high * 256 + low

unfoldable pub take_packet : Cursor → ℕ → Cursor × Option (List ℕ)
take_packet c len =
    if ltb (length c.bytes) (c.pos + 2 + len)
    then (c, none)
    else (record c { pos = c.pos + 2 + len }, some (slice c.bytes (c.pos + 2) len))

unfoldable pub next_packet : Cursor → Cursor × Option (List ℕ)
unfolding take_packet
next_packet c =
    if ltb (length c.bytes) (c.pos + 2)
    then (c, none)
    else take_packet c (from_be (get_or c.bytes c.pos 0) (get_or c.bytes (c.pos + 1) 0))

-- A `for` loop over an iterator: the items, and where the iterator stands at the end.
unfoldable pub collect : (Cursor → Cursor × Option (List ℕ)) → ℕ → Cursor → Cursor × List (List ℕ)
collect next zero c = (c, [])
collect next (suc fuel) c =
    let r = next c in
    let rest = collect next fuel r.0 in
    elim (r.1) [ none ↦ (r.0, []) | some item ↦ (rest.0, item ∷ rest.1) ]

-- Each item takes a byte at least.
unfoldable pub collect_all : (Cursor → Cursor × Option (List ℕ)) → List ℕ → Cursor × List (List ℕ)
unfolding collect
collect_all next bytes = collect next (suc (length bytes)) (new bytes)

unfoldable pub frame_samples : ℕ → Option ℕ
frame_samples config =
    if config == 0 || config == 4 || config == 8
    then some 480
    else if config == 1 || config == 5 || config == 9
    then some 960
    else if config == 2 || config == 6 || config == 10
    then some 1920
    else if config == 3 || config == 7 || config == 11
    then some 2880
    else if config == 12 || config == 14
    then some 480
    else if config == 13 || config == 15
    then some 960
    else if config == 16 || config == 20 || config == 24 || config == 28
    then some 120
    else if config == 17 || config == 21 || config == 25 || config == 29
    then some 240
    else if config == 18 || config == 22 || config == 26 || config == 30
    then some 480
    else if config == 19 || config == 23 || config == 27 || config == 31
    then some 960
    else none

-- `pkt.get(1)? & 0x3F`
abbrev pub count_byte : Option ℕ → Option ℕ
count_byte none = none
count_byte (some b) = some (bit_and b 0x3f)

unfoldable pub frame_count : ℕ → List ℕ → Option ℕ
frame_count code packet =
    if code == 0
    then some 1
    else if code == 1 || code == 2
    then some 2
    else if code == 3
    then count_byte (get_elem? packet 1)
    else none

abbrev pub product : Option ℕ → Option ℕ → Option ℕ
product none n = none
product (some m) none = none
product (some m) (some n) = some (m * n)

-- The first `?` fails on an empty packet.
abbrev pub samples_of : Option ℕ → List ℕ → Option ℕ
unfolding frame_samples frame_count
samples_of none packet = none
samples_of (some toc) packet =
    product (frame_samples (toc / 8)) (frame_count (bit_and toc 0x03) packet)

unfoldable pub opus_packet_samples_48k : List ℕ → Option ℕ
unfolding samples_of
opus_packet_samples_48k packet = samples_of (get_elem? packet 0) packet
