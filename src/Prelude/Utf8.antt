-- ===== src/Prelude/Utf8.antt =====
-- What `String::from_utf8` accepts.
use Prim.Native.Nat.{ℕ, zero, suc}
use mathlib.Core.Bool.{Bool, true, false, ◌&&◌}
use mathlib.Core.List.{List, [], ◌∷◌}
use voicetastic_core.Prelude.Tests.{leb, ltb, ◌==◌, if◌then◌else◌}

-- The bytes that a character still wants: how many, and the range of the next; `bad` is no text.
pub data Wants : Type 0 where
  more : ℕ → ℕ → ℕ → Wants
  bad : Wants

-- After a first byte.
unfoldable pub first_byte : ℕ → Wants
first_byte b =
    if ltb b 0x80
    then more 0 0 0
    else if ltb b 0xc2
    then bad
    else if ltb b 0xe0
    then more 1 0x80 0xbf
    else if b == 0xe0
    then more 2 0xa0 0xbf
    else if b == 0xed
    then more 2 0x80 0x9f
    else if ltb b 0xf0
    then more 2 0x80 0xbf
    else if b == 0xf0
    then more 3 0x90 0xbf
    else if ltb b 0xf4
    then more 3 0x80 0xbf
    else if b == 0xf4
    then more 3 0x80 0x8f
    else bad

unfoldable pub next_byte : Wants → ℕ → Wants
unfolding first_byte
next_byte (more zero low high) b = first_byte b
next_byte (more (suc n) low high) b = if leb low b && leb b high then more n 0x80 0xbf else bad
next_byte bad b = bad

unfoldable pub utf8_from : Wants → List ℕ → Bool
unfolding next_byte
utf8_from (more zero low high) [] = true
utf8_from (more (suc n) low high) [] = false
utf8_from bad [] = false
utf8_from wants (b ∷ bytes) = utf8_from (next_byte wants b) bytes

unfoldable pub is_utf8 : List ℕ → Bool
unfolding utf8_from
is_utf8 bytes = utf8_from (more 0 0 0) bytes
