-- ===== src/Prelude/Bits.antt =====
-- Bytes, and laws of the bit operations on bytes, each checked by evaluation of a table.
use Prim.Native.Nat.{ℕ, zero, suc, ◌^◌, ◌<◌, bit_or, bit_xor}
use mathlib.Core.Path.{◌≡◌, refl}
use mathlib.Core.Bool.{Bool, true, not, ◌&&◌, ◌||◌}
use native.Mathlib.Omega.{arith}
use voicetastic_core.Prelude.Tests.{ltb, ◌==◌, ==_iff}

-- A `u8`, and a `u32`.
abbrev pub IsByte : ℕ → Type 0
IsByte b = b < 256

abbrev pub IsU32 : ℕ → Type 0
IsU32 v = v < 2 ^ 32

-- A property of every number below a bound, as a test.
unfoldable pub all_below : ℕ → (ℕ → Bool) → Bool
all_below zero test = true
all_below (suc bound) test = test bound && all_below bound test

pub all_below_sound :
    (bound : ℕ) (test : ℕ → Bool) (x : ℕ) → all_below bound test ≡ true → x < bound → test x ≡ true
unfolding all_below
all_below_sound zero test x passes lt = absurd (omega arith)
all_below_sound (suc bound) test x passes lt = ground (arith, all_below_sound bound test x)

-- The same over two bytes.
all_bytes : (ℕ → ℕ → Bool) → Bool
unfolding all_below
all_bytes p = all_below 256 (λ a. all_below 256 (p a))

all_bytes_sound :
    (p : ℕ → ℕ → Bool) (a b : ℕ) → all_bytes p ≡ true → IsByte a → IsByte b → p a b ≡ true
unfolding all_bytes
all_bytes_sound p a b h ha hb =
    all_below_sound 256 (p a) b (all_below_sound 256 (λ x. all_below 256 (p x)) a h ha) hb

xor_test : ℕ → ℕ → Bool
xor_test a b = ltb (bit_xor a b) 256 && ((a == b) || not (bit_xor a b == 0))

xor_table : all_bytes xor_test ≡ true
unfolding all_bytes xor_test
xor_table = refl

-- Two bytes with no differing bit are equal.
pub xor-IsByte : (a b : ℕ) → IsByte a → IsByte b → IsByte (bit_xor a b) × (bit_xor a b ≡ 0 → a ≡ b)
unfolding xor_test
xor-IsByte a b ha hb =
    let t = all_bytes_sound xor_test a b xor_table ha hb in
    (ground (arith, t), λ z. ground (arith, t))

or_test : ℕ → ℕ → Bool
or_test a b = ltb (bit_or a b) 256 && (((a == 0) && (b == 0)) || not (bit_or a b == 0))

or_table : all_bytes or_test ≡ true
unfolding all_bytes or_test
or_table = refl

pub or-IsByte :
    (a b : ℕ) → IsByte a → IsByte b → IsByte (bit_or a b) × (bit_or a b ≡ 0 → (a ≡ 0) × (b ≡ 0))
unfolding or_test
or-IsByte a b ha hb =
    let t = all_bytes_sound or_test a b or_table ha hb in
    (ground (arith, t), λ z. ground (arith, t))

xor_self_table : all_below 256 (λ a. bit_xor a a == 0) ≡ true
unfolding all_below
xor_self_table = refl

pub xor_self : (a : ℕ) → IsByte a → bit_xor a a ≡ 0
xor_self a h = (==_iff _ 0).0 (all_below_sound 256 _ a xor_self_table h)
