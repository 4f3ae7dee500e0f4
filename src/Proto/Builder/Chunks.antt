-- ===== src/Proto/Builder/Chunks.antt =====
-- The cut of an audio buffer into chunks, and the padding that is added and trimmed again.
use voicetastic_core.Prelude.{
  ℕ, zero, suc, ◌+◌, ◌-◌, ◌*◌, ◌/◌, ◌%◌, ◌≤◌, ◌<◌, ◌≡◌, refl, ap, ◌∙◌, List, [], ◌∷◌, ◌++◌, map,
  arith, length, take, drop, replicate, All, take-append-drop, length-take, length-drop,
  length-append, length-replicate, take-append_length, take_all, All-append,
}
use voicetastic_core.Prelude.Bits.{IsByte}
use voicetastic_core.Proto.ReedSolomon.{IsShard}
use voicetastic_core.Proto.Builder.{div_ceil, chunks_loop, chunks, pad}
use mathlib.Core.List.{append-nil}
use native.Mathlib.Decide.{dec_le, dec_lt}
use native.Mathlib.Nat.{
  mul-add-div, mul-add-mod_self_left, mul-mod_right, mod-eq_of_lt, div-eq_of_lt,
  div-eq_of_eq-mul_right,
}

abbrev pub concat {ℓ} : {A : Type ℓ} → List (List A) → List A
concat [] = []
concat (x ∷ xs) = x ++ concat xs

-- All chunks but the last have length `n`; the last has length `r`.
abbrev pub Chunked : ℕ → ℕ → List (List ℕ) → Type 0
Chunked n r [] = ⊥
Chunked n r (c ∷ []) = length c ≡ r
Chunked n r (c ∷ d ∷ cs) = (length c ≡ n) × Chunked n r (d ∷ cs)

-- What the cut of `xs` into chunks of `n` bytes is.
pub record Cut (n : ℕ) (xs : List ℕ) (cs : List (List ℕ)) : Type 0 where
  pub full : ℕ
  pub last : ℕ
  pub sum : length xs ≡ n * full + last
  pub last_pos : 0 < last
  pub last_le : last ≤ n
  pub count : length cs ≡ suc full
  pub shape : Chunked n last cs
  pub whole : concat cs ≡ xs

Chunked-cons :
    (n r : ℕ) (c : List ℕ) (cs : List (List ℕ))
    → length c ≡ n
    → Chunked n r cs
    → Chunked n r (c ∷ cs)
Chunked-cons n r c [] h s = absurd s
Chunked-cons n r c (d ∷ cs) h s = (h, s)

drop_all : (n : ℕ) (xs : List ℕ) → length xs ≤ n → drop n xs ≡ []
drop_all zero [] h = refl
drop_all zero (x ∷ xs) h = absurd (omega arith)
drop_all (suc n) [] h = refl
drop_all (suc n) (x ∷ xs) h = drop_all n xs (omega arith)

chunks_loop_nil : (fuel n : ℕ) → chunks_loop fuel n [] ≡ []
unfolding chunks_loop
chunks_loop_nil zero n = refl
chunks_loop_nil (suc fuel) n = refl

-- One chunk in front of a cut of the rest.
Cut-cons :
    (n : ℕ) (xs : List ℕ) (cs : List (List ℕ))
    → n < length xs
    → Cut n (drop n xs) cs
    → Cut n xs (take n xs ∷ cs)
Cut-cons n xs cs h c = record {
  full = suc c.full;
  last = c.last;
  sum = grind (arith, c.sum, length-drop n xs);
  last_pos = c.last_pos;
  last_le = c.last_le;
  count = ap suc c.count;
  shape = Chunked-cons n c.last (take n xs) cs (omega (arith, length-take n xs)) c.shape;
  whole = ap (◌++◌ (take n xs)) c.whole ∙ take-append-drop n xs;
}

Cut_one : (n : ℕ) (xs : List ℕ) → 0 < length xs → length xs ≤ n → Cut n xs (xs ∷ [])
Cut_one n xs p h = record {
  full = 0;
  last = length xs;
  sum = omega arith;
  last_pos = p;
  last_le = h;
  count = refl;
  shape = refl;
  whole = append-nil xs;
}

chunks_loop-Cut :
    (fuel n : ℕ) (xs : List ℕ)
    → 0 < n
    → 0 < length xs
    → length xs ≤ fuel
    → Cut n xs (chunks_loop fuel n xs)
unfolding chunks_loop
chunks_loop-Cut zero n xs hn hp hf = absurd (omega arith)
chunks_loop-Cut (suc fuel) n [] hn hp hf = absurd (omega arith)
chunks_loop-Cut (suc fuel) n (x ∷ xs) hn hp hf = elim (dec_le (length (x ∷ xs)) n) [
  | yes h ↦
      rw (take_all n (x ∷ xs) h, drop_all n (x ∷ xs) h, chunks_loop_nil fuel n)
        (Cut_one n (x ∷ xs) hp h)
  | no h ↦ Cut-cons n (x ∷ xs) _ (omega arith) (
      chunks_loop-Cut fuel n (drop n (x ∷ xs)) hn (omega (arith, length-drop n (x ∷ xs)))
        (omega (arith, length-drop n (x ∷ xs))))
]

pub chunks-Cut : (n : ℕ) (xs : List ℕ) → 0 < n → 0 < length xs → Cut n xs (chunks n xs)
unfolding chunks
chunks-Cut n xs hn hp = chunks_loop-Cut (length xs) n xs hn hp (omega arith)

mod-eq_zero_of_dvd_mul : (n k : ℕ) → (n * k) % n ≡ 0
mod-eq_zero_of_dvd_mul n k = mul-mod_right n k

-- The number of chunks is the quotient rounded up.
pub div_ceil_cut : (n k r a : ℕ) → a ≡ n * k + r → 0 < r → r ≤ n → div_ceil a n ≡ suc k
div_ceil_cut n k r a e p h = elim (dec_lt r n) [
  | yes l ↦
      let m : a % n ≡ r = rw e (mul-add-mod_self_left n k r ∙ mod-eq_of_lt l) in
      let q : a / n ≡ k = rw e (mul-add-div (omega arith) k r ∙ omega (arith, div-eq_of_lt l)) in
      ground (arith, m, q)
  | no l ↦
      let w : a ≡ n * suc k = grind arith in
      let m : a % n ≡ 0 =
        omega (arith, ap (λ (t : ℕ). t % n) w, mod-eq_zero_of_dvd_mul n (suc k)) in
      let q : a / n ≡ suc k = div-eq_of_eq-mul_right (omega arith) w in ground (arith, m, q)
]

pub pad_full : (n : ℕ) (c : List ℕ) → length c ≡ n → pad n c ≡ c
unfolding pad
pad_full n c h = rw h (let z : n - n ≡ 0 = omega arith in rw z (append-nil c))

pub take-pad : (n : ℕ) (c : List ℕ) → take (length c) (pad n c) ≡ c
unfolding pad
take-pad n c = take-append_length c (replicate (n - length c) 0)

pub length-pad : (n : ℕ) (c : List ℕ) → length c ≤ n → length (pad n c) ≡ n
unfolding pad
length-pad n c h =
    omega
      (arith, length-append c (replicate (n - length c) 0), length-replicate (n - length c) (zero))

pub zeros_bytes : (k : ℕ) → All IsByte (replicate k (zero))
zeros_bytes zero = tt
zeros_bytes (suc k) = (omega arith, zeros_bytes k)

All-append_iff : (xs ys : List ℕ) → All IsByte (xs ++ ys) → All IsByte xs × All IsByte ys
All-append_iff [] ys h = (tt, h)
All-append_iff (x ∷ xs) ys (h, t) = let (a, b) = All-append_iff xs ys t in ((h, a), b)

pad-IsShard : (n : ℕ) (c : List ℕ) → length c ≤ n → All IsByte c → IsShard n (pad n c)
pad-IsShard n c h b =
    (length-pad n c h, unfold pad in All-append IsByte c _ b (zeros_bytes (n - length c)))

-- The padded chunks of bytes are shards of length `n`.
pub pad_shards :
    (n r : ℕ) (cs : List (List ℕ))
    → Chunked n r cs
    → r ≤ n
    → All IsByte (concat cs)
    → All (IsShard n) (map (pad n) cs)
pad_shards n r [] h l b = absurd h
pad_shards n r (c ∷ []) h l b = (pad-IsShard n c (omega arith) (All-append_iff c [] b).0, tt)
pad_shards n r (c ∷ d ∷ cs) (h, hs) l b =
    let (x, y) = All-append_iff c (concat (d ∷ cs)) b in
    (pad-IsShard n c (omega arith) x, pad_shards n r (d ∷ cs) hs l y)

pub All-length : (n : ℕ) (ps : List (List ℕ)) → All (IsShard n) ps → All (λ p. length p ≡ n) ps
All-length n [] h = tt
All-length n (p ∷ ps) ((h, _), hs) = (h, All-length n ps hs)
