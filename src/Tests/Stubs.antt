-- ===== src/Tests/Stubs.antt =====
-- Concrete functions in place of the external crates, with the laws that the theorems ask for.
use Prim.Native.String.{String}
use voicetastic_core.Prelude.{
  ℕ, zero, suc, ◌+◌, ◌%◌, ◌≤◌, ◌<◌, ◌≡◌, refl, ap, ◌⊎◌, inr, none, List, [], ◌∷◌, ◌++◌, map, arith,
  length, get_or, take, replicate, All, length-take, length-append, length-replicate,
  take-append_length,
}
use voicetastic_core.Prelude.Bits.{IsByte}
use voicetastic_core.Proto.Mac.{Sha256}
use voicetastic_core.Proto.ReedSolomon.{ReedSolomon, IsReedSolomon, IsShard}

unfoldable pub toy_digest : List ℕ → List ℕ
toy_digest m = take 32 (map (λ b. b % 256) m ++ replicate 32 0)

take_bytes : (n : ℕ) (xs : List ℕ) → All IsByte xs → All IsByte (take n xs)
take_bytes zero xs h = tt
take_bytes (suc n) [] h = tt
take_bytes (suc n) (x ∷ xs) h = (h.0, take_bytes n xs h.1)

padded_bytes : (m : List ℕ) → All IsByte (map (λ b. b % 256) m ++ replicate 32 0)
padded_bytes [] = omega arith
padded_bytes (x ∷ m) = (omega arith, padded_bytes m)

pub length-toy_digest : (m : List ℕ) → length (toy_digest m) ≡ 32
unfolding toy_digest
length-toy_digest m = omega (
  arith,
  length-take 32 (map (λ b. b % 256) m ++ replicate 32 0),
  length-append (map (λ b. b % 256) m) (replicate 32 0),
)

pub toy_digest_bytes : (m : List ℕ) → All IsByte (toy_digest m)
unfolding toy_digest
toy_digest_bytes m = take_bytes 32 _ (padded_bytes m)

-- The message itself, padded, in place of its digest.
abbrev pub toy_sha : Sha256
toy_sha = record {
  digest = toy_digest;
  length-digest = length-toy_digest;
  digest_bytes = toy_digest_bytes;
}

-- Each parity shard is a copy of the first data shard.
unfoldable pub toy_encode : ℕ → ℕ → List (List ℕ) → String ⊎ List (List ℕ)
toy_encode d p shards = inr (take d shards ++ replicate p (get_or shards 0 []))

abbrev pub toy_rs : ReedSolomon
toy_rs = record {
  new_error = λ d p. none;
  encode = toy_encode;
  reconstruct_data = λ d p shards. inr shards;
}

copies : (n p : ℕ) (s : List ℕ) → IsShard n s → All (IsShard n) (replicate p s)
copies n zero s h = tt
copies n (suc p) s h = (h, copies n p s h)

toy_encode_ok :
    (d p n : ℕ) (ds : List (List ℕ))
    → 0 < d
    → 0 < p
    → d + p ≤ 256
    → 0 < n
    → length ds ≡ d
    → All (IsShard n) ds
    → (ps : List (List ℕ)) × (toy_encode d p (ds ++ replicate p (replicate n 0)) ≡ inr (ds ++ ps))
      × (length ps ≡ p)
      × All (IsShard n) ps
unfolding toy_encode
toy_encode_ok d p n [] hd hp hs hn hl h = absurd (omega arith)
toy_encode_ok d p n (s ∷ ds) hd hp hs hn hl h = (
  replicate p s,
  rw (← hl)
      (ap inr (ap (λ (x : List (List ℕ)). x ++ replicate p s) (take-append_length (s ∷ ds) _))),
  length-replicate p s,
  copies n p s h.0,
)

pub toy_rs-IsReedSolomon : IsReedSolomon toy_rs
toy_rs-IsReedSolomon = record { new_ok = λ d p a b c. refl; encode_ok = toy_encode_ok }
