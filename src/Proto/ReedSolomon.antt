-- ===== src/Proto/ReedSolomon.antt =====
-- The crate `reed-solomon-erasure`, on which the builder and the assembler rest: its operations are
-- parameters, and its documented behaviour is a record of hypotheses.
use Prim.Native.String.{String}
use voicetastic_core.Prelude.{
  ℕ, ◌+◌, ◌≤◌, ◌<◌, ◌≡◌, ◌⊎◌, inr, Option, none, List, ◌++◌, length, replicate, All,
}
use voicetastic_core.Prelude.Bits.{IsByte}

-- An error is its text. `encode d p` and `reconstruct_data d p` are those of the coder `new(d, p)`.
pub record ReedSolomon : Type 0 where
  pub new_error : ℕ → ℕ → Option String
  pub encode : ℕ → ℕ → List (List ℕ) → String ⊎ List (List ℕ)
  pub reconstruct_data : ℕ → ℕ → List (Option (List ℕ)) → String ⊎ List (Option (List ℕ))

-- Shards of one length, of bytes.
abbrev pub IsShard : ℕ → List ℕ → Type 0
IsShard n s = (length s ≡ n) × All IsByte s

pub record IsReedSolomon (rs : ReedSolomon) : Type 0 where
  -- A coder exists for at least one shard of each kind and at most 256 together.
  pub new_ok : (d p : ℕ) → 0 < d → 0 < p → d + p ≤ 256 → rs.new_error d p ≡ none
  -- Encoding keeps the data shards and fills the parity shards.
  pub encode_ok :
      (d p n : ℕ) (ds : List (List ℕ))
      → 0 < d
      → 0 < p
      → d + p ≤ 256
      → 0 < n
      → length ds ≡ d
      → All (IsShard n) ds
      → (ps : List (List ℕ)) × (rs.encode d p (ds ++ replicate p (replicate n 0)) ≡ inr (ds ++ ps))
        × (length ps ≡ p)
        × All (IsShard n) ps
