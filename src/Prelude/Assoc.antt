-- ===== src/Prelude/Assoc.antt =====
-- A map as a list of its entries, in the order of iteration.
pub mod Laws
use Prim.Native.Nat.{ℕ, zero, suc, ◌+◌, ◌≤◌}
use mathlib.Core.Path.{◌≡◌, refl, ◌∙◌, ap}
use mathlib.Core.Logic.{◌≢◌}
use mathlib.Core.Bool.{Bool, true, false}
use mathlib.Core.Option.{Option, none, some}
use mathlib.Core.List.{List, [], ◌∷◌}
use native.Mathlib.Omega.{arith}
use voicetastic_core.Prelude.Tests.{if◌then◌else◌, Bool-cases}
use voicetastic_core.Prelude.Lists.{length}

module _ {ℓ} {K V : Type ℓ} (same : K → K → Bool) where
  unfoldable pub lookup : K → List (K × V) → Option V
  lookup k [] = none
  lookup k ((j, v) ∷ t) = let rest = lookup k t in if same k j then some v else rest

  unfoldable pub remove : K → List (K × V) → List (K × V)
  remove k [] = []
  remove k ((j, v) ∷ t) = let rest = remove k t in if same k j then t else (j, v) ∷ rest

  -- A write to an entry that is there.
  unfoldable pub update : K → V → List (K × V) → List (K × V)
  update k w [] = []
  update k w ((j, v) ∷ t) =
      let rest = update k w t in if same k j then (j, w) ∷ t else (j, v) ∷ rest
