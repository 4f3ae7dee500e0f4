-- ===== src/Prelude/Assoc/Laws.antt =====
-- Laws of the maps: what a write does to each key, and that no key stands twice.
use Prim.Native.Nat.{◌+◌, ◌≤◌}
use mathlib.Core.Path.{◌≡◌, refl}
use mathlib.Core.Bool.{Bool, true, false}
use mathlib.Core.Option.{none, some}
use mathlib.Core.List.{List, [], ◌∷◌}
use native.Mathlib.Omega.{arith}
use voicetastic_core.Prelude.Tests.{◌==◌, ==_iff}
use voicetastic_core.Prelude.Lists.{length}
use voicetastic_core.Prelude.Assoc.{lookup, remove, update}

-- A Boolean test that decides equality.
pub record IsTest {ℓ} {K : Type ℓ} (same : K → K → Bool) : Type ℓ where
  pub sound : (j k : K) → same j k ≡ true → j ≡ k
  pub self : (k : K) → same k k ≡ true

pub number-IsTest : IsTest ◌==◌
number-IsTest = record { sound = λ a b. (==_iff a b).0; self = λ a. (==_iff a a).1 refl }

module _ {ℓ} {K V : Type ℓ} (same : K → K → Bool) where
  abbrev pub Distinct : List (K × V) → Type ℓ
  Distinct [] = Unit {ℓ}
  Distinct ((k, v) ∷ t) = (lookup same k t ≡ none) × Distinct t

  pub length-update : (k : K) (w : V) (t : List (K × V)) → length (update same k w t) ≡ length t
  unfolding update
  length-update k w [] = refl
  length-update k w ((j, v) ∷ t) = ground (arith, length-update k w t)

  pub length-remove : (k : K) (t : List (K × V)) → length (remove same k t) ≤ length t
  unfolding remove
  length-remove k [] = omega arith
  length-remove k ((j, v) ∷ t) = ground (arith, length-remove k t)

  pub length-remove-some :
      (k : K) (v : V) (t : List (K × V))
      → lookup same k t ≡ some v
      → length (remove same k t) + 1 ≡ length t
  unfolding remove lookup
  length-remove-some k w [] e = ground arith
  length-remove-some k w ((j, v) ∷ t) e = ground (arith, length-remove-some k w t)

module _ {ℓ} {K V : Type ℓ} (same : K → K → Bool) (test : IsTest same) where
  pub lookup-cons_self : (k : K) (v : V) (t : List (K × V)) → lookup same k ((k, v) ∷ t) ≡ some v
  unfolding lookup
  lookup-cons_self k v t = ground (arith, test.self k)

  pub lookup-cons_other :
      (j k : K) (v : V) (t : List (K × V))
      → same j k ≡ false
      → lookup same j ((k, v) ∷ t) ≡ lookup same j t
  unfolding lookup
  lookup-cons_other j k v t n = ground (arith, n)

  pub lookup-update_self :
      (k : K) (v w : V) (t : List (K × V))
      → lookup same k t ≡ some v
      → lookup same k (update same k w t) ≡ some w
  unfolding lookup update
  lookup-update_self k v w [] e = ground arith
  lookup-update_self k v w ((j, x) ∷ t) e = ground (arith, lookup-update_self k v w t)

  pub lookup-update_other :
      (j k : K) (w : V) (t : List (K × V))
      → same j k ≡ false
      → lookup same j (update same k w t) ≡ lookup same j t
  unfolding lookup update
  lookup-update_other j k w [] n = refl
  lookup-update_other j k w ((i, x) ∷ t) n =
      ground (arith, lookup-update_other j k w t, test.sound k i, test.self)

  pub lookup-remove_other :
      (j k : K) (t : List (K × V))
      → same j k ≡ false
      → lookup same j (remove same k t) ≡ lookup same j t
  unfolding lookup remove
  lookup-remove_other j k [] n = refl
  lookup-remove_other j k ((i, x) ∷ t) n =
      ground (arith, lookup-remove_other j k t, test.sound k i, test.self)

  pub lookup-remove-none :
      (j k : K) (t : List (K × V)) → lookup same j t ≡ none → lookup same j (remove same k t) ≡ none
  unfolding lookup remove
  lookup-remove-none j k [] n = refl
  lookup-remove-none j k ((i, x) ∷ t) n = ground (arith, lookup-remove-none j k t)

  pub lookup-update-none :
      (j k : K) (w : V) (t : List (K × V))
      → lookup same j t ≡ none
      → lookup same j (update same k w t) ≡ none
  unfolding lookup update
  lookup-update-none j k w [] n = refl
  lookup-update-none j k w ((i, x) ∷ t) n = ground (arith, lookup-update-none j k w t)

  pub lookup-remove_self :
      (k : K) (t : List (K × V)) → Distinct same t → lookup same k (remove same k t) ≡ none
  unfolding lookup remove
  lookup-remove_self k [] d = refl
  lookup-remove_self k ((j, x) ∷ t) (n, d) =
      ground (arith, lookup-remove_self k t d, test.sound k j, n)

  pub Distinct-remove :
      (k : K) (t : List (K × V)) → Distinct same t → Distinct same (remove same k t)
  unfolding remove
  Distinct-remove k [] d = tt
  Distinct-remove k ((j, x) ∷ t) (n, d) =
      ground (arith, Distinct-remove k t d, lookup-remove-none j k t n, d)

  pub Distinct-update :
      (k : K) (w : V) (t : List (K × V)) → Distinct same t → Distinct same (update same k w t)
  unfolding update
  Distinct-update k w [] d = tt
  Distinct-update k w ((j, x) ∷ t) (n, d) =
      ground (arith, Distinct-update k w t d, lookup-update-none j k w t n, d, n)
