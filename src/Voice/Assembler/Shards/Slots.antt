-- ===== src/Voice/Assembler/Shards/Slots.antt =====
-- crates/voicetastic-core/src/voice/assembler/state.rs: how many slots of a list are filled.
use voicetastic_core.Prelude.{
  ℕ, zero, suc, ◌+◌, ◌≤◌, ◌<◌, ◌≡◌, refl, Option, none, some, List, [], ◌∷◌, ◌++◌, arith, ap,
  length, get_or, set, replicate,
}
use voicetastic_core.Voice.Assembler.State.{Slot, bump, pull_back}

unfoldable pub filled : List Slot → ℕ
filled [] = 0
filled (none ∷ slots) = filled slots
filled (some p ∷ slots) = 1 + filled slots

pub filled-le-length : (xs : List Slot) → filled xs ≤ length xs
unfolding filled
filled-le-length [] = omega arith
filled-le-length (none ∷ xs) = omega (arith, filled-le-length xs)
filled-le-length (some p ∷ xs) = omega (arith, filled-le-length xs)

pub filled-set-some :
    (xs : List Slot) (i : ℕ) (p : List ℕ)
    → get_or xs i none ≡ none
    → i < length xs
    → filled (set xs i (some p)) ≡ filled xs + 1
unfolding filled
filled-set-some [] i p e h = absurd (omega arith)
filled-set-some (none ∷ xs) zero p e h = omega arith
filled-set-some (some q ∷ xs) zero p e h = absurd (ground (arith, e))
filled-set-some (none ∷ xs) (suc i) p e h = filled-set-some xs i p e (omega arith)
filled-set-some (some q ∷ xs) (suc i) p e h = omega (arith, filled-set-some xs i p e (omega arith))

pub filled-set-none :
    (xs : List Slot) (i : ℕ) (p : List ℕ)
    → get_or xs i none ≡ some p
    → filled (set xs i none) + 1 ≡ filled xs
unfolding filled
filled-set-none [] i p e = absurd (ground (arith, e))
filled-set-none (none ∷ xs) zero p e = absurd (ground (arith, e))
filled-set-none (some q ∷ xs) zero p e = omega arith
filled-set-none (none ∷ xs) (suc i) p e = filled-set-none xs i p e
filled-set-none (some q ∷ xs) (suc i) p e = omega (arith, filled-set-none xs i p e)

pub get_or-set-none :
    (xs : List Slot) (i j : ℕ) → get_or xs j none ≡ none → get_or (set xs i none) j none ≡ none
get_or-set-none [] i j n = refl
get_or-set-none (x ∷ xs) zero zero n = refl
get_or-set-none (x ∷ xs) zero (suc j) n = n
get_or-set-none (x ∷ xs) (suc i) zero n = n
get_or-set-none (x ∷ xs) (suc i) (suc j) n = get_or-set-none xs i j n

pub filled-replicate : (n : ℕ) → filled (replicate n none) ≡ 0
unfolding filled
filled-replicate zero = refl
filled-replicate (suc n) = filled-replicate n

pub filled-append : (xs ys : List Slot) → filled (xs ++ ys) ≡ filled xs + filled ys
unfolding filled
filled-append [] ys = omega arith
filled-append (none ∷ xs) ys = filled-append xs ys
filled-append (some p ∷ xs) ys = omega (arith, filled-append xs ys)

-- Recovered shards fill slots, and the counter follows while it fits a byte.
pub pull_back-filled :
    (total : ℕ) (last : Option ℕ) (idx : ℕ) (xs ys : List Slot) (received recovered : ℕ)
    → received + length xs ≤ 255 + filled xs
    → (length (pull_back total last idx xs ys received recovered).0 ≡ length xs)
      × ((pull_back total last idx xs ys received recovered).1 + filled xs
          ≡ received + filled (pull_back total last idx xs ys received recovered).0)
unfolding pull_back filled
pull_back-filled total last idx [] ys received recovered h = (refl, omega arith)
pull_back-filled total last idx (x ∷ xs) [] received recovered h = (refl, refl)
pull_back-filled total last idx (none ∷ xs) (some p ∷ ys) received recovered h =
    let r =
      pull_back-filled total last (idx + 1) xs ys (bump received) (bump recovered)
        (omega (arith, h)) in
    (ap suc r.0, omega (arith, r.1, h, filled-le-length xs))
pull_back-filled total last idx (none ∷ xs) (none ∷ ys) received recovered h =
    let r = pull_back-filled total last (idx + 1) xs ys received recovered (omega arith) in
    (ap suc r.0, r.1)
pull_back-filled total last idx (some q ∷ xs) (y ∷ ys) received recovered h =
    let r = pull_back-filled total last (idx + 1) xs ys received recovered (omega arith) in
    (ap suc r.0, omega (arith, r.1))
