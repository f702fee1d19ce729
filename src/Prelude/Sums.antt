-- ===== src/Prelude/Sums.antt =====
-- Sums over a list, and lists that differ in one element.
use Prim.Native.Nat.{ℕ, ◌+◌, ◌≤◌}
use mathlib.Core.List.{List, [], ◌∷◌}
use mathlib.Core.Path.{◌≡◌}
use native.Mathlib.Omega.{arith}

module _ {ℓ} {A : Type ℓ} where
  abbrev pub sum_by : (A → ℕ) → List A → ℕ
  sum_by f [] = 0
  sum_by f (x ∷ xs) = f x + sum_by f xs

  -- A list with one element replaced, or taken out.
  pub data Replaced (x y : A) : List A → List A → Type ℓ where
    replaced_here : {xs : List A} → Replaced x y (x ∷ xs) (y ∷ xs)
    replaced_later : {z : A} {xs ys : List A} → Replaced x y xs ys → Replaced x y (z ∷ xs) (z ∷ ys)

  pub data Removed (x : A) : List A → List A → Type ℓ where
    removed_here : {xs : List A} → Removed x (x ∷ xs) xs
    removed_later : {z : A} {xs ys : List A} → Removed x xs ys → Removed x (z ∷ xs) (z ∷ ys)

  pub Replaced-sum :
      {x y : A} {xs ys : List A} (f : A → ℕ)
      → Replaced x y xs ys
      → (sum_by f ys + f x ≡ sum_by f xs + f y) × (f x ≤ sum_by f xs)
  Replaced-sum f replaced_here = (omega arith, omega arith)
  Replaced-sum f (replaced_later r) =
      let (same, within) = Replaced-sum f r in (omega arith, omega arith)

  pub Removed-sum :
      {x : A} {xs ys : List A} (f : A → ℕ) → Removed x xs ys → sum_by f ys + f x ≡ sum_by f xs
  Removed-sum f removed_here = omega arith
  Removed-sum f (removed_later r) = let same = Removed-sum f r in omega arith
