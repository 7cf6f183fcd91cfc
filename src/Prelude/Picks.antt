-- ===== src/Prelude/Picks.antt =====
-- One element of a list, picked and replaced by another or removed, and sums over the elements.
use Prim.Native.Nat.{ℕ, suc, ◌+◌, ◌*◌, ◌≤◌}
use mathlib.Core.Path.{◌≡◌, refl}
use mathlib.Core.List.{List, [], ◌∷◌, ◌++◌}
use native.Mathlib.Omega.{arith}
use lewly_pgpyewj.Prelude.Tables.{length}

module _ {ℓ} {A : Type ℓ} where
  pub data Replaced (x y : A) : List A → List A → Type ℓ where
    here : {xs : List A} → Replaced x y (x ∷ xs) (y ∷ xs)
    there : {z : A} {xs ys : List A} → Replaced x y xs ys → Replaced x y (z ∷ xs) (z ∷ ys)

  pub data Removed (x : A) : List A → List A → Type ℓ where
    here : {xs : List A} → Removed x (x ∷ xs) xs
    there : {z : A} {xs ys : List A} → Removed x xs ys → Removed x (z ∷ xs) (z ∷ ys)

  abbrev pub total : (A → ℕ) → List A → ℕ
  total f [] = 0
  total f (x ∷ xs) = f x + total f xs

  pub total-Replaced :
      (f : A → ℕ) {x y : A} {xs ys : List A}
      → Replaced x y xs ys
      → total f ys + f x ≡ total f xs + f y
  total-Replaced f Replaced.here = omega arith
  total-Replaced f (Replaced.there r) = omega (arith, total-Replaced f r)

  pub total-Removed :
      (f : A → ℕ) {x : A} {xs ys : List A} → Removed x xs ys → total f xs ≡ f x + total f ys
  total-Removed f Removed.here = refl
  total-Removed f (Removed.there r) = omega (arith, total-Removed f r)

  pub total-append : (f : A → ℕ) (xs ys : List A) → total f (xs ++ ys) ≡ total f xs + total f ys
  total-append f [] ys = omega arith
  total-append f (x ∷ xs) ys = omega (arith, total-append f xs ys)

  pub length-Replaced : {x y : A} {xs ys : List A} → Replaced x y xs ys → length ys ≡ length xs
  length-Replaced Replaced.here = refl
  length-Replaced (Replaced.there r) = omega (arith, length-Replaced r)

  pub length-Removed : {x : A} {xs ys : List A} → Removed x xs ys → length xs ≡ suc (length ys)
  length-Removed Removed.here = refl
  length-Removed (Removed.there r) = omega (arith, length-Removed r)

  -- no more than `n` for each element
  pub total-le :
      (f : A → ℕ) (n : ℕ) → ((x : A) → f x ≤ n) → (xs : List A) → total f xs ≤ length xs * n
  total-le f n small [] = omega arith
  total-le f n small (x ∷ xs) = omega (arith, small x, total-le f n small xs)
