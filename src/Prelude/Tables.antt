-- ===== src/Prelude/Tables.antt =====
-- A table is the list of its rows in the order of insertion: what the SQL statements do to it.
use Prim.Native.Nat.{ℕ, zero, suc, ◌+◌}
use mathlib.Core.Path.{◌≡◌}
use mathlib.Core.Bool.{Bool, true, false}
use mathlib.Core.Option.{Option, none, some}
use mathlib.Core.List.{List, [], ◌∷◌}
use native.Mathlib.Omega.{arith}
use lewly_pgpyewj.Prelude.Tests.{if◌then◌else◌}

module _ {ℓ} {A : Type ℓ} where
  abbrev pub length : List A → ℕ
  length [] = 0
  length (x ∷ xs) = suc (length xs)

  abbrev pub take : ℕ → List A → List A
  take zero xs = []
  take (suc n) [] = []
  take (suc n) (x ∷ xs) = x ∷ take n xs

  abbrev pub drop : ℕ → List A → List A
  drop zero xs = xs
  drop (suc n) [] = []
  drop (suc n) (x ∷ xs) = drop n xs

  -- SELECT … WHERE
  abbrev pub select : (A → Bool) → List A → List A
  select p [] = []
  select p (x ∷ xs) = let rest = select p xs in if p x then x ∷ rest else rest

  -- the first row of a SELECT … WHERE, as pgx's QueryRow returns it
  abbrev pub first_where : (A → Bool) → List A → Option A
  first_where p [] = none
  first_where p (x ∷ xs) = if p x then some x else first_where p xs

  -- UPDATE … SET … WHERE
  abbrev pub update_where : (A → Bool) → (A → A) → List A → List A
  update_where p f [] = []
  update_where p f (x ∷ xs) = (if p x then f x else x) ∷ update_where p f xs

  -- DELETE … WHERE
  abbrev pub delete_where : (A → Bool) → List A → List A
  delete_where p [] = []
  delete_where p (x ∷ xs) = let rest = delete_where p xs in if p x then rest else x ∷ rest

  -- SELECT COUNT(*) … WHERE, and the number of rows that an UPDATE or a DELETE affects
  abbrev pub count_where : (A → Bool) → List A → ℕ
  count_where p [] = 0
  count_where p (x ∷ xs) = (if p x then 1 else 0) + count_where p xs

  abbrev pub any_where : (A → Bool) → List A → Bool
  any_where p [] = false
  any_where p (x ∷ xs) = if p x then true else any_where p xs

  abbrev pub insert_before : (A → A → Bool) → A → List A → List A
  insert_before before x [] = x ∷ []
  insert_before before x (y ∷ ys) = if before x y then x ∷ y ∷ ys else y ∷ insert_before before x ys

  -- ORDER BY: `before x y` says that `x` sorts strictly before `y`; equal keys keep their order
  abbrev pub order_by : (A → A → Bool) → List A → List A
  order_by before [] = []
  order_by before (x ∷ xs) =
      insert_before (λ a b. if before b a then false else true) x (order_by before xs)

  -- LIMIT n OFFSET m
  abbrev pub page : ℕ → ℕ → List A → List A
  page limit offset xs = take limit (drop offset xs)

  -- What a SELECT finds after an UPDATE that leaves its condition alone.
  pub first_where-update :
      (p q : A → Bool) (f : A → A)
      → ((x : A) → p (f x) ≡ p x)
      → (xs : List A) (row : A) → first_where p xs ≡ some row
      → first_where p (update_where q f xs) ≡ some (if q row then f row else row)
  first_where-update p q f same [] row found = cc
  first_where-update p q f same (x ∷ xs) row found =
      ground (arith, same x, first_where-update p q f same xs row)

  -- A row that is found meets the condition.
  pub first_where-true :
      (p : A → Bool) (xs : List A) (row : A) → first_where p xs ≡ some row → p row ≡ true
  first_where-true p [] row found = cc
  first_where-true p (x ∷ xs) row found = ground (arith, first_where-true p xs row)
