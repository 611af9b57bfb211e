-- ===== src/Prelude/Queries.antt =====
-- The forms of SQL statement that the store uses, on a table kept as the list of its rows in the
-- order of insertion: SELECT and DELETE by a test, UPDATE, and ORDER BY.
use Prim.Native.Nat.{◌+◌}
use mathlib.Core.Path.{◌≡◌, refl}
use mathlib.Core.List.{List, [], ◌∷◌, ◌++◌}
use mathlib.Core.Bool.{Bool, true, ◌&&◌}
use mathlib.Core.Logic.{inl, inr}
use mathlib.Core.Option.{Option, none, some}
use native.Mathlib.Omega.{arith}
use Prim.Native.String.{String}
use text.Mathlib.Text.{◌==◌}
use loomterm.Prelude.Tests.{if◌then◌else◌, Bool-cases}
use loomterm.Prelude.Lists.{All, length}

module _ {ℓ} {A : Type ℓ} where
  -- SELECT … WHERE: the rows that pass the test.
  unfoldable pub select : (A → Bool) → List A → List A
  select p [] = []
  select p (x ∷ xs) = if p x then x ∷ select p xs else select p xs

  -- The first row of such a query, as `query_row(…).optional()` returns it.
  unfoldable pub select_first : (A → Bool) → List A → Option A
  select_first p [] = none
  select_first p (x ∷ xs) = if p x then some x else select_first p xs

  -- UPDATE … SET f WHERE p
  unfoldable pub update_where : (A → Bool) → (A → A) → List A → List A
  update_where p f [] = []
  update_where p f (x ∷ xs) = (if p x then f x else x) ∷ update_where p f xs

  -- DELETE … WHERE p
  unfoldable pub delete_where : (A → Bool) → List A → List A
  delete_where p [] = []
  delete_where p (x ∷ xs) = if p x then delete_where p xs else x ∷ delete_where p xs

  unfoldable pub insert_by : (A → A → Bool) → A → List A → List A
  insert_by le a [] = a ∷ []
  insert_by le a (x ∷ xs) = if le a x then a ∷ x ∷ xs else x ∷ insert_by le a xs

  -- ORDER BY; rows that tie keep the order of the table.
  unfoldable pub order_by : (A → A → Bool) → List A → List A
  unfolding insert_by
  order_by le [] = []
  order_by le (x ∷ xs) = insert_by le x (order_by le xs)

module _ {ℓ} {A : Type ℓ} where
  pub select-append :
      (p : A → Bool) (xs ys : List A) → select p (xs ++ ys) ≡ select p xs ++ select p ys
  unfolding select
  select-append p [] ys = refl
  select-append p (x ∷ xs) ys = ground (arith, select-append p xs ys)

  pub select_one : (p : A → Bool) (x : A) → select p (x ∷ []) ≡ (if p x then x ∷ [] else [])
  unfolding select
  select_one p x = refl

  -- The length of the deleted rows and of those that stay.
  pub length-delete_where :
      (p : A → Bool) (xs : List A) → length (delete_where p xs) + length (select p xs) ≡ length xs
  unfolding delete_where select
  length-delete_where p [] = omega arith
  length-delete_where p (x ∷ xs) = ground (arith, length-delete_where p xs)

-- Rows with a key.
module _ {ℓ} {A : Type ℓ} (key : A → String) where
  -- WHERE id = ?1
  abbrev pub has_key : String → A → Bool
  has_key k x = key x == k

  -- The row with the key, `SELECT … WHERE id = ?1`.
  unfoldable pub find_key : String → List A → Option A
  find_key k [] = none
  find_key k (x ∷ xs) = if key x == k then some x else find_key k xs

  -- Every key stands in one row, as for a PRIMARY KEY.
  abbrev pub HasUniqueKeys : List A → Type ℓ
  HasUniqueKeys [] = Unit
  HasUniqueKeys (x ∷ xs) = (find_key (key x) xs ≡ none) × HasUniqueKeys xs

module _ {ℓ} {A : Type ℓ} where
  -- One query with two tests is a query of a query.
  pub select-select :
      (p q : A → Bool) (xs : List A) → select (λ x. p x && q x) xs ≡ select q (select p xs)
  unfolding select
  select-select p q [] = refl
  select-select p q (x ∷ xs) = ground (arith, select-select p q xs)

  pub All-select {κ} :
      (P : A → Type κ) (p : A → Bool) (xs : List A) → All P xs → All P (select p xs)
  unfolding select
  All-select P p [] h = tt
  All-select P p (x ∷ xs) h = elim (Bool-cases (p x)) [
    | inl e ↦ rw e (h.0, All-select P p xs h.1)
    | inr e ↦ rw e (All-select P p xs h.1)
  ]

  -- A row that goes before the head of a sorted table is put in front.
  pub order_by_head :
      (le : A → A → Bool) (x : A) (xs : List A)
      → order_by le xs ≡ xs
      → ((y : A) → (ys : List A) → xs ≡ y ∷ ys → le x y ≡ true)
      → order_by le (x ∷ xs) ≡ x ∷ xs
  unfolding order_by
  order_by_head le x [] s h = refl
  order_by_head le x (y ∷ ys) s h = rw (s, h y ys refl)
