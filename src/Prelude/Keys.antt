-- ===== src/Prelude/Keys.antt =====
-- How the row with a key changes with the table: under UPDATE, INSERT and DELETE.
use Prim.Native.String.{String}
use mathlib.Core.Path.{◌≡◌, refl, ◌∙◌}
use mathlib.Core.List.{List, [], ◌∷◌, ◌++◌}
use mathlib.Core.Bool.{Bool, not}
use mathlib.Core.Option.{Option, none, some}
use native.Mathlib.Omega.{arith}
use text.Mathlib.Text.{◌==◌}
use text.Mathlib.TextEquality.{eq_iff}
use loomterm.Prelude.Tests.{if◌then◌else◌, Bool-cases}
use loomterm.Prelude.Queries.{
  select, update_where, delete_where, has_key, find_key, HasUniqueKeys, insert_by, order_by,
}
use mathlib.Core.Logic.{inl, inr}
use Prim.Native.Nat.{ℕ, ◌+◌}
use loomterm.Prelude.Lists.{sum_by}

-- The row that stays of one that may be deleted.
abbrev pub discard {ℓ} : {A : Type ℓ} → (A → Bool) → Option A → Option A
discard q none = none
discard q (some x) = if q x then none else some x

-- The row with the key after an INSERT at the end.
abbrev pub or_else {ℓ} : {A : Type ℓ} → Option A → Option A → Option A
or_else none o = o
or_else (some x) o = some x

abbrev pub map_row {ℓ} : {A : Type ℓ} → (A → A) → Option A → Option A
map_row f none = none
map_row f (some x) = some (f x)

module _ {ℓ} {A : Type ℓ} (key : A → String) where
  pub find_key-update :
      (k j : String) (f : A → A) (xs : List A)
      → ((x : A) → key (f x) ≡ key x)
      → find_key key j (update_where (has_key key k) f xs)
        ≡ (if k == j then map_row f (find_key key j xs) else find_key key j xs)
  unfolding find_key update_where
  find_key-update k j f [] h = ground arith
  find_key-update k j f (x ∷ xs) h = ground (
    arith,
    find_key-update k j f xs h,
    h x,
    eq_iff (key x) k,
    eq_iff (key x) j,
    eq_iff (key (f x)) j,
    eq_iff k j,
  )

  pub find_key-append :
      (j : String) (xs : List A) (x : A)
      → find_key key j (xs ++ x ∷ [])
        ≡ or_else (find_key key j xs) (if key x == j then some x else none)
  unfolding find_key
  find_key-append j [] x = ground arith
  find_key-append j (y ∷ xs) x = ground (arith, find_key-append j xs x)

  -- What is found has the key.
  pub find_key-key : (j : String) (xs : List A) (x : A) → find_key key j xs ≡ some x → key x ≡ j
  unfolding find_key
  find_key-key j [] x h = ground arith
  find_key-key j (y ∷ xs) x h = ground (arith, find_key-key j xs x, eq_iff (key y) j)

  pub find_key-delete :
      (j : String) (q : A → Bool) (xs : List A)
      → HasUniqueKeys key xs
      → find_key key j (delete_where q xs) ≡ discard q (find_key key j xs)
  unfolding find_key delete_where
  find_key-delete j q [] u = refl
  find_key-delete j q (x ∷ xs) u = elim (Bool-cases (key x == j)) [
    | inl e ↦
        let found : find_key key j xs ≡ none = rw (← (eq_iff (key x) j).0 e) u.0 in
        ground (arith, find_key-delete j q xs u.1)
    | inr e ↦ ground (arith, find_key-delete j q xs u.1)
  ]

  pub HasUniqueKeys-delete :
      (q : A → Bool) (xs : List A) → HasUniqueKeys key xs → HasUniqueKeys key (delete_where q xs)
  unfolding delete_where
  HasUniqueKeys-delete q [] u = tt
  HasUniqueKeys-delete q (x ∷ xs) u =
      ground (arith, HasUniqueKeys-delete q xs u.1, find_key-delete (key x) q xs u.1)

  pub HasUniqueKeys-append :
      (xs : List A) (x : A)
      → HasUniqueKeys key xs
      → find_key key (key x) xs ≡ none
      → HasUniqueKeys key (xs ++ x ∷ [])
  unfolding find_key
  HasUniqueKeys-append [] x u h = ground arith
  HasUniqueKeys-append (y ∷ xs) x u h = ground (
    arith,
    HasUniqueKeys-append xs x u.1,
    find_key-append (key y) xs x,
    eq_iff (key y) (key x),
    eq_iff (key x) (key y),
  )

  pub HasUniqueKeys-update :
      (k : String) (f : A → A) (xs : List A)
      → ((x : A) → key (f x) ≡ key x)
      → HasUniqueKeys key xs
      → HasUniqueKeys key (update_where (has_key key k) f xs)
  unfolding update_where
  HasUniqueKeys-update k f [] h u = tt
  HasUniqueKeys-update k f (x ∷ xs) h u = ground (
    arith,
    HasUniqueKeys-update k f xs h u.1,
    h x,
    find_key-update k (key x) f xs h,
    find_key-update k (key (f x)) f xs h,
  )

module _ {ℓ} {A : Type ℓ} (key : A → String) where
  pub find_key-select :
      (j : String) (p : A → Bool) (xs : List A)
      → HasUniqueKeys key xs
      → find_key key j (select p xs) ≡ discard (λ x. not (p x)) (find_key key j xs)
  unfolding find_key select
  find_key-select j p [] u = refl
  find_key-select j p (x ∷ xs) u = elim (Bool-cases (key x == j)) [
    | inl e ↦
        let found : find_key key j xs ≡ none = rw (← (eq_iff (key x) j).0 e) u.0 in
        ground (arith, find_key-select j p xs u.1)
    | inr e ↦ ground (arith, find_key-select j p xs u.1)
  ]

  pub HasUniqueKeys-select :
      (p : A → Bool) (xs : List A) → HasUniqueKeys key xs → HasUniqueKeys key (select p xs)
  unfolding select
  HasUniqueKeys-select p [] u = tt
  HasUniqueKeys-select p (x ∷ xs) u =
      ground (arith, HasUniqueKeys-select p xs u.1, find_key-select (key x) p xs u.1)

  find_key-insert_by :
      (le : A → A → Bool) (j : String) (x : A) (xs : List A)
      → find_key key (key x) xs ≡ none
      → find_key key j (insert_by le x xs) ≡ find_key key j (x ∷ xs)
  unfolding find_key insert_by
  find_key-insert_by le j x [] h = refl
  find_key-insert_by le j x (y ∷ xs) h = ground (
    arith,
    find_key-insert_by le j x xs,
    eq_iff (key x) j,
    eq_iff (key y) j,
    eq_iff (key y) (key x),
  )

  HasUniqueKeys-insert_by :
      (le : A → A → Bool) (x : A) (xs : List A)
      → HasUniqueKeys key (x ∷ xs)
      → HasUniqueKeys key (insert_by le x xs)
  unfolding insert_by find_key
  HasUniqueKeys-insert_by le x [] u = u
  HasUniqueKeys-insert_by le x (y ∷ xs) u = ground (
    arith,
    HasUniqueKeys-insert_by le x xs,
    find_key-insert_by le (key y) x xs,
    eq_iff (key x) (key y),
    eq_iff (key y) (key x),
  )

  -- ORDER BY changes neither the keys nor what is found under one.
  pub order_by_keys :
      (le : A → A → Bool) (xs : List A)
      → HasUniqueKeys key xs
      → HasUniqueKeys key (order_by le xs)
        × ((j : String) → find_key key j (order_by le xs) ≡ find_key key j xs)
  unfolding order_by find_key
  order_by_keys le [] u = (tt, λ j. refl)
  order_by_keys le (x ∷ xs) u =
      let (unique, same) = order_by_keys le xs u.1 in
      let new : find_key key (key x) (order_by le xs) ≡ none = same (key x) ∙ u.0 in
      (
        HasUniqueKeys-insert_by le x (order_by le xs) (new, unique),
        λ j. find_key-insert_by le j x (order_by le xs) new ∙ ground (arith, same j),
      )

  delete_absent :
      (k : String) (xs : List A) → find_key key k xs ≡ none → delete_where (has_key key k) xs ≡ xs
  unfolding find_key delete_where
  delete_absent k [] h = refl
  delete_absent k (x ∷ xs) h = ground (arith, delete_absent k xs)

  -- What a column loses with the row of a key.
  pub sum_by-delete :
      (f : A → ℕ) (k : String) (xs : List A) (x : A)
      → HasUniqueKeys key xs
      → find_key key k xs ≡ some x
      → sum_by f (delete_where (has_key key k) xs) + f x ≡ sum_by f xs
  unfolding find_key delete_where
  sum_by-delete f k [] x u h = ground arith
  sum_by-delete f k (y ∷ xs) x u h = elim (Bool-cases (key y == k)) [
    | inl e ↦
        let gone : find_key key k xs ≡ none = rw (← (eq_iff (key y) k).0 e) u.0 in
        ground (arith, e, delete_absent k xs gone)
    | inr e ↦ ground (arith, e, sum_by-delete f k xs x u.1)
  ]
