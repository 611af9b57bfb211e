-- ===== src/Prelude/Updates.antt =====
-- How the row with a key changes under an UPDATE with any condition. It models no code of its own.
use Prim.Native.String.{String}
use mathlib.Core.Path.{◌≡◌, refl}
use mathlib.Core.List.{List, [], ◌∷◌}
use mathlib.Core.Bool.{Bool}
use native.Mathlib.Omega.{arith}
use loomterm.Prelude.Tests.{if◌then◌else◌}
use loomterm.Prelude.Queries.{update_where, find_key, HasUniqueKeys}
use loomterm.Prelude.Keys.{map_row}

module _ {ℓ} {A : Type ℓ} (key : A → String) where
  pub find_key-update_where :
      (j : String) (p : A → Bool) (f : A → A) (xs : List A)
      → ((x : A) → key (f x) ≡ key x)
      → find_key key j (update_where p f xs)
        ≡ map_row (λ x. if p x then f x else x) (find_key key j xs)
  unfolding find_key update_where
  find_key-update_where j p f [] h = refl
  find_key-update_where j p f (x ∷ xs) h = ground (arith, find_key-update_where j p f xs h, h x)

  pub HasUniqueKeys-update_where :
      (p : A → Bool) (f : A → A) (xs : List A)
      → ((x : A) → key (f x) ≡ key x)
      → HasUniqueKeys key xs
      → HasUniqueKeys key (update_where p f xs)
  unfolding update_where
  HasUniqueKeys-update_where p f [] h u = tt
  HasUniqueKeys-update_where p f (x ∷ xs) h u = ground (
    arith,
    HasUniqueKeys-update_where p f xs h u.1,
    h x,
    find_key-update_where (key x) p f xs h,
    find_key-update_where (key (f x)) p f xs h,
  )
