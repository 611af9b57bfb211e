-- ===== src/Result/Run.antt =====
-- Actions on a state: `?` keeps what was written before an error, and a transaction drops it.
use loomterm.Prelude.{Option, none, some}
use loomterm.Result.{Error, Result, ok, err}

abbrev pub Action : Type 0 → Type 0 → Type 0
Action S A = S → Result A × S

-- What follows a step that returned `r` in the state `s`.
abbrev pub continue : {S A B : Type 0} → Result A → S → (A → Action S B) → Result B × S
continue (ok a) s f = f a s
continue (err e) s f = (err e, s)

-- `?`
infixl 10 ◌>>=◌ ◌>>◌
abbrev pub ◌>>=◌ : {S A B : Type 0} → Action S A → (A → Action S B) → Action S B
◌>>=◌ m f s = let (r, s') = m s in continue r s' f

abbrev pub ◌>>◌ : {S B : Type 0} → Action S (Unit {0}) → Action S B → Action S B
m >> k = m >>= λ _. k

abbrev pub pure : {S A : Type 0} → A → Action S A
pure a s = (ok a, s)

abbrev pub raise : {S A : Type 0} → Error → Action S A
raise e s = (err e, s)

abbrev pub lift : {S A : Type 0} → Result A → Action S A
lift r s = (r, s)

abbrev pub roll_back : {S A : Type 0} → S → Result A → S → Result A × S
roll_back before (ok a) after = (ok a, after)
roll_back before (err e) after = (err e, before)

-- An SQL transaction that is dropped, and so rolled back, on every error path.
abbrev pub transaction : {S A : Type 0} → Action S A → Action S A
transaction m s = let (r, s') = m s in roll_back s r s'

-- `.optional()?.ok_or_else(…)`
abbrev pub or_not_found : {S A : Type 0} → Error → Option A → Action S A
or_not_found e none = raise e
or_not_found e (some a) = pure a
