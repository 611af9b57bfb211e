-- ===== src/Result/Try.antt =====
-- `?` on a `Result`: the first error is the result of the whole.
use loomterm.Result.{Result, ok, err}

infixl 10 ◌>>=◌ ◌>>◌
abbrev pub ◌>>=◌ {ℓ κ} : {A : Type ℓ} {B : Type κ} → Result A → (A → Result B) → Result B
◌>>=◌ (err failure) next = err failure
◌>>=◌ (ok value) next = next value

abbrev pub ◌>>◌ {ℓ} : {B : Type ℓ} → Result (Unit {0}) → Result B → Result B
first >> second = first >>= λ unit. second
