-- ===== src/Store/Retention/Age.antt =====
-- The age limit of `prune`: exact while the product of days and milliseconds is an `i64`, and wrong
-- beyond.
use loomterm.Prelude.{ℕ, ◌+◌, ◌*◌, ◌^◌, ◌≤◌, ◌<◌, ◌≡◌, true, ◌↔◌, some, arith, ltb}
use loomterm.Model.Execution.{is_terminal}
use loomterm.Store.Tables.{ExecutionRow}
use loomterm.Store.Retention.{lt_i64, cutoff, is_expired}

abbrev pub day_ms : ℕ
day_ms = 86400000

lt_i64-cutoff :
    (now days ended : ℕ)
    → now < 2 ^ 63
    → ended < 2 ^ 63
    → days * day_ms < 2 ^ 63
    → lt_i64 ended (cutoff now days) ≡ ltb (ended + days * day_ms) now
unfolding lt_i64 cutoff
lt_i64-cutoff now days ended n e d = ground arith

-- With times and the limit in the range of `i64`, an ended execution is expired exactly when it is
-- terminal and ended more than the given days before.
pub is_expired_exact :
    (now days ended : ℕ) (r : ExecutionRow)
    → now < 2 ^ 63
    → ended < 2 ^ 63
    → days * day_ms < 2 ^ 63
    → r.ended_at_ms ≡ some ended
    → (is_expired (cutoff now days) r ≡ true)
      ↔ ((is_terminal r.state ≡ true) × (ended + days * day_ms < now))
unfolding is_expired
is_expired_exact now days ended r n e d h = (
  λ x. ground (arith, lt_i64-cutoff now days ended n e d),
  λ x. ground (arith, lt_i64-cutoff now days ended n e d),
)

-- A retention so long that its milliseconds wrap to a negative `i64` puts the limit into the
-- future: every terminal execution that has ended counts as expired.
pub is_expired_overflow :
    (now days ended : ℕ) (r : ExecutionRow)
    → ended ≤ now
    → now + 2 ^ 63 < days * day_ms
    → days * day_ms < 2 ^ 64
    → r.ended_at_ms ≡ some ended
    → is_terminal r.state ≡ true
    → is_expired (cutoff now days) r ≡ true
unfolding is_expired lt_i64 cutoff
is_expired_overflow now days ended r e d m h t = ground arith
