-- ===== src/Lease/Durations.antt =====
-- `duration_to_millis` of src/db.rs, and `checked_add` on `i64`.
use zincir.Prelude.{
  ℕ, ◌+◌, ◌*◌, ◌/◌, ◌%◌, ◌^◌, ◌≤◌, ◌<◌, ◌↔◌, ◌≡◌, Option, arith, none, some, ltb, ◌==◌,
  if◌then◌else◌,
}
use zincir.Types.{Result, ok, err, invalid_state, delay_too_large}

-- `std::time::Duration`: whole seconds and the nanoseconds below a second.
pub record Duration : Type 0 where
  pub secs : ℕ
  pub nanos : ℕ

-- `Duration::as_millis`, a `u128`.
abbrev pub as_millis : Duration → ℕ
as_millis d = d.secs * 1000 + d.nanos / 1000000

abbrev pub as_nanos : Duration → ℕ
as_nanos d = d.secs * 1000000000 + d.nanos

-- `i64::checked_add` on two numbers that are not negative.
abbrev pub checked_add : ℕ → ℕ → Option ℕ
checked_add a b = if ltb (a + b) (2 ^ 63) then some (a + b) else none

-- `checked_add(1)` on a `u128`.
abbrev next_u128 : ℕ → Result ℕ
next_u128 n = if ltb (n + 1) (2 ^ 128) then ok (n + 1) else err (invalid_state delay_too_large)

-- `i64::try_from`.
abbrev to_i64 : Result ℕ → Result ℕ
to_i64 (ok n) = if ltb n (2 ^ 63) then ok n else err (invalid_state delay_too_large)
to_i64 (err e) = err e

unfoldable pub duration_to_millis : Duration → Result ℕ
duration_to_millis d =
    to_i64 (if d.nanos % 1000000 == 0 then ok (as_millis d) else next_u128 (as_millis d))

duration_to_millis-ceiling :
    (d : Duration) (ms : ℕ)
    → duration_to_millis d ≡ ok ms
    → (as_nanos d ≤ ms * 1000000) × (ms * 1000000 < as_nanos d + 1000000) × (ms < 2 ^ 63)
unfolding duration_to_millis
duration_to_millis-ceiling d ms h = (ground arith, ground arith, ground arith)

duration_to_millis_total :
    (d : Duration) (ms : ℕ)
    → as_nanos d ≤ ms * 1000000
    → ms * 1000000 < as_nanos d + 1000000
    → ms < 2 ^ 63
    → duration_to_millis d ≡ ok ms
unfolding duration_to_millis
duration_to_millis_total d ms lo hi fits = ground arith

-- A duration converts to a number of milliseconds exactly when that is the least number that is not
-- below the duration, and it fits an `i64`.
pub duration_to_millis_iff :
    (d : Duration) (ms : ℕ)
    → (duration_to_millis d ≡ ok ms)
      ↔ ((as_nanos d ≤ ms * 1000000) × (ms * 1000000 < as_nanos d + 1000000) × (ms < 2 ^ 63))
duration_to_millis_iff d ms =
    (duration_to_millis-ceiling d ms, λ (lo, hi, fits). duration_to_millis_total d ms lo hi fits)
