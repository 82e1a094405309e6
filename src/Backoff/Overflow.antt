-- ===== src/Backoff/Overflow.antt =====
-- The delays past the range of an int64.
use native.Mathlib.Nat.{mod-eq_of_lt, pow-le-pow_right}
use mailvault.Base.{
  ℕ, ◌-◌, ◌*◌, ◌^◌, ◌≤◌, ◌<◌, ◌≡◌, true, arith, half_word, word, is_negative, slt, lt→ltb, mul64,
  shl_one,
}
use mailvault.Backoff.Bounds.{is_not_positive-false}
use mailvault.Backoff.{worker_retry_delay, cap_at}

-- A product from 2 ^ 63 on, and below 2 ^ 64, is read as negative: it passes the cap of a day, and
-- the delay that comes back is negative.
pub worker_retry_delay_negative :
    (attempt base : ℕ)
    → 1 ≤ attempt
    → attempt ≤ 63
    → half_word ≤ base * 2 ^ (attempt - 1)
    → base * 2 ^ (attempt - 1) < word
    → is_negative (worker_retry_delay attempt base) ≡ true
unfolding worker_retry_delay cap_at mul64 slt shl_one
worker_retry_delay_negative attempt base p r low high =
    let room : 2 ^ (attempt - 1) ≤ 2 ^ 62 =
      pow-le-pow_right {n = 2} (omega arith) {i = attempt - 1} {j = 62} (omega arith) in
    rw (is_not_positive-false attempt p (omega arith), lt→ltb (attempt - 1) 64 (omega arith))
      (rw (mod-eq_of_lt {n = 2 ^ (attempt - 1)} {m = 2 ^ 64} (omega arith))
        (rw (mod-eq_of_lt {n = base * 2 ^ (attempt - 1)} {m = 2 ^ 64} high) (ground arith)))
