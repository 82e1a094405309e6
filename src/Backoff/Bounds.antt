-- ===== src/Backoff/Bounds.antt =====
-- The delays while base * 2 ^ (attempt - 1) fits an int64.
use Prim.Native.Nat.{min}
use native.Mathlib.Nat.{mul_comm, pow-le-pow_right, mul-le-mul_right, mod-eq_of_lt}
use mailvault.Base.{
  ℕ, ◌-◌, ◌*◌, ◌^◌, ◌%◌, ◌≤◌, ◌<◌, ◌≡◌, ap, false, arith, half_word, slt, lt→ltb, dec_lt, mul64,
  shl_one, ltb,
}
use mailvault.Backoff.{
  second, hour, is_not_positive, cap_at, worker_retry_delay, entity_retry_delay, webhook_delay,
  async_retry_delay, email_backoff_delay,
}

pub slt-ltb : (a b : ℕ) → a < half_word → b < half_word → slt a b ≡ ltb a b
unfolding slt
slt-ltb a b p q = ground arith

cap_at-min : (c d : ℕ) → c < half_word → d < half_word → cap_at c d ≡ min c d
unfolding cap_at
cap_at-min c d p q = rw (slt-ltb c d p q) (ground arith)

-- Where the product fits, the count is below 64 and neither the shift nor the product wraps.
count-lt : (base k : ℕ) → 1 ≤ base → base * 2 ^ k < half_word → k < 63
count-lt base k p q = elim (dec_lt k 63) [
  | yes h ↦ h
  | no h ↦
      let big : 2 ^ 63 ≤ 2 ^ k = pow-le-pow_right {n = 2} (omega arith) {i = 63} (omega arith) in
      let more : 1 * 2 ^ k ≤ base * 2 ^ k = mul-le-mul_right (2 ^ k) p in absurd (omega arith)
]

mul64-shl_one :
    (base k : ℕ) → 1 ≤ base → base * 2 ^ k < half_word → mul64 base (shl_one k) ≡ base * 2 ^ k
unfolding mul64 shl_one
mul64-shl_one base k p q =
    let small : k < 63 = count-lt base k p q in
    let above : 1 * 2 ^ k ≤ base * 2 ^ k = mul-le-mul_right (2 ^ k) p in
    rw (lt→ltb k 64 (omega arith))
      (rw (mod-eq_of_lt {n = 2 ^ k} {m = 2 ^ 64} (omega arith)) (mod-eq_of_lt (omega arith)))

pub mul64_comm : (a b : ℕ) → mul64 a b ≡ mul64 b a
unfolding mul64
mul64_comm a b = ap (λ (t : ℕ). t % 2 ^ 64) (mul_comm a b)

pub is_not_positive-false : (a : ℕ) → 1 ≤ a → a < half_word → is_not_positive a ≡ false
is_not_positive-false a p q = ground arith

-- From the first attempt on, and while the product fits an int64, the worker waits
-- base * 2 ^ (attempt - 1), and never longer than a day.
pub worker_retry_delay-min :
    (attempt base : ℕ)
    → 1 ≤ attempt
    → attempt < half_word
    → 1 ≤ base
    → base * 2 ^ (attempt - 1) < half_word
    → worker_retry_delay attempt base ≡ min (24 * hour) (base * 2 ^ (attempt - 1))
unfolding worker_retry_delay
worker_retry_delay-min attempt base p r q fits =
    rw (is_not_positive-false attempt p r, mul64-shl_one base (attempt - 1) q fits)
      (cap_at-min _ _ (omega arith) fits)

-- The worker and the entities compute the same delay, also where the product wraps.
pub retry_delays_agree :
    (attempt base : ℕ) → worker_retry_delay attempt base ≡ entity_retry_delay attempt base
unfolding worker_retry_delay entity_retry_delay cap_at
retry_delays_agree attempt base = rw (mul64_comm base (shl_one (attempt - 1)))

-- The webhook client, the webhook worker and the email worker double their delay at each attempt
-- up to 30 seconds, 30 seconds and one hour, while the product fits an int64 and, for the second of
-- them, up to the 30th attempt.
pub delays_double :
    (base attempt : ℕ)
    → 1 ≤ base
    → base * 2 ^ (attempt - 1) < half_word
    → attempt ≤ 30
    → (webhook_delay base attempt ≡ min (30 * second) (base * 2 ^ (attempt - 1)))
      × (async_retry_delay attempt ≡ min (30 * second) (second * 2 ^ (attempt - 1)))
      × (email_backoff_delay base attempt ≡ min hour (base * 2 ^ (attempt - 1)))
unfolding webhook_delay async_retry_delay email_backoff_delay
delays_double base attempt p fits few = (
  rw (mul64-shl_one base (attempt - 1) p fits) (cap_at-min _ _ (omega arith) fits),
  let room : 2 ^ (attempt - 1) ≤ 2 ^ 29 =
        pow-le-pow_right {n = 2} (omega arith) {i = attempt - 1} {j = 29} (omega arith) in
      let inside : second * 2 ^ (attempt - 1) < half_word = omega arith in
      rw
        (
          mul64_comm (shl_one (attempt - 1)) second,
          mul64-shl_one second (attempt - 1) (omega arith) inside,
        )
        (cap_at-min _ _ (omega arith) inside),
  rw (mul64-shl_one base (attempt - 1) p fits) (cap_at-min _ _ (omega arith) fits),
)
