-- ===== src/Sending/Retry.antt =====
-- What a failure does to a row, and when the row says that it is to be tried again.
use native.Mathlib.Nat.{
  mul_assoc, pow-succ', mod-eq_of_lt, mul-le-mul_left, mul-one, pow-le-pow_right,
}
use Prim.Native.String.{String}
use mailvault.Base.{
  ℕ, zero, suc, ◌+◌, ◌*◌, ◌^◌, ◌≤◌, ◌<◌, ◌≡◌, true, false, none, some, arith, word, mul64, pos,
  z_ltb,
}
use mailvault.Backoff.{minute}
use mailvault.Sending.Entity.{
  SentEmail, failed, triple, calculate_next_retry_time, mark_as_failed, can_retry, is_valid,
}
use mailvault.Sending.UseCase.{SendEmailRequest, validate, new_sent_email}

-- A request that Validate lets through makes a row that IsValid accepts: SendEmail never answers
-- "invalid sent email entity".
pub validate-is_valid :
    (r : SendEmailRequest) (id now : ℕ)
    → validate r ≡ none
    → is_valid (new_sent_email id now r) ≡ true
unfolding validate is_valid new_sent_email
validate-is_valid r id now h = ground arith

three_pow-pos : (n : ℕ) → 1 ≤ 3 ^ n
three_pow-pos zero = omega arith
three_pow-pos (suc n) = omega (arith, three_pow-pos n, pow-succ' 3 n)

triple-pow : (n d : ℕ) → d * 3 ^ n < word → triple n d ≡ d * 3 ^ n
unfolding triple mul64
triple-pow zero d h = rw mul-one
triple-pow (suc n) d h =
    let split : d * 3 ^ suc n ≡ d * 3 * 3 ^ n = rw (pow-succ', ← mul_assoc) in
    let less : d * 3 * 1 ≤ d * 3 * 3 ^ n = mul-le-mul_left (d * 3) (three_pow-pos n) in
    let fits : d * 3 < word = omega arith in
    rw (mod-eq_of_lt fits) (rw (triple-pow n (d * 3) (omega arith)) (rw split))

delay_lem : (k : ℕ) → k ≤ 15 → mul64 (triple k 1) (5 * minute) ≡ 3 ^ k * (5 * minute)
unfolding mul64
delay_lem k h =
    let cap : 3 ^ k ≤ 3 ^ 15 = pow-le-pow_right {n = 3} (omega arith) {i = k} {j = 15} h in
    let whole : triple k 1 ≡ 3 ^ k = rw (triple-pow k 1 (omega arith)) (omega arith) in
    rw whole (mod-eq_of_lt (omega arith))

next_time :
    (later : ℕ) (e : SentEmail)
    → e.retry_count ≤ 15
    → calculate_next_retry_time later e ≡ later + 3 ^ e.retry_count * (5 * minute)
unfolding calculate_next_retry_time
next_time later e h =
    let cap : 3 ^ e.retry_count ≤ 3 ^ 15 =
      pow-le-pow_right {n = 3} (omega arith) {i = e.retry_count} {j = 15} h in
    rw (delay_lem e.retry_count h) (ground arith)

-- A failure while more retries are allowed, and up to the 15th, sets the next attempt 3 ^ n times five
-- minutes ahead, n counting this failure too: 15 minutes after the first, 45 after the second.
pub mark_as_failed_schedules :
    (e : SentEmail) (now later m : ℕ) (message : String)
    → e.max_retries ≡ pos m
    → suc e.retry_count < m
    → e.retry_count ≤ 14
    → (mark_as_failed now later message e).next_retry_at
      ≡ some (later + 3 ^ suc e.retry_count * (5 * minute))
unfolding mark_as_failed can_retry
mark_as_failed_schedules e now later m message em more few = ground (
  arith,
  next_time later (record e {
    status = failed;
    error_message = some message;
    failed_at = some now;
    retry_count = suc e.retry_count;
  }),
)

-- After a failure the row is failed with the error's text, keeps its id and its bound, counts one
-- retry more, and can be tried again exactly while the
-- retries are below the bound; then, and only then, the time of the next attempt is set anew.
pub mark_as_failed_counts :
    (e : SentEmail) (now later : ℕ) (message : String)
    → let f = mark_as_failed now later message e in
      (f.status ≡ failed)
      × (f.retry_count ≡ suc e.retry_count)
      × (f.error_message ≡ some message)
      × (f.id ≡ e.id)
      × (f.max_retries ≡ e.max_retries)
      × (can_retry f ≡ z_ltb (pos (suc e.retry_count)) e.max_retries)
      × (can_retry f ≡ false → f.next_retry_at ≡ e.next_retry_at)
unfolding mark_as_failed can_retry
mark_as_failed_counts e now later message = ground arith
