-- ===== src/Base/Int64.antt =====
-- Go's `int` and `int64` on a 64-bit platform, as bit patterns: the number n < 2 ^ 64 stands for n
-- itself below 2 ^ 63 and for n - 2 ^ 64 from there on. Arithmetic wraps.
use Prim.Native.Nat.{ℕ, ◌+◌, ◌*◌, ◌%◌, ◌^◌}
use mathlib.Core.Bool.{Bool}
use mailvault.Base.Tests.{ltb, leb, if◌then◌else◌}

abbrev pub word : ℕ
word = 2 ^ 64

abbrev pub half_word : ℕ
half_word = 2 ^ 63

-- x < 0
abbrev pub is_negative : ℕ → Bool
is_negative x = leb half_word x

-- a < b as signed numbers: adding 2 ^ 63 takes the signed order to the unsigned one.
unfoldable pub slt : ℕ → ℕ → Bool
slt a b = ltb ((a + half_word) % word) ((b + half_word) % word)

unfoldable pub mul64 : ℕ → ℕ → ℕ
mul64 a b = (a * b) % word

-- 1 << k for a count k that is not negative; a count of 64 or more shifts every bit out.
unfoldable pub shl_one : ℕ → ℕ
shl_one k = if ltb k 64 then (2 ^ k) % word else 0
