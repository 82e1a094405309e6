-- ===== src/Base/Int.antt =====
-- Go's `int` where the program only compares it: an integer, `negsuc n` being -(n + 1).
use Prim.Native.Nat.{ℕ, zero, suc, ◌+◌, ◌-◌}
use mathlib.Core.Path.{◌≡◌}
use mathlib.Core.Bool.{Bool, true, false}
use native.Mathlib.Omega.{arith}
use mailvault.Base.Tests.{ltb, leb, ◌==◌, if◌then◌else◌}

pub data ℤ : Type 0 where
  pos : ℕ → ℤ
  negsuc : ℕ → ℤ

-- a < b
abbrev pub z_ltb : ℤ → ℤ → Bool
z_ltb (pos a) (pos b) = ltb a b
z_ltb (pos a) (negsuc b) = false
z_ltb (negsuc a) (pos b) = true
z_ltb (negsuc a) (negsuc b) = ltb b a

-- a == b
abbrev pub z_eqb : ℤ → ℤ → Bool
z_eqb (pos a) (pos b) = a == b
z_eqb (pos a) (negsuc b) = false
z_eqb (negsuc a) (pos b) = false
z_eqb (negsuc a) (negsuc b) = a == b

abbrev pub pos_part : ℤ → ℕ
pos_part (pos n) = n
pos_part (negsuc n) = 0

abbrev pub neg_part : ℤ → ℕ
neg_part (pos n) = 0
neg_part (negsuc n) = suc n

-- n++ and n--
abbrev pub increment : ℤ → ℤ
increment (pos n) = pos (suc n)
increment (negsuc zero) = pos 0
increment (negsuc (suc n)) = negsuc n

abbrev pub decrement : ℤ → ℤ
decrement (pos zero) = negsuc 0
decrement (pos (suc n)) = pos n
decrement (negsuc n) = negsuc (suc n)

pub increment_parts :
    (z : ℤ) → pos_part (increment z) + neg_part z ≡ suc (pos_part z + neg_part (increment z))
increment_parts (pos n) = omega arith
increment_parts (negsuc zero) = omega arith
increment_parts (negsuc (suc n)) = omega arith

pub decrement_parts :
    (z : ℤ) → suc (pos_part (decrement z) + neg_part z) ≡ pos_part z + neg_part (decrement z)
decrement_parts (pos zero) = omega arith
decrement_parts (pos (suc n)) = omega arith
decrement_parts (negsuc n) = omega arith

-- a - b
abbrev pub sub_ℕ : ℕ → ℕ → ℤ
sub_ℕ a b = if leb b a then pos (a - b) else negsuc (b - a - 1)

pub eq-sub_ℕ : (z : ℤ) (a b : ℕ) → pos_part z + b ≡ a + neg_part z → z ≡ sub_ℕ a b
eq-sub_ℕ z a b h = ground arith

pub eq-pos : (z : ℤ) (a : ℕ) → pos_part z ≡ a + neg_part z → z ≡ pos a
eq-pos z a h = ground arith
