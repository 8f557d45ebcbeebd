-- ===== src/Prelude/Int.antt =====
-- The signed integers of C, over the native numbers, with the ranges of its fixed-width types.
use Prim.Native.Nat.{ℕ, suc, ◌+◌, ◌-◌, ◌≤◌}
use mathlib.Core.Path.{◌≡◌}
use mathlib.Core.Bool.{Bool, ◌&&◌, true}
use native.Mathlib.Omega.{arith}
use dotdeb_php_mongodb.Prelude.Tests.{ltb, leb, ◌==◌, if◌then◌else◌}

-- `negsuc n` is -(n + 1).
pub data ℤ : Type 0 where
  pos : ℕ → ℤ
  negsuc : ℕ → ℤ

abbrev pub pos_part : ℤ → ℕ
pos_part (pos n) = n
pos_part (negsuc n) = 0

abbrev pub neg_part : ℤ → ℕ
neg_part (pos n) = 0
neg_part (negsuc n) = suc n

abbrev pub sub_ℕ : ℕ → ℕ → ℤ
sub_ℕ a b = if leb b a then pos (a - b) else negsuc (b - a - 1)

infix 50 ◌≤ℤ◌ ◌==ℤ◌
abbrev pub ◌≤ℤ◌ : ℤ → ℤ → Type 0
a ≤ℤ b = pos_part a + neg_part b ≤ pos_part b + neg_part a

abbrev pub ltb_ℤ : ℤ → ℤ → Bool
ltb_ℤ a b = ltb (pos_part a + neg_part b) (pos_part b + neg_part a)

abbrev pub ◌==ℤ◌ : ℤ → ℤ → Bool
a ==ℤ b = (pos_part a == pos_part b) && (neg_part a == neg_part b)

-- `-a`, as an integer with no bound.
abbrev pub neg_ℤ : ℤ → ℤ
neg_ℤ a = sub_ℕ (neg_part a) (pos_part a)

-- INT32_MIN, INT32_MAX, UINT32_MAX, INT64_MIN and INT64_MAX.
abbrev pub int32_min : ℤ
int32_min = negsuc 2147483647

abbrev pub int32_max : ℤ
int32_max = pos 2147483647

abbrev pub uint32_max : ℤ
uint32_max = pos 4294967295

abbrev pub int64_min : ℤ
int64_min = negsuc 9223372036854775807

abbrev pub int64_max : ℤ
int64_max = pos 9223372036854775807

pub eq_of_parts : (a b : ℤ) → pos_part a + neg_part b ≡ pos_part b + neg_part a → a ≡ b
eq_of_parts a b h = ground arith

pub eq_of_==ℤ : (i j : ℤ) → (i ==ℤ j) ≡ true → i ≡ j
eq_of_==ℤ i j h = ground arith
