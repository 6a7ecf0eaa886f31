-- ===== src/Prelude/Int.antt =====
-- Go's `int`: signed integers over the native numbers, reduced to 64 bits by every operation.
use Prim.Native.Nat.{ℕ, suc, ◌+◌, ◌-◌, ◌*◌, ◌%◌, ◌≤◌, ◌<◌}
use mathlib.Core.Path.{◌≡◌}
use mathlib.Core.Bool.{Bool}
use native.Mathlib.Omega.{arith}
use commerce.Prelude.Tests.{ltb, leb, nat_beq, if◌then◌else◌}

-- `negsuc n` is -(n + 1).
pub data ℤ : Type 0 where
  pos : ℕ → ℤ
  negsuc : ℕ → ℤ

abbrev pub pos_part : ℤ → ℕ
pos_part (pos n) = n
pos_part (negsuc n) = 0

abbrev pub neg_part : ℤ → ℕ
neg_part (pos n) = 0
neg_part (negsuc n) = suc n

abbrev pub sub_ℕ : ℕ → ℕ → ℤ
sub_ℕ a b = if leb b a then pos (a - b) else negsuc (b - a - 1)

infix 50 ◌≤ℤ◌ ◌<ℤ◌
abbrev pub ◌≤ℤ◌ : ℤ → ℤ → Type 0
a ≤ℤ b = pos_part a + neg_part b ≤ pos_part b + neg_part a

abbrev pub ◌<ℤ◌ : ℤ → ℤ → Type 0
a <ℤ b = pos_part a + neg_part b < pos_part b + neg_part a

abbrev pub ltb_ℤ : ℤ → ℤ → Bool
ltb_ℤ a b = ltb (pos_part a + neg_part b) (pos_part b + neg_part a)

abbrev pub leb_ℤ : ℤ → ℤ → Bool
leb_ℤ a b = leb (pos_part a + neg_part b) (pos_part b + neg_part a)

abbrev pub int_mod : ℕ
int_mod = 18446744073709551616

abbrev pub int_half : ℕ
int_half = 9223372036854775808

-- The value of a 64-bit pattern in two's complement.
abbrev pub signed : ℕ → ℤ
signed u = if ltb u int_half then pos u else negsuc (int_mod - 1 - u)

unfoldable pub wrap : ℤ → ℤ
wrap (pos n) = signed (n % int_mod)
wrap (negsuc n) = signed (int_mod - 1 - n % int_mod)

-- The integers that an `int` holds.
abbrev pub IsInt : ℤ → Type 0
IsInt (pos n) = n < int_half
IsInt (negsuc n) = n < int_half

pub wrap-eq_of_IsInt : (z : ℤ) → IsInt z → wrap z ≡ z
unfolding wrap
wrap-eq_of_IsInt (pos n) h = ground arith
wrap-eq_of_IsInt (negsuc n) h = ground arith

pub wrap-IsInt : (z : ℤ) → IsInt (wrap z)
unfolding wrap
wrap-IsInt (pos n) = ground arith
wrap-IsInt (negsuc n) = ground arith

unfoldable pub add_int : ℤ → ℤ → ℤ
add_int a b = wrap (sub_ℕ (pos_part a + pos_part b) (neg_part a + neg_part b))

unfoldable pub sub_int : ℤ → ℤ → ℤ
sub_int a b = wrap (sub_ℕ (pos_part a + neg_part b) (neg_part a + pos_part b))

unfoldable pub mul_int : ℤ → ℤ → ℤ
mul_int a b = wrap (
    sub_ℕ (pos_part a * pos_part b + neg_part a * neg_part b)
      (pos_part a * neg_part b + neg_part a * pos_part b))

pub add_int-IsInt : (a b : ℤ) → IsInt (add_int a b)
unfolding add_int
add_int-IsInt a b = wrap-IsInt _

pub sub_int-IsInt : (a b : ℤ) → IsInt (sub_int a b)
unfolding sub_int
sub_int-IsInt a b = wrap-IsInt _

pub mul_int-IsInt : (a b : ℤ) → IsInt (mul_int a b)
unfolding mul_int
mul_int-IsInt a b = wrap-IsInt _

-- Below the overflow the operations are those of the integers.
pub sub_int-pos : (a b : ℕ) → b ≤ a → a < int_half → sub_int (pos a) (pos b) ≡ pos (a - b)
unfolding sub_int wrap
sub_int-pos a b h k = ground arith

pub add_int-pos : (a b : ℕ) → a + b < int_half → add_int (pos a) (pos b) ≡ pos (a + b)
unfolding add_int wrap
add_int-pos a b h = ground arith

pub mul_int-pos : (a b : ℕ) → a * b < int_half → mul_int (pos a) (pos b) ≡ pos (a * b)
unfolding mul_int wrap
mul_int-pos a b h = ground arith

pub mul_int_wraps :
    (a b k : ℕ) → a * b ≡ int_mod + k → k < int_half → mul_int (pos a) (pos b) ≡ pos k
unfolding mul_int wrap
mul_int_wraps a b k h l = ground arith

abbrev pub int_beq : ℤ → ℤ → Bool
int_beq a b = nat_beq (pos_part a + neg_part b) (pos_part b + neg_part a)
