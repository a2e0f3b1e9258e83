-- ===== src/Prelude/Int.antt =====
-- Signed integers over the native numbers, with the wrap-around of Go's int32 and int64.
use kyvernetria.Prelude.Tests.{ltb, leb, ◌==◌, if◌then◌else◌}
use Prim.Native.Nat.{ℕ, suc, ◌+◌, ◌-◌, ◌*◌, ◌/◌, ◌%◌, ◌≤◌, ◌<◌}
use mathlib.Core.Path.{◌≡◌, refl}
use mathlib.Core.Bool.{Bool}
use native.Mathlib.Omega.{arith}

-- `negsuc n` is -(n + 1).
pub data ℤ : Type 0 where
  pos : ℕ → ℤ
  negsuc : ℕ → ℤ

abbrev pub pos_part : ℤ → ℕ
pos_part (pos n) = n
pos_part (negsuc n) = 0

abbrev pub neg_part : ℤ → ℕ
neg_part (pos n) = 0
neg_part (negsuc n) = suc n

-- a - b, as an integer.
abbrev pub sub_ℕ : ℕ → ℕ → ℤ
sub_ℕ a b = if leb b a then pos (a - b) else negsuc (b - a - 1)

infixl 65 ◌+ℤ◌ ◌-ℤ◌
infixl 70 ◌*ℤ◌
infix 50 ◌≤ℤ◌ ◌<ℤ◌
unfoldable pub ◌+ℤ◌ : ℤ → ℤ → ℤ
a +ℤ b = sub_ℕ (pos_part a + pos_part b) (neg_part a + neg_part b)

unfoldable pub ◌-ℤ◌ : ℤ → ℤ → ℤ
a -ℤ b = sub_ℕ (pos_part a + neg_part b) (neg_part a + pos_part b)

unfoldable pub ◌*ℤ◌ : ℤ → ℤ → ℤ
a *ℤ b =
    sub_ℕ (pos_part a * pos_part b + neg_part a * neg_part b)
      (pos_part a * neg_part b + neg_part a * pos_part b)

abbrev pub ◌≤ℤ◌ : ℤ → ℤ → Type 0
a ≤ℤ b = pos_part a + neg_part b ≤ pos_part b + neg_part a

abbrev pub ◌<ℤ◌ : ℤ → ℤ → Type 0
a <ℤ b = pos_part a + neg_part b < pos_part b + neg_part a

abbrev pub ltb_ℤ : ℤ → ℤ → Bool
ltb_ℤ a b = ltb (pos_part a + neg_part b) (pos_part b + neg_part a)

abbrev pub leb_ℤ : ℤ → ℤ → Bool
leb_ℤ a b = leb (pos_part a + neg_part b) (pos_part b + neg_part a)

abbrev pub eqb_ℤ : ℤ → ℤ → Bool
eqb_ℤ a b = (pos_part a + neg_part b) == (pos_part b + neg_part a)

-- The value of an int of 2 * half values, from the exact result: two's complement.
abbrev pub wrap : ℕ → ℤ → ℤ
wrap half (pos n) =
    let r = n % (2 * half) in if ltb r half then pos r else negsuc (2 * half - 1 - r)
wrap half (negsuc n) =
    let r = n % (2 * half) in if ltb r half then negsuc r else pos (2 * half - 1 - r)

abbrev pub int32_half : ℕ
int32_half = 2147483648

abbrev pub int64_half : ℕ
int64_half = 9223372036854775808

abbrev pub wrap32 : ℤ → ℤ
wrap32 = wrap 2147483648

abbrev pub wrap64 : ℤ → ℤ
wrap64 = wrap 9223372036854775808

-- Go's `/` on signed integers truncates towards zero; division by zero is the caller's business.
abbrev pub quot : ℤ → ℕ → ℤ
quot (pos n) d = pos (n / d)
quot (negsuc n) d = sub_ℕ 0 (suc n / d)

abbrev pub negated : ℤ → ℤ
negated a = sub_ℕ (neg_part a) (pos_part a)

abbrev pub quot_ℤ : ℤ → ℤ → ℤ
quot_ℤ a (pos d) = quot a d
quot_ℤ a (negsuc d) = negated (quot a (suc d))

-- What fits is kept.
pub wrap32_fits : (n : ℕ) → n < 2147483648 → wrap32 (pos n) ≡ pos n
wrap32_fits n h = ground arith

pub wrap64_fits : (n : ℕ) → n < 9223372036854775808 → wrap64 (pos n) ≡ pos n
wrap64_fits n h = ground arith

wrap32_over : wrap32 (pos 2147483648) ≡ negsuc 2147483647
wrap32_over = refl

wrap32_under : wrap32 (negsuc 2147483648) ≡ pos 2147483647
wrap32_under = refl

-- Sums and differences that stay above zero.
pub +ℤ_nonneg : (a b : ℕ) → pos a +ℤ pos b ≡ pos (a + b)
unfolding ◌+ℤ◌
+ℤ_nonneg a b = ground arith

pub -ℤ_nonneg : (a b : ℕ) → b ≤ a → pos a -ℤ pos b ≡ pos (a - b)
unfolding ◌-ℤ◌
-ℤ_nonneg a b h = ground arith
