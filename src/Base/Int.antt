-- ===== src/Base/Int.antt =====
-- Signed integers over the native numbers, and Go's int64: a value is an integer, and an
-- operation wraps its result around to the range of 64 bits.
use Prim.Native.Nat.{ℕ, suc, ◌+◌, ◌-◌, ◌*◌, ◌/◌, ◌%◌, ◌≤◌, ◌<◌}
use mathlib.Core.Path.{◌≡◌}
use mathlib.Core.Bool.{Bool}
use native.Mathlib.Omega.{arith}
use vibe_sync.Base.Tests.{ltb, leb, if◌then◌else◌}

-- `negsuc n` is -(n + 1).
pub data ℤ : Type 0 where
  pos : ℕ → ℤ
  negsuc : ℕ → ℤ

abbrev pub pos_part : ℤ → ℕ
pos_part (pos n) = n
pos_part (negsuc n) = 0

abbrev pub neg_part : ℤ → ℕ
neg_part (pos n) = 0
neg_part (negsuc n) = suc n

-- a - b, as an integer.
abbrev pub sub_ℕ : ℕ → ℕ → ℤ
sub_ℕ a b = if leb b a then pos (a - b) else negsuc (b - a - 1)

infixl 65 ◌+ℤ◌ ◌-ℤ◌
infixl 70 ◌*ℤ◌
infix 50 ◌≤ℤ◌ ◌<ℤ◌
unfoldable pub ◌+ℤ◌ : ℤ → ℤ → ℤ
a +ℤ b = sub_ℕ (pos_part a + pos_part b) (neg_part a + neg_part b)

unfoldable pub ◌-ℤ◌ : ℤ → ℤ → ℤ
a -ℤ b = sub_ℕ (pos_part a + neg_part b) (neg_part a + pos_part b)

unfoldable pub ◌*ℤ◌ : ℤ → ℤ → ℤ
a *ℤ b =
    sub_ℕ (pos_part a * pos_part b + neg_part a * neg_part b)
      (pos_part a * neg_part b + neg_part a * pos_part b)

-- Division by a positive number, towards zero as in Go.
unfoldable pub quot : ℤ → ℕ → ℤ
quot a d = sub_ℕ (pos_part a / d) (neg_part a / d)

abbrev pub ◌≤ℤ◌ : ℤ → ℤ → Type 0
a ≤ℤ b = pos_part a + neg_part b ≤ pos_part b + neg_part a

abbrev pub ◌<ℤ◌ : ℤ → ℤ → Type 0
a <ℤ b = pos_part a + neg_part b < pos_part b + neg_part a

abbrev pub ltb_ℤ : ℤ → ℤ → Bool
ltb_ℤ a b = ltb (pos_part a + neg_part b) (pos_part b + neg_part a)

pub +ℤ_parts :
    (a b : ℤ)
    → pos_part (a +ℤ b) + neg_part a + neg_part b ≡ neg_part (a +ℤ b) + pos_part a + pos_part b
unfolding ◌+ℤ◌
+ℤ_parts a b = ground arith

pub -ℤ_parts :
    (a b : ℤ)
    → pos_part (a -ℤ b) + neg_part a + pos_part b ≡ neg_part (a -ℤ b) + pos_part a + neg_part b
unfolding ◌-ℤ◌
-ℤ_parts a b = ground arith

pub eq_of_parts : (a b : ℤ) → pos_part a + neg_part b ≡ pos_part b + neg_part a → a ≡ b
eq_of_parts a b h = ground arith

-- The triangle inequality.
pub +ℤ_size :
    (a b : ℤ)
    → pos_part (a +ℤ b) + neg_part (a +ℤ b) ≤ pos_part a + neg_part a + pos_part b + neg_part b
unfolding ◌+ℤ◌
+ℤ_size a b = ground arith

pub -ℤ_size :
    (a b : ℤ)
    → pos_part (a -ℤ b) + neg_part (a -ℤ b) ≤ pos_part a + neg_part a + pos_part b + neg_part b
unfolding ◌-ℤ◌
-ℤ_size a b = ground arith

pub ruleset size_laws = (arith, +ℤ_size, -ℤ_size)

pub ruleset int_laws = (arith, +ℤ_parts, -ℤ_parts, eq_of_parts)

abbrev pub max_int64 : ℤ
max_int64 = pos 9223372036854775807

abbrev pub min_int64 : ℤ
min_int64 = negsuc 9223372036854775807

-- The integer that a 64-bit pattern stands for.
unfoldable pub of_bits64 : ℕ → ℤ
of_bits64 m = if ltb m 9223372036854775808 then pos m else negsuc (18446744073709551615 - m)

unfoldable pub wrap64 : ℤ → ℤ
unfolding of_bits64
wrap64 (pos n) = of_bits64 (n % 18446744073709551616)
wrap64 (negsuc n) = of_bits64 (18446744073709551615 - n % 18446744073709551616)

abbrev pub IsInt64 : ℤ → Type 0
IsInt64 z = (min_int64 ≤ℤ z) × (z ≤ℤ max_int64)

-- In range nothing wraps.
pub wrap64_eq : (z : ℤ) → IsInt64 z → wrap64 z ≡ z
unfolding wrap64
wrap64_eq (pos n) h = ground arith
wrap64_eq (negsuc n) h = ground arith

pub wrap64-IsInt64 : (z : ℤ) → IsInt64 (wrap64 z)
unfolding wrap64
wrap64-IsInt64 (pos n) = ground arith
wrap64-IsInt64 (negsuc n) = ground arith

-- Go's + and - on int64.
unfoldable pub add64 : ℤ → ℤ → ℤ
add64 a b = wrap64 (a +ℤ b)

unfoldable pub sub64 : ℤ → ℤ → ℤ
sub64 a b = wrap64 (a -ℤ b)

-- uint64 counters wrap at 2^64.
abbrev pub uint64_mod : ℕ
uint64_mod = 18446744073709551616

abbrev pub inc64 : ℕ → ℕ
inc64 n = (n + 1) % uint64_mod

-- The bits of a 64-bit integer, which Go's uint64(x) reads as a natural number.
unfoldable pub bits64 : ℤ → ℕ
bits64 (pos n) = n % 18446744073709551616
bits64 (negsuc n) = 18446744073709551615 - n % 18446744073709551616

-- uint64 to int64 and back.
pub bits64-of_bits64 : (m : ℕ) → m < uint64_mod → bits64 (of_bits64 m) ≡ m
unfolding bits64 of_bits64
bits64-of_bits64 m h = ground arith

unfoldable pub of_bits16 : ℕ → ℤ
of_bits16 m = if ltb m 32768 then pos m else negsuc (65535 - m)

-- Go's int16(x).
unfoldable pub wrap16 : ℤ → ℤ
unfolding of_bits16
wrap16 (pos n) = of_bits16 (n % 65536)
wrap16 (negsuc n) = of_bits16 (65535 - n % 65536)

unfoldable pub of_bits8 : ℕ → ℤ
of_bits8 m = if ltb m 128 then pos m else negsuc (255 - m)

-- Go's int8(x).
unfoldable pub wrap8 : ℤ → ℤ
unfolding of_bits8
wrap8 (pos n) = of_bits8 (n % 256)
wrap8 (negsuc n) = of_bits8 (255 - n % 256)
