-- ===== src/Prelude/Ints.antt =====
-- Integers over the native numbers, as the source's `i32` and `i64` have them: division that
-- truncates or rounds down, the two's complement of a width, and what `omega` needs to know.
use tensorvault.Prelude.{
  ℕ, suc, ◌+◌, ◌-◌, ◌*◌, ◌/◌, ◌%◌, ◌^◌, ◌≤◌, ◌<◌, ◌≡◌, Bool, arith, ltb, leb, if◌then◌else◌,
}

-- `negsuc n` is -(n + 1).
pub data ℤ : Type 0 where
  pos : ℕ → ℤ
  negsuc : ℕ → ℤ

abbrev pub pos_part : ℤ → ℕ
pos_part (pos n) = n
pos_part (negsuc n) = 0

abbrev pub neg_part : ℤ → ℕ
neg_part (pos n) = 0
neg_part (negsuc n) = suc n

abbrev pub sub_ℕ : ℕ → ℕ → ℤ
sub_ℕ a b = if leb b a then pos (a - b) else negsuc (b - a - 1)

infixl 65 ◌+ℤ◌ ◌-ℤ◌
infixl 70 ◌*ℤ◌
infix 50 ◌≤ℤ◌
unfoldable pub ◌+ℤ◌ : ℤ → ℤ → ℤ
a +ℤ b = sub_ℕ (pos_part a + pos_part b) (neg_part a + neg_part b)

unfoldable pub ◌-ℤ◌ : ℤ → ℤ → ℤ
a -ℤ b = sub_ℕ (pos_part a + neg_part b) (neg_part a + pos_part b)

-- An integer times a natural number
unfoldable pub ◌*ℤ◌ : ℤ → ℕ → ℤ
a *ℤ k = sub_ℕ (pos_part a * k) (neg_part a * k)

abbrev pub ◌≤ℤ◌ : ℤ → ℤ → Type 0
a ≤ℤ b = pos_part a + neg_part b ≤ pos_part b + neg_part a

abbrev pub ltb_ℤ : ℤ → ℤ → Bool
ltb_ℤ a b = ltb (pos_part a + neg_part b) (pos_part b + neg_part a)

-- `/` of the source, for a positive divisor
unfoldable pub div_trunc : ℤ → ℕ → ℤ
div_trunc a k = sub_ℕ (pos_part a / k) (neg_part a / k)

-- `div_euclid` and `rem_euclid`, for a positive divisor
unfoldable pub div_euclid : ℤ → ℕ → ℤ
div_euclid (pos n) k = pos (n / k)
div_euclid (negsuc n) k = negsuc (n / k)

unfoldable pub rem_euclid : ℤ → ℕ → ℕ
rem_euclid (pos n) k = n % k
rem_euclid (negsuc n) k = k - 1 - n % k

-- The bits of an integer as an unsigned number below `m`, and back: `m` is 2 ^ 32 or 2 ^ 64.
unfoldable pub as_unsigned : ℕ → ℤ → ℕ
unfolding rem_euclid
as_unsigned m a = rem_euclid a m

unfoldable pub as_signed : ℕ → ℕ → ℤ
as_signed m u = let low = u % m in if ltb low (m / 2) then pos low else negsuc (m - 1 - low)

abbrev pub as_u32 : ℤ → ℕ
as_u32 = as_unsigned 4294967296

abbrev pub as_i32 : ℕ → ℤ
as_i32 = as_signed 4294967296

abbrev pub as_u64 : ℤ → ℕ
as_u64 = as_unsigned 18446744073709551616

abbrev pub as_i64 : ℕ → ℤ
as_i64 = as_signed 18446744073709551616

-- The values of an `i32` and of an `i64`
abbrev pub IsI32 : ℤ → Type 0
IsI32 a = (pos_part a < 2147483648) × (neg_part a ≤ 2147483648)

abbrev pub IsI64 : ℤ → Type 0
IsI64 a = (pos_part a < 9223372036854775808) × (neg_part a ≤ 9223372036854775808)

-- A sum that wraps at the width, and one that stops at the ends
unfoldable pub wrap_i32 : ℤ → ℤ
wrap_i32 a = as_i32 (as_u32 a)

unfoldable pub wrap_i64 : ℤ → ℤ
wrap_i64 a = as_i64 (as_u64 a)

-- `half` is 2 ^ 31 or 2 ^ 63.
unfoldable pub saturate : ℕ → ℤ → ℤ
saturate half a =
    if leb half (pos_part a)
    then pos (half - 1)
    else if ltb half (neg_part a)
    then negsuc (half - 1)
    else a

pub +ℤ_parts :
    (a b : ℤ)
    → pos_part (a +ℤ b) + neg_part a + neg_part b ≡ neg_part (a +ℤ b) + pos_part a + pos_part b
unfolding ◌+ℤ◌
+ℤ_parts a b = ground arith

pub -ℤ_parts :
    (a b : ℤ)
    → pos_part (a -ℤ b) + neg_part a + pos_part b ≡ neg_part (a -ℤ b) + pos_part a + neg_part b
unfolding ◌-ℤ◌
-ℤ_parts a b = ground arith

pub *ℤ_parts :
    (a : ℤ) (k : ℕ) → pos_part (a *ℤ k) + neg_part a * k ≡ neg_part (a *ℤ k) + pos_part a * k
unfolding ◌*ℤ◌
*ℤ_parts a k = ground arith

pub eq_of_parts : (a b : ℤ) → pos_part a + neg_part b ≡ pos_part b + neg_part a → a ≡ b
eq_of_parts a b h = ground arith

pub ruleset int_laws = (arith, +ℤ_parts, -ℤ_parts, eq_of_parts)

-- A value in range keeps its bits.
pub as_i32-as_u32 : (a : ℤ) → IsI32 a → as_i32 (as_u32 a) ≡ a
unfolding as_signed as_unsigned rem_euclid
as_i32-as_u32 a h = ground arith

pub as_i64-as_u64 : (a : ℤ) → IsI64 a → as_i64 (as_u64 a) ≡ a
unfolding as_signed as_unsigned rem_euclid
as_i64-as_u64 a h = ground arith

pub wrap_i32_lem : (a : ℤ) → IsI32 a → wrap_i32 a ≡ a
unfolding wrap_i32
wrap_i32_lem a h = as_i32-as_u32 a h

pub wrap_i64_lem : (a : ℤ) → IsI64 a → wrap_i64 a ≡ a
unfolding wrap_i64
wrap_i64_lem a h = as_i64-as_u64 a h

pub as_signed-as_unsigned-IsI64 : (u : ℕ) → IsI64 (as_i64 u)
unfolding as_signed
as_signed-as_unsigned-IsI64 u = ground arith
