-- ===== src/Prelude/Digits.antt =====
-- The binary digits of `&`, `|`, `!` and of the powers of two.
use Prim.Native.Nat.{bit_and, bit_or}
use native.Mathlib.Nat.{pow-suc, one-le-pow}
use Prim.Native.Nat.{ℕ, zero, suc, ◌-◌, ◌/◌, ◌%◌, ◌^◌, ◌≤◌, ◌<◌, min, max}
use mathlib.Core.Path.{◌≡◌, refl, ap}
use mathlib.Core.Logic.{◌≢◌}
use native.Mathlib.Omega.{arith}
use tensorvault.Prelude.Bits.{half_pow}
use tensorvault.Prelude.Masks.{
  bit_and_step, bit_or_step, shift_right, shift_right-bit_or, shift_right-pow,
}

-- The digit `k` of a number
unfoldable pub digit : ℕ → ℕ → ℕ
digit k a = shift_right k a % 2

bit_and_half : (a b : ℕ) → bit_and a b / 2 ≡ bit_and (a / 2) (b / 2)
bit_and_half a b = omega (arith, bit_and_step a b)

shift_right-bit_and :
    (k a b : ℕ) → shift_right k (bit_and a b) ≡ bit_and (shift_right k a) (shift_right k b)
unfolding shift_right
shift_right-bit_and zero a b = refl
shift_right-bit_and (suc k) a b = rw (bit_and_half a b) (shift_right-bit_and k (a / 2) (b / 2))

pub digit-bit_and : (k a b : ℕ) → digit k (bit_and a b) ≡ min (digit k a) (digit k b)
unfolding digit
digit-bit_and k a b =
    rw (shift_right-bit_and k a b) (omega (arith, bit_and_step (shift_right k a) (shift_right k b)))

pub digit-bit_or : (k a b : ℕ) → digit k (bit_or a b) ≡ max (digit k a) (digit k b)
unfolding digit
digit-bit_or k a b =
    rw (shift_right-bit_or k a b) (omega (arith, bit_or_step (shift_right k a) (shift_right k b)))

shift_right-zero : (k : ℕ) → shift_right k 0 ≡ 0
unfolding shift_right
shift_right-zero zero = refl
shift_right-zero (suc k) = shift_right-zero k

pub digit-zero : (k : ℕ) → digit k 0 ≡ 0
unfolding digit
digit-zero k = rw (shift_right-zero k) refl

pub digit-pow_same : (k : ℕ) → digit k (2 ^ k) ≡ 1
unfolding digit
digit-pow_same k = rw (shift_right-pow k) refl

pub digit-pow_other : (k j : ℕ) → k ≢ j → digit k (2 ^ j) ≡ 0
unfolding digit shift_right
digit-pow_other zero zero n = absurd (n refl)
digit-pow_other zero (suc j) n = omega (arith, pow-suc 2 j)
digit-pow_other (suc k) zero n = ap (λ x. x % 2) (shift_right-zero k)
digit-pow_other (suc k) (suc j) n = rw (half_pow j) (digit-pow_other k j (omega arith))

-- `!a` of `w` bits
pub digit-not : (w k a : ℕ) → a < 2 ^ w → k < w → digit k (2 ^ w - 1 - a) ≡ 1 - digit k a
unfolding digit shift_right
digit-not zero k a h l = absurd (omega arith)
digit-not (suc w) zero a h l = omega (arith, pow-suc 2 w)
digit-not (suc w) (suc k) a h l =
    let half : (2 ^ suc w - 1 - a) / 2 ≡ 2 ^ w - 1 - a / 2 = omega (arith, pow-suc 2 w) in
    rw half (digit-not w k (a / 2) (omega (arith, pow-suc 2 w)) (omega arith))

pub digit-le_one : (k a : ℕ) → digit k a ≤ 1
unfolding digit
digit-le_one k a = omega arith

pub pow_below : (w k : ℕ) → k < w → 2 ^ k < 2 ^ w
pow_below zero k h = absurd (omega arith)
pow_below (suc w) zero h = omega (arith, pow-suc 2 w, one-le-pow w 2 (omega arith))
pow_below (suc w) (suc k) h = omega (arith, pow-suc 2 w, pow-suc 2 k, pow_below w k (omega arith))
