-- ===== src/Prelude/Masks.antt =====
-- `&`, `|` and `>>` of unsigned integers: laws at every width.
use Prim.Native.Nat.{
  ℕ, zero, suc, ◌+◌, ◌-◌, ◌*◌, ◌/◌, ◌%◌, ◌^◌, ◌≤◌, ◌<◌, bit_and, bit_or, min, max, bit_and-bitwise,
  bit_or-bitwise, digits,
}
use mathlib.Core.Path.{◌≡◌, refl, sym, ap, subst, ◌∙◌}
use native.Mathlib.Nat.{
  le_refl, pow-suc, one-le-pow, mod-lt, mod-add-div', mul-add-mod_self_right, mod-eq_of_lt,
  mul_assoc,
}
use native.Mathlib.Omega.{arith}
use tensorvault.Prelude.Bits.{half_pow}

abbrev and_digits : ℕ → ℕ → ℕ → ℕ
and_digits n a b = digits (λ x. zero) min n a b

and_digits-bound : (k n a b : ℕ) → a < 2 ^ k → and_digits n a b < 2 ^ k
and_digits-bound k zero a b h = one-le-pow k 2 (omega arith)
and_digits-bound k (suc n) zero b h = one-le-pow k 2 (omega arith)
and_digits-bound zero (suc n) (suc a) b h = absurd (omega arith)
and_digits-bound (suc k) (suc n) (suc a) b h =
    omega
      (arith, pow-suc 2 k, and_digits-bound k n (suc a / 2) (b / 2) (omega (arith, pow-suc 2 k)))

pub bit_and-bound : (k a b : ℕ) → a < 2 ^ k → bit_and a b < 2 ^ k
bit_and-bound k a b h = rw (bit_and-bitwise a b) (and_digits-bound k a a b h)

and_digits-mask : (n a b : ℕ) → and_digits n a b ≤ b
and_digits-mask zero a b = omega arith
and_digits-mask (suc n) zero b = omega arith
and_digits-mask (suc n) (suc a) b = omega (arith, and_digits-mask n (suc a / 2) (b / 2))

pub bit_and-mask : (a b : ℕ) → bit_and a b ≤ b
bit_and-mask a b = rw (bit_and-bitwise a b) (and_digits-mask a a b)

and_digits_one : (n a : ℕ) → a ≤ n → and_digits n a 1 ≡ a % 2
and_digits_one zero zero h = refl
and_digits_one zero (suc a) h = absurd (omega arith)
and_digits_one (suc n) zero h = refl
and_digits_one (suc n) (suc a) h = omega (arith, and_digits-mask n (suc a / 2) (1 / 2))

pub bit_and-one : (a : ℕ) → bit_and a 1 ≡ a % 2
bit_and-one a = rw (bit_and-bitwise a 1) (and_digits_one a a (le_refl a))

-- A digit by digit operation, with the fuel that it takes
module _ (base : ℕ → ℕ) (op : ℕ → ℕ → ℕ) where
  at_zero : (fuel y : ℕ) → digits base op fuel zero y ≡ base y
  at_zero zero y = refl
  at_zero (suc fuel) y = refl

  enough :
      (x y low high : ℕ) → x ≤ low → x ≤ high → digits base op low x y ≡ digits base op high x y
  enough zero y low high p q = at_zero low y ∙ sym (at_zero high y)
  enough (suc x) y zero high p q = absurd (omega arith)
  enough (suc x) y (suc low) zero p q = absurd (omega arith)
  enough (suc x) y (suc low) (suc high) p q =
      ap (λ rest. rest * 2 + op (suc x % 2) (y % 2))
        (enough (suc x / 2) (y / 2) low high (omega arith) (omega arith))

  last_digit :
      (x y : ℕ)
      → digits base op (suc x) (suc x) y
        ≡ digits base op (suc x / 2) (suc x / 2) (y / 2) * 2 + op (suc x % 2) (y % 2)
  last_digit x y =
      ap (λ rest. rest * 2 + op (suc x % 2) (y % 2))
        (enough (suc x / 2) (y / 2) x (suc x / 2) (omega arith) (omega arith))

zero-bit_or : (b : ℕ) → bit_or 0 b ≡ b
zero-bit_or b = bit_or-bitwise 0 b

pub bit_or_step : (a b : ℕ) → bit_or a b ≡ bit_or (a / 2) (b / 2) * 2 + max (a % 2) (b % 2)
bit_or_step zero b = omega (arith, zero-bit_or b, zero-bit_or (b / 2))
bit_or_step (suc a) b =
    rw (bit_or-bitwise (suc a) b, bit_or-bitwise (suc a / 2) (b / 2)) (last_digit (λ x. x) max a b)

bit_or_half : (a b : ℕ) → bit_or a b / 2 ≡ bit_or (a / 2) (b / 2)
bit_or_half a b = omega (arith, bit_or_step a b)

-- `n >> k`
unfoldable pub shift_right : ℕ → ℕ → ℕ
shift_right zero n = n
shift_right (suc k) n = shift_right k (n / 2)

pub shift_right-bit_or :
    (k a b : ℕ) → shift_right k (bit_or a b) ≡ bit_or (shift_right k a) (shift_right k b)
unfolding shift_right
shift_right-bit_or zero a b = refl
shift_right-bit_or (suc k) a b = rw (bit_or_half a b) (shift_right-bit_or k (a / 2) (b / 2))

pub shift_right-pow : (k : ℕ) → shift_right k (2 ^ k) ≡ 1
unfolding shift_right
shift_right-pow zero = refl
shift_right-pow (suc k) = rw (half_pow k) (shift_right-pow k)

-- The digit `k` of a number to which the digit `j` has been added.
pub digit_added : (k a : ℕ) → shift_right k (bit_or a (2 ^ k)) % 2 ≡ 1
digit_added k a =
    rw (shift_right-bit_or k a (2 ^ k), shift_right-pow k)
      (omega (arith, bit_or_step (shift_right k a) 1))

pub digit_kept : (k a b : ℕ) → shift_right k a % 2 ≡ 1 → shift_right k (bit_or a b) % 2 ≡ 1
digit_kept k a b h =
    rw (shift_right-bit_or k a b)
      (omega (arith, h, bit_or_step (shift_right k a) (shift_right k b)))

-- The last digit of both
pub bit_and_step : (x y : ℕ) → bit_and x y ≡ bit_and (x / 2) (y / 2) * 2 + min (x % 2) (y % 2)
bit_and_step zero y = rw (bit_and-bitwise 0 y, bit_and-bitwise (0 / 2) (y / 2)) (omega arith)
bit_and_step (suc x) y =
    rw (bit_and-bitwise (suc x) y, bit_and-bitwise (suc x / 2) (y / 2))
      (last_digit (λ b. zero) min x y)

halved_mod : (p a : ℕ) → 1 ≤ p → a % (p * 2) ≡ a / 2 % p * 2 + a % 2
halved_mod p a h =
    let q = a / 2 / p in
    let r = a / 2 % p * 2 + a % 2 in
    let low : a / 2 % p < p = mod-lt (a / 2) h in
    let split : a ≡ q * (p * 2) + r = rebuilt a p q (a / 2 % p) (mod-add-div' (a / 2) p) in
    subst (λ n. n % (p * 2) ≡ r) (sym split)
      (mul-add-mod_self_right q (p * 2) r ∙ mod-eq_of_lt (omega arith))
  where
    rebuilt : (a p q r : ℕ) → r + q * p ≡ a / 2 → a ≡ q * (p * 2) + (r * 2 + a % 2)
    rebuilt a p q r e = omega (arith, sym (mul_assoc q p 2))

-- The low `k` digits
pub bit_and_low : (k a : ℕ) → bit_and a (2 ^ k - 1) ≡ a % 2 ^ k
bit_and_low zero a = omega (arith, bit_and-mask a 0)
bit_and_low (suc k) a =
    let one = one-le-pow k 2 (omega arith) in
    let half : (2 ^ suc k - 1) / 2 ≡ 2 ^ k - 1 = omega (arith, pow-suc 2 k, one) in
    let odd : (2 ^ suc k - 1) % 2 ≡ 1 = omega (arith, pow-suc 2 k, one) in
    let rest = bit_and_low k (a / 2) in
    let whole : a % 2 ^ suc k ≡ a / 2 % 2 ^ k * 2 + a % 2 =
      ap (λ p. a % p) (pow-suc 2 k) ∙ halved_mod (2 ^ k) a one in
    let step : bit_and a (2 ^ suc k - 1) ≡ bit_and (a / 2) (2 ^ k - 1) * 2 + min (a % 2) 1 =
      bit_and_step a (2 ^ suc k - 1)
      ∙ ap (λ m. bit_and (a / 2) m * 2 + min (a % 2) ((2 ^ suc k - 1) % 2)) half
      ∙ ap (λ m. bit_and (a / 2) (2 ^ k - 1) * 2 + min (a % 2) m) odd in
    omega (arith, whole, step, rest)
