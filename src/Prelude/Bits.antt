-- ===== src/Prelude/Bits.antt =====
-- `^` of unsigned integers, and the counts of their binary digits: laws at every width.
use Prim.Native.Nat.{
  ℕ, zero, suc, ◌+◌, ◌*◌, ◌/◌, ◌%◌, ◌^◌, ◌≤◌, ◌<◌, bit_xor, digits, bit_xor-bitwise, differ,
}
use mathlib.Core.Path.{◌≡◌, refl}
use native.Mathlib.Nat.{le_refl, pow-suc}
use native.Mathlib.Omega.{arith}
use tensorvault.Prelude.Tests.{if◌then◌else◌, ◌==◌}

abbrev xor_digits : ℕ → ℕ → ℕ → ℕ
xor_digits n a b = digits (λ x. x) differ n a b

xor_digits_fuel : (n m a b : ℕ) → a ≤ n → a ≤ m → xor_digits n a b ≡ xor_digits m a b
xor_digits_fuel zero zero a b p q = refl
xor_digits_fuel zero (suc m) zero b p q = refl
xor_digits_fuel zero (suc m) (suc a) b p q = absurd (omega arith)
xor_digits_fuel (suc n) zero zero b p q = refl
xor_digits_fuel (suc n) zero (suc a) b p q = absurd (omega arith)
xor_digits_fuel (suc n) (suc m) zero b p q = refl
xor_digits_fuel (suc n) (suc m) (suc a) b p q =
    rw (xor_digits_fuel n m (suc a / 2) (b / 2) (omega arith) (omega arith))

-- The sum of two digits without its carry.
differ_digits : (x y : ℕ) → x < 2 → y < 2 → differ x y ≡ (x + y) % 2
differ_digits zero y p q = omega arith
differ_digits (suc zero) zero p q = omega arith
differ_digits (suc zero) (suc zero) p q = omega arith
differ_digits (suc zero) (suc (suc y)) p q = absurd (omega arith)
differ_digits (suc (suc x)) y p q = absurd (omega arith)

pub zero-bit_xor : (b : ℕ) → bit_xor 0 b ≡ b
zero-bit_xor b = bit_xor-bitwise 0 b

pub bit_xor_step : (a b : ℕ) → bit_xor a b ≡ bit_xor (a / 2) (b / 2) * 2 + (a + b) % 2
bit_xor_step zero b = omega (arith, zero-bit_xor b, zero-bit_xor (b / 2))
bit_xor_step (suc a) b = omega (
  arith,
  bit_xor-bitwise (suc a) b,
  bit_xor-bitwise (suc a / 2) (b / 2),
  xor_digits_fuel a (suc a / 2) (suc a / 2) (b / 2) (omega arith) (omega arith),
  differ_digits (suc a % 2) (b % 2) (omega arith) (omega arith),
)

pub bit_xor_half : (a b : ℕ) → bit_xor a b / 2 ≡ bit_xor (a / 2) (b / 2)
bit_xor_half a b = omega (arith, bit_xor_step a b)

pub bit_xor_parity : (a b : ℕ) → bit_xor a b % 2 ≡ (a + b) % 2
bit_xor_parity a b = omega (arith, bit_xor_step a b)

bit_xor-zero_fuel : (n a : ℕ) → a ≤ n → bit_xor a 0 ≡ a
bit_xor-zero_fuel n zero h = refl
bit_xor-zero_fuel zero (suc a) h = absurd (omega arith)
bit_xor-zero_fuel (suc n) (suc a) h =
    omega (arith, bit_xor_step (suc a) 0, bit_xor-zero_fuel n (suc a / 2) (omega arith))

pub bit_xor-zero : (a : ℕ) → bit_xor a 0 ≡ a
bit_xor-zero a = bit_xor-zero_fuel a a (le_refl a)

self_fuel : (n a : ℕ) → a ≤ n → bit_xor a a ≡ 0
self_fuel n zero h = refl
self_fuel zero (suc a) h = absurd (omega arith)
self_fuel (suc n) (suc a) h =
    omega (arith, bit_xor_step (suc a) (suc a), self_fuel n (suc a / 2) (omega arith))

pub bit_xor_self : (a : ℕ) → bit_xor a a ≡ 0
bit_xor_self a = self_fuel a a (le_refl a)

comm_fuel : (n a b : ℕ) → a ≤ n → bit_xor a b ≡ bit_xor b a
comm_fuel n zero b h = omega (arith, zero-bit_xor b, bit_xor-zero b)
comm_fuel zero (suc a) b h = absurd (omega arith)
comm_fuel (suc n) (suc a) b h = omega (
  arith,
  bit_xor_step (suc a) b,
  bit_xor_step b (suc a),
  comm_fuel n (suc a / 2) (b / 2) (omega arith),
)

pub bit_xor_comm : (a b : ℕ) → bit_xor a b ≡ bit_xor b a
bit_xor_comm a b = comm_fuel a a b (le_refl a)

assoc_fuel : (n a b c : ℕ) → a + b + c ≤ n → bit_xor (bit_xor a b) c ≡ bit_xor a (bit_xor b c)
assoc_fuel n zero b c h = rw (zero-bit_xor b, zero-bit_xor (bit_xor b c))
assoc_fuel zero (suc a) b c h = absurd (omega arith)
assoc_fuel (suc n) (suc a) b c h =
    rw (bit_xor_step (bit_xor (suc a) b) c, bit_xor_step (suc a) (bit_xor b c))
      (rw (bit_xor_half (suc a) b, bit_xor_half b c)
        (omega (
          arith,
          bit_xor_parity (suc a) b,
          bit_xor_parity b c,
          assoc_fuel n (suc a / 2) (b / 2) (c / 2) (omega arith),
        )))

pub bit_xor_assoc : (a b c : ℕ) → bit_xor (bit_xor a b) c ≡ bit_xor a (bit_xor b c)
bit_xor_assoc a b c = assoc_fuel (a + b + c) a b c (le_refl _)

-- A mask that is applied twice.
pub bit_xor_twice : (a m : ℕ) → bit_xor (bit_xor a m) m ≡ a
bit_xor_twice a m = rw (bit_xor_assoc a m m, bit_xor_self m) (bit_xor-zero a)

carried_half : (r x : ℕ) → (r + 2 * x) / 2 ≡ r / 2 + x
carried_half r x = omega arith

fields_step :
    (r s x y : ℕ)
    → bit_xor (r + 2 * x) (s + 2 * y) ≡ bit_xor (r / 2 + x) (s / 2 + y) * 2 + (r + s) % 2
fields_step r s x y =
    rw (bit_xor_step (r + 2 * x) (s + 2 * y), carried_half r x, carried_half s y) (omega arith)

pub pow-suc_times : (k q : ℕ) → 2 ^ suc k * q ≡ 2 * (2 ^ k * q)
pow-suc_times k q = rw (pow-suc 2 k) (omega arith)

-- Numbers of `k` low digits and the digits above them.
pub bit_xor_fields :
    (k r s q t : ℕ)
    → r < 2 ^ k
    → s < 2 ^ k
    → bit_xor (r + 2 ^ k * q) (s + 2 ^ k * t) ≡ bit_xor r s + 2 ^ k * bit_xor q t
bit_xor_fields zero zero zero q t p h = ground arith
bit_xor_fields zero zero (suc s) q t p h = absurd (omega arith)
bit_xor_fields zero (suc r) s q t p h = absurd (omega arith)
bit_xor_fields (suc k) r s q t p h =
    rw (pow-suc_times k q, pow-suc_times k t, pow-suc_times k (bit_xor q t))
      (omega (
        arith,
        pow-suc 2 k,
        fields_step r s (2 ^ k * q) (2 ^ k * t),
        bit_xor_step r s,
        bit_xor_fields k (r / 2) (s / 2) q t (omega (arith, pow-suc 2 k))
            (omega (arith, pow-suc 2 k)),
      ))

pub bit_xor-bound : (k r s : ℕ) → r < 2 ^ k → s < 2 ^ k → bit_xor r s < 2 ^ k
bit_xor-bound zero zero zero p h = omega arith
bit_xor-bound zero zero (suc s) p h = absurd (omega arith)
bit_xor-bound zero (suc r) s p h = absurd (omega arith)
bit_xor-bound (suc k) r s p h = omega (
  arith,
  pow-suc 2 k,
  bit_xor_step r s,
  bit_xor-bound k (r / 2) (s / 2) (omega (arith, pow-suc 2 k)) (omega (arith, pow-suc 2 k)),
)

-- `count_ones` and `trailing_zeros` of a word of `w` bits
unfoldable pub count_ones : ℕ → ℕ → ℕ
count_ones zero n = 0
count_ones (suc w) n = n % 2 + count_ones w (n / 2)

unfoldable pub trailing_zeros : ℕ → ℕ → ℕ
trailing_zeros zero n = 0
trailing_zeros (suc w) n =
    let above = trailing_zeros w (n / 2) in if n % 2 == 1 then 0 else suc above

count_ones-zero : (w : ℕ) → count_ones w 0 ≡ 0
unfolding count_ones
count_ones-zero zero = refl
count_ones-zero (suc w) = omega (arith, count_ones-zero w)

pub half_pow : (k : ℕ) → 2 ^ suc k / 2 ≡ 2 ^ k
half_pow k = omega (arith, pow-suc 2 k)

even_pow : (k : ℕ) → 2 ^ suc k % 2 ≡ 0
even_pow k = omega (arith, pow-suc 2 k)

-- A word of one digit.
pub count_ones-pow : (w k : ℕ) → k < w → count_ones w (2 ^ k) ≡ 1
unfolding count_ones
count_ones-pow zero k h = absurd (omega arith)
count_ones-pow (suc w) zero h = omega (arith, count_ones-zero w)
count_ones-pow (suc w) (suc k) h =
    rw (even_pow k, half_pow k) (omega (arith, count_ones-pow w k (omega arith)))

pub trailing_zeros-pow : (w k : ℕ) → k < w → trailing_zeros w (2 ^ k) ≡ k
unfolding trailing_zeros
trailing_zeros-pow zero k h = absurd (omega arith)
trailing_zeros-pow (suc w) zero h = refl
trailing_zeros-pow (suc w) (suc k) h =
    rw (even_pow k, half_pow k) (ground (arith, trailing_zeros-pow w k (omega arith)))
