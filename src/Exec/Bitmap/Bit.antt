-- ===== src/Exec/Bitmap/Bit.antt =====
-- One bit of a bitmap, read after a write.
use Prim.Native.Nat.{bit_or}
use mathlib.Core.Path.{subst}
use tensorvault.Prelude.{
  ℕ, ◌/◌, ◌%◌, ◌^◌, ◌<◌, ◌≡◌, ◌≢◌, sym, ap, ◌∙◌, ◌==◌, if◌then◌else◌, true, false, Bool-cases, inl,
  inr, ==_iff, List, length, length-set, get_or, get_or-set, get_or-set_other, set, arith,
}
use tensorvault.Prelude.Masks.{shift_right, bit_and_low, bit_and-one}
use tensorvault.Prelude.Digits.{digit, digit-bit_or, digit-pow_same, digit-pow_other, digit-le_one}
use tensorvault.Exec.Bitmap.{Bitmap, byte_of, place_of, get, set_bit}

pub byte_of_lem : (i : ℕ) → byte_of i ≡ i / 8
unfolding shift_right
byte_of_lem i = omega arith

pub place_of_lem : (i : ℕ) → place_of i ≡ i % 8
place_of_lem i = bit_and_low 3 i

≢_of-== : (a b : ℕ) → (a == b) ≡ false → a ≢ b
≢_of-== a b d = ground (arith, d)

-- The digit of a row
abbrev pub row_digit : ℕ → List ℕ → ℕ
row_digit i bits = digit (place_of i) (get_or bits (byte_of i) 0)

pub get_lem : (i : ℕ) (b : Bitmap) → get i b ≡ (row_digit i b.bits == 1)
unfolding get digit
get_lem i b = ground (arith, bit_and-one (shift_right (place_of i) (get_or b.bits (byte_of i) 0)))

same_row : (i j : ℕ) → byte_of i ≡ byte_of j → place_of i ≡ place_of j → i ≡ j
same_row i j a b = omega (arith, byte_of_lem i, byte_of_lem j, place_of_lem i, place_of_lem j, a, b)

row_digit-set_same :
    (i : ℕ) (bits : List ℕ)
    → byte_of i < length bits
    → row_digit i (set bits (byte_of i) (bit_or (get_or bits (byte_of i) 0) (2 ^ place_of i))) ≡ 1
row_digit-set_same i bits h =
    rw
      (
        get_or-set bits (byte_of i) (bit_or (get_or bits (byte_of i) 0) (2 ^ place_of i)) 0 h,
        digit-bit_or (place_of i) (get_or bits (byte_of i) 0) (2 ^ place_of i),
        digit-pow_same (place_of i),
      )
      (omega (arith, digit-le_one (place_of i) (get_or bits (byte_of i) 0)))

row_digit-set_other :
    (i j : ℕ) (bits : List ℕ)
    → byte_of i < length bits
    → i ≢ j
    → row_digit j (set bits (byte_of i) (bit_or (get_or bits (byte_of i) 0) (2 ^ place_of i)))
      ≡ row_digit j bits
row_digit-set_other i j bits h n = elim (Bool-cases (byte_of i == byte_of j)) [
  | inl e ↦
      let there : byte_of i ≡ byte_of j = (==_iff (byte_of i) (byte_of j)).0 e in
      let apart : place_of j ≢ place_of i = λ p. n (same_row i j there (sym p)) in
      let v = bit_or (get_or bits (byte_of i) 0) (2 ^ place_of i) in
      subst
        (λ k.
          digit (place_of j) (get_or (set bits (byte_of i) v) k 0)
          ≡ digit (place_of j) (get_or bits k 0))
        there
        (rw
          (
            get_or-set bits (byte_of i) v 0 h,
            digit-bit_or (place_of j) (get_or bits (byte_of i) 0) (2 ^ place_of i),
            digit-pow_other (place_of j) (place_of i) apart,
          )
          (omega arith))
  | inr d ↦
      ap (digit (place_of j))
        (get_or-set_other bits (byte_of i) (byte_of j) _ 0 (≢_of-== (byte_of i) (byte_of j) d))
]

-- A bit that is set is read as set, and every other is read as before.
pub get-set_bit :
    (i j : ℕ) (b : Bitmap)
    → byte_of i < length b.bits
    → get j (set_bit i b) ≡ (if i == j then true else get j b)
unfolding set_bit
get-set_bit i j b h = elim (Bool-cases (i == j)) [
  | inl e ↦
      let same : i ≡ j = (==_iff i j).0 e in
      rw e (
        get_lem j (set_bit i b)
        ∙ subst (λ k. (row_digit k (set_bit i b).bits == 1) ≡ true) same
            ((==_iff (row_digit i (set_bit i b).bits) 1).1 (row_digit-set_same i b.bits h)))
  | inr d ↦ rw d (
      get_lem j (set_bit i b)
      ∙ ap (λ k. k == 1) (row_digit-set_other i j b.bits h (≢_of-== i j d))
      ∙ sym (get_lem j b))
]

pub length-set_bit : (i : ℕ) (b : Bitmap) → length (set_bit i b).bits ≡ length b.bits
unfolding set_bit
length-set_bit i b = length-set b.bits (byte_of i) _
