-- ===== src/Exec/BloomFilter/SetBits.antt =====
-- `set_bit`, `test_bit` and the loops over them.
use Prim.Native.Nat.{bit_and, bit_or}
use tensorvault.Prelude.{
  ℕ, zero, suc, ◌+◌, ◌%◌, ◌^◌, ◌<◌, ◌≡◌, refl, sym, ◌==◌, ==_iff, u64_mod, true, Bool-cases, inl,
  inr, List, [], ◌∷◌, length, length-set, get_or, set, if◌then◌else◌, arith,
}
use mathlib.Core.Path.{subst}
use tensorvault.Prelude.Masks.{shift_right, digit_added, digit_kept, bit_and-mask, bit_and-one}
use tensorvault.Exec.BloomFilter.{BloomFilter, set_bit, test_bit, set_bits, test_bits}

-- Every word that the mask leaves is a word of the filter.
abbrev pub IsFilter : BloomFilter → Type 0
IsFilter f = f.word_mask < length f.bits

abbrev word_of : ℕ → BloomFilter → ℕ
word_of bit f = bit_and (shift_right 6 bit) f.word_mask

abbrev digit_of : ℕ → ℕ → ℕ
digit_of bit word = shift_right (bit_and bit 63) word % 2

test_bit_lem :
    (bit : ℕ) (f : BloomFilter)
    → digit_of bit (get_or f.bits (word_of bit f) 0) ≡ 1
    → test_bit bit f ≡ true
unfolding test_bit
test_bit_lem bit f h =
    rw (bit_and-one (shift_right (bit_and bit 63) (get_or f.bits (word_of bit f) 0)), h) refl

test_bit_digit :
    (bit : ℕ) (f : BloomFilter)
    → test_bit bit f ≡ true
    → digit_of bit (get_or f.bits (word_of bit f) 0) ≡ 1
unfolding test_bit
test_bit_digit bit f h =
    ground (arith, h, bit_and-one (shift_right (bit_and bit 63) (get_or f.bits (word_of bit f) 0)))

get_or-set :
    (xs : List ℕ) (i j v : ℕ)
    → i < length xs
    → get_or (set xs i v) j 0 ≡ (if i == j then v else get_or xs j 0)
get_or-set [] i j v h = absurd (omega arith)
get_or-set (x ∷ xs) zero zero v h = refl
get_or-set (x ∷ xs) zero (suc j) v h = ground arith
get_or-set (x ∷ xs) (suc i) zero v h = ground arith
get_or-set (x ∷ xs) (suc i) (suc j) v h = ground (arith, get_or-set xs i j v (omega arith))

set_bit-IsFilter : (b : ℕ) (f : BloomFilter) → IsFilter f → IsFilter (set_bit b f)
unfolding set_bit
set_bit-IsFilter b f w = omega (
  arith,
  w,
  length-set f.bits (word_of b f) (bit_or (get_or f.bits (word_of b f) 0) (2 ^ bit_and b 63)),
)

inside : (b : ℕ) (f : BloomFilter) → IsFilter f → word_of b f < length f.bits
inside b f w = omega (arith, w, bit_and-mask (shift_right 6 b) f.word_mask)

-- The word `j` behind `set_bit b`.
get_or-set_bit :
    (b j : ℕ) (f : BloomFilter)
    → IsFilter f
    → get_or (set_bit b f).bits j 0 ≡ (
        if word_of b f == j
        then bit_or (get_or f.bits (word_of b f) 0) (2 ^ bit_and b 63)
        else get_or f.bits j 0)
unfolding set_bit
get_or-set_bit b j f w =
    get_or-set f.bits (word_of b f) j (bit_or (get_or f.bits (word_of b f) 0) (2 ^ bit_and b 63))
      (inside b f w)

same_word : (b c : ℕ) (f : BloomFilter) → word_of c (set_bit b f) ≡ word_of c f
unfolding set_bit
same_word b c f = refl

test_bit-set_bit : (b : ℕ) (f : BloomFilter) → IsFilter f → test_bit b (set_bit b f) ≡ true
test_bit-set_bit b f w = test_bit_lem b (set_bit b f) (
    rw
      (
        same_word b b f,
        get_or-set_bit b (word_of b f) f w,
        (==_iff (word_of b f) (word_of b f)).1 refl,
      )
      (digit_added (bit_and b 63) (get_or f.bits (word_of b f) 0)))

test_bit_kept :
    (b c : ℕ) (f : BloomFilter) → IsFilter f → test_bit c f ≡ true → test_bit c (set_bit b f) ≡ true
test_bit_kept b c f w h =
    let was = test_bit_digit c f h in
    test_bit_lem c (set_bit b f) (elim (Bool-cases (word_of b f == word_of c f)) [
      | inl e ↦
          let same : word_of c f ≡ word_of b f = sym ((==_iff (word_of b f) (word_of c f)).0 e) in
          rw (same_word b c f, get_or-set_bit b (word_of c f) f w, e)
            (digit_kept (bit_and c 63) (get_or f.bits (word_of b f) 0) (2 ^ bit_and b 63)
              (subst (λ i. digit_of c (get_or f.bits i 0) ≡ 1) same was))
      | inr n ↦ rw (same_word b c f, get_or-set_bit b (word_of c f) f w, n) was
    ])

pub set_bits-IsFilter :
    (n h2 bit : ℕ) (f : BloomFilter) → IsFilter f → IsFilter (set_bits n h2 bit f)
unfolding set_bits
set_bits-IsFilter zero h2 bit f w = w
set_bits-IsFilter (suc n) h2 bit f w =
    set_bits-IsFilter n h2 ((bit + h2) % u64_mod) (set_bit bit f) (set_bit-IsFilter bit f w)

set_bits_kept :
    (n h2 bit c : ℕ) (f : BloomFilter)
    → IsFilter f
    → test_bit c f ≡ true
    → test_bit c (set_bits n h2 bit f) ≡ true
unfolding set_bits
set_bits_kept zero h2 bit c f w h = h
set_bits_kept (suc n) h2 bit c f w h =
    set_bits_kept n h2 ((bit + h2) % u64_mod) c (set_bit bit f) (set_bit-IsFilter bit f w)
      (test_bit_kept bit c f w h)

-- The bits of a key, from `bit` on.
unfoldable pub HasBits : ℕ → ℕ → ℕ → BloomFilter → Type 0
HasBits zero h2 bit f = Unit
HasBits (suc n) h2 bit f = (test_bit bit f ≡ true) × HasBits n h2 ((bit + h2) % u64_mod) f

pub set_bits-HasBits :
    (n h2 bit : ℕ) (f : BloomFilter) → IsFilter f → HasBits n h2 bit (set_bits n h2 bit f)
unfolding HasBits set_bits
set_bits-HasBits zero h2 bit f w = tt
set_bits-HasBits (suc n) h2 bit f w =
    let g = set_bit bit f in
    (
      set_bits_kept n h2 ((bit + h2) % u64_mod) bit g (set_bit-IsFilter bit f w)
          (test_bit-set_bit bit f w),
      set_bits-HasBits n h2 ((bit + h2) % u64_mod) g (set_bit-IsFilter bit f w),
    )

pub HasBits-kept :
    (m k start n h2 bit : ℕ) (f : BloomFilter)
    → IsFilter f
    → HasBits n h2 bit f
    → HasBits n h2 bit (set_bits m k start f)
unfolding HasBits
HasBits-kept m k start zero h2 bit f w h = tt
HasBits-kept m k start (suc n) h2 bit f w h = (
  set_bits_kept m k start bit f w h.0,
  HasBits-kept m k start n h2 ((bit + h2) % u64_mod) f w h.1,
)

pub test_bits-HasBits :
    (n h2 bit : ℕ) (f : BloomFilter) → HasBits n h2 bit f → test_bits n h2 bit f ≡ true
unfolding HasBits test_bits
test_bits-HasBits zero h2 bit f h = refl
test_bits-HasBits (suc n) h2 bit f h = rw h.0 (test_bits-HasBits n h2 ((bit + h2) % u64_mod) f h.1)

pub same_count : (n h2 bit : ℕ) (f : BloomFilter) → (set_bits n h2 bit f).num_hashes ≡ f.num_hashes
unfolding set_bits set_bit
same_count zero h2 bit f = refl
same_count (suc n) h2 bit f = same_count n h2 ((bit + h2) % u64_mod) (set_bit bit f)
