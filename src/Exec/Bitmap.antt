-- ===== src/Exec/Bitmap.antt =====
-- src/exec/bitmap.rs: the packed bitmap of the filters, a byte for 8 rows, and the filters of a
-- column on a processor without AVX-512. A byte beyond the vector, where the source panics, is 0,
-- and a write there changes nothing.
pub mod Bit
pub mod Algebra
pub mod Packed
mod Examples
use Prim.Native.Nat.{bit_and, bit_or}
use tensorvault.Prelude.{
  ℕ, zero, suc, ◌+◌, ◌-◌, ◌*◌, ◌/◌, ◌%◌, ◌^◌, min, max, ltb, leb, ◌==◌, not, ◌&&◌, if◌then◌else◌,
  Bool, true, false, List, [], ◌∷◌, length, get_or, set, replicate,
}
use tensorvault.Prelude.Bits.{count_ones}
use tensorvault.Prelude.Masks.{shift_right}
use tensorvault.Prelude.Ints.{ℤ, as_i64, ltb_ℤ}

pub record Bitmap : Type 0 where
  pub bits : List ℕ
  pub len : ℕ

unfoldable pub new : ℕ → Bitmap
new len = record { bits = replicate ((len + 7) / 8) 0; len = len }

unfoldable pub is_empty : Bitmap → Bool
is_empty b = b.len == 0

-- The index of the byte of a row, and the place in it
abbrev pub byte_of : ℕ → ℕ
byte_of i = shift_right 3 i

abbrev pub place_of : ℕ → ℕ
place_of i = bit_and i 7

unfoldable pub set_bit : ℕ → Bitmap → Bitmap
set_bit i b = record b {
  bits = set b.bits (byte_of i) (bit_or (get_or b.bits (byte_of i) 0) (2 ^ place_of i));
}

unfoldable pub clear : ℕ → Bitmap → Bitmap
clear i b = record b {
  bits =
      set b.bits (byte_of i) (bit_and (get_or b.bits (byte_of i) 0) (2 ^ 8 - 1 - 2 ^ place_of i));
}

unfoldable pub get : ℕ → Bitmap → Bool
get i b = not (bit_and (shift_right (place_of i) (get_or b.bits (byte_of i) 0)) 1 == 0)

-- `out.bits[i] = f(a[i], b[i])` for the first `n` bytes
unfoldable pub combine : (ℕ → ℕ → ℕ) → ℕ → List ℕ → List ℕ → List ℕ → List ℕ
combine f zero xs ys out = out
combine f (suc n) (x ∷ xs) (y ∷ ys) (o ∷ out) = f x y ∷ combine f n xs ys out
combine f (suc n) _ _ out = out

unfoldable pub and : Bitmap → Bitmap → Bitmap
and a b =
    let out = new (min a.len b.len) in
    record out {
      bits = combine bit_and (min (length a.bits) (length b.bits)) a.bits b.bits out.bits;
    }

unfoldable pub or : Bitmap → Bitmap → Bitmap
or a b =
    let out = new (max a.len b.len) in
    record out {
      bits = combine bit_or (min (length a.bits) (length b.bits)) a.bits b.bits out.bits;
    }

unfoldable pub flip_bytes : List ℕ → List ℕ
flip_bytes [] = []
flip_bytes (x ∷ xs) = (2 ^ 8 - 1 - x) ∷ flip_bytes xs

-- A change of the last byte, if there is one
unfoldable pub change_last : (ℕ → ℕ) → List ℕ → List ℕ
change_last f [] = []
change_last f (x ∷ []) = f x ∷ []
change_last f (x ∷ y ∷ xs) = x ∷ change_last f (y ∷ xs)

-- The bits of the last byte that stand for no row
abbrev pub unused : ℕ → ℕ
unused len = bit_and (8 - bit_and len 7) 7

unfoldable pub all_ones : ℕ → Bitmap
all_ones len =
    let bits = replicate ((len + 7) / 8) 255 in
    record {
      bits =
          if ltb 0 (unused len) then change_last (λ a. shift_right (unused len) a) bits else bits;
      len = len;
    }

-- The loop writes a vector of as many bytes as `a` has.
unfoldable pub invert : Bitmap → Bitmap
invert a =
    let bits = flip_bytes a.bits in
    record {
      bits =
          if ltb 0 (unused a.len)
          then change_last (λ b. bit_and b (2 ^ (8 - unused a.len) - 1)) bits
          else bits;
      len = a.len;
    }

unfoldable pub sum_ones : List ℕ → ℕ
sum_ones [] = 0
sum_ones (x ∷ xs) = count_ones 8 x + sum_ones xs

unfoldable pub count : Bitmap → ℕ
count b = sum_ones b.bits

-- The rows from `i` on, with `n` to go
unfoldable pub bools_from : ℕ → ℕ → Bitmap → List Bool
bools_from zero i b = []
bools_from (suc n) i b = get i b ∷ bools_from n (suc i) b

unfoldable pub to_bool_vec : Bitmap → List Bool
to_bool_vec b = bools_from b.len 0 b

-- The loop over the rows from `i` on, which sets the bits of those that pass
unfoldable pub pack : {A : Type 0} → (A → Bool) → ℕ → List A → Bitmap → Bitmap
pack test i [] b = b
pack test i (x ∷ xs) b = pack test (suc i) xs (if test x then set_bit i b else b)

unfoldable pub from_bool_slice : List Bool → Bitmap
from_bool_slice bools = pack (λ x. x) 0 bools (new (length bools))

unfoldable pub filter_eq_u64 : List ℕ → ℕ → Bitmap
filter_eq_u64 col val = pack (λ c. c == val) 0 col (new (length col))

unfoldable pub filter_ne_u64 : List ℕ → ℕ → Bitmap
filter_ne_u64 col val = pack (λ c. not (c == val)) 0 col (new (length col))

unfoldable pub filter_lt_u64 : List ℕ → ℕ → Bitmap
filter_lt_u64 col val = pack (λ c. ltb c val) 0 col (new (length col))

unfoldable pub filter_gt_u64 : List ℕ → ℕ → Bitmap
filter_gt_u64 col val = pack (λ c. ltb val c) 0 col (new (length col))

unfoldable pub filter_le_u64 : List ℕ → ℕ → Bitmap
filter_le_u64 col val = pack (λ c. leb c val) 0 col (new (length col))

unfoldable pub filter_ge_u64 : List ℕ → ℕ → Bitmap
filter_ge_u64 col val = pack (λ c. leb val c) 0 col (new (length col))

unfoldable pub filter_lt_i64 : List ℕ → ℤ → Bitmap
filter_lt_i64 col val = pack (λ c. ltb_ℤ (as_i64 c) val) 0 col (new (length col))

unfoldable pub filter_gt_i64 : List ℕ → ℤ → Bitmap
filter_gt_i64 col val = pack (λ c. ltb_ℤ val (as_i64 c)) 0 col (new (length col))

unfoldable pub filter_le_i64 : List ℕ → ℤ → Bitmap
filter_le_i64 col val = pack (λ c. not (ltb_ℤ val (as_i64 c))) 0 col (new (length col))

unfoldable pub filter_ge_i64 : List ℕ → ℤ → Bitmap
filter_ge_i64 col val = pack (λ c. not (ltb_ℤ (as_i64 c) val)) 0 col (new (length col))
