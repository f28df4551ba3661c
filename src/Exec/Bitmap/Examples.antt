-- ===== src/Exec/Bitmap/Examples.antt =====
-- Bitmaps of few rows.
use tensorvault.Prelude.{
  ℕ, ◌≡◌, refl, min, not, ◌&&◌, ◌||◌, ltb, leb, ◌==◌, if◌then◌else◌, Bool, true, false, List, [],
  ◌∷◌, map, length,
}
use tensorvault.Prelude.Ints.{negsuc, as_i64, ltb_ℤ}
use tensorvault.Exec.Bitmap.{
  Bitmap, get, and, or, byte_of, invert, all_ones, flip_bytes, change_last, count, sum_ones,
  to_bool_vec, from_bool_slice, filter_eq_u64, filter_ne_u64, filter_lt_u64, filter_gt_u64,
  filter_le_u64, filter_ge_u64, filter_lt_i64, filter_gt_i64, filter_le_i64, filter_ge_i64,
}
use tensorvault.Prelude.Bits.{count_ones}
use tensorvault.Prelude.Masks.{shift_right}
use tensorvault.Exec.Bitmap.Algebra.{and-or_rows}
use tensorvault.Exec.Bitmap.Packed.{to_bool_vec-filters}

-- Rows 0, 2 and 9 of 10, and row 1 of 3
abbrev long : Bitmap
long = record { bits = 5 ∷ 2 ∷ []; len = 10 }

abbrev short : Bitmap
short = record { bits = 2 ∷ []; len = 3 }

flipped : (invert short).bits ≡ 5 ∷ []
unfolding invert flip_bytes change_last
flipped = refl

ten_ones : count (all_ones 10) ≡ 10
unfolding count all_ones sum_ones count_ones change_last shift_right
ten_ones = refl

-- Row 9 of the longer bitmap is lost.
and-or_rows_example :
    (get 9 (and long short) ≡ (get 9 long && get 9 short))
    × (get 9 (or long short) ≡ (
        if ltb (byte_of 9) (min (length long.bits) (length short.bits))
        then get 9 long || get 9 short
        else false))
and-or_rows_example = and-or_rows long short 9 refl refl

abbrev cells : List ℕ
cells = 7 ∷ 18446744073709551615 ∷ 3 ∷ []

abbrev marks : List Bool
marks = true ∷ false ∷ true ∷ []

to_bool_vec-filters_example :
    (to_bool_vec (from_bool_slice marks) ≡ map (λ x. x) marks)
    × (to_bool_vec (filter_eq_u64 cells 3) ≡ map (λ c. c == 3) cells)
    × (to_bool_vec (filter_ne_u64 cells 3) ≡ map (λ c. not (c == 3)) cells)
    × (to_bool_vec (filter_lt_u64 cells 3) ≡ map (λ c. ltb c 3) cells)
    × (to_bool_vec (filter_gt_u64 cells 3) ≡ map (λ c. ltb 3 c) cells)
    × (to_bool_vec (filter_le_u64 cells 3) ≡ map (λ c. leb c 3) cells)
    × (to_bool_vec (filter_ge_u64 cells 3) ≡ map (λ c. leb 3 c) cells)
    × (to_bool_vec (filter_lt_i64 cells (negsuc 0)) ≡ map (λ c. ltb_ℤ (as_i64 c) (negsuc 0)) cells)
    × (to_bool_vec (filter_gt_i64 cells (negsuc 0)) ≡ map (λ c. ltb_ℤ (negsuc 0) (as_i64 c)) cells)
    × (to_bool_vec (filter_le_i64 cells (negsuc 0))
        ≡ map (λ c. not (ltb_ℤ (negsuc 0) (as_i64 c))) cells)
    × (to_bool_vec (filter_ge_i64 cells (negsuc 0))
        ≡ map (λ c. not (ltb_ℤ (as_i64 c) (negsuc 0))) cells)
to_bool_vec-filters_example = to_bool_vec-filters marks cells 3 (negsuc 0)
