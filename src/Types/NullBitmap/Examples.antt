-- ===== src/Types/NullBitmap/Examples.antt =====
-- Bitmaps of 70 rows.
use tensorvault.Prelude.{◌≡◌, refl, true, false}
use tensorvault.Prelude.Bits.{count_ones}
use tensorvault.Types.NullBitmap.{
  new_none_null, new_all_null, set_null, clear_null, count_nulls, sum_ones,
}
use tensorvault.Types.NullBitmap.Rows.{Marked, set_null-Marked}

all_seventy : count_nulls (new_all_null 70) ≡ 70
unfolding count_nulls new_all_null sum_ones count_ones
all_seventy = refl

set_null-Marked_example :
    Marked 65 true (new_none_null 70) (set_null 65 (new_none_null 70))
    × Marked 65 false (new_none_null 70) (clear_null 65 (new_none_null 70))
unfolding new_none_null
set_null-Marked_example = set_null-Marked (new_none_null 70) 65 refl
