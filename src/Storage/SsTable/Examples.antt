-- ===== src/Storage/SsTable/Examples.antt =====
-- The table of two pages, and a table whose index is missing.
use tensorvault.Prelude.{
  ℕ, zero, suc, ◌<◌, ◌≤◌, ap, ◌≡◌, refl, none, List, [], ◌∷◌, length, replicate, length-replicate,
  arith,
}
use tensorvault.Storage.Page.{Page, new}
use native.Mathlib.Nat.{le_refl}
use tensorvault.Storage.Bytes.{from_le_bytes}
use tensorvault.Storage.Page.Layout.{IsPage, replicate-IsByte, new-IsPage}
use tensorvault.Storage.SsTable.{
  SsTableReader, create, finish, open_table, binary_search, search_from, one_less,
}
use tensorvault.Storage.SsTable.Written.{write_all}
use tensorvault.Storage.SsTable.Search.{IsEnded, binary_search-IsEnded}
use tensorvault.Storage.SsTable.Reads.{key_of}
use tensorvault.Storage.SsTable.Opened.{
  cells_of, HasPages, FindsFloor, open_table-finish, binary_search-finish,
}

-- A page whose first cell is 7.
abbrev seven : Page
seven = record { header = new.header; cells = 7 ∷ replicate 4031 0 }

seven-IsPage : IsPage seven
seven-IsPage = (
  new-IsPage.0,
  ap suc (length-replicate {A = ℕ} 4031 0),
  (omega arith, replicate-IsByte 4031 0 (omega arith)),
)

abbrev pages : List Page
pages = new ∷ seven ∷ []

open_table-finish_example :
    HasPages pages (open_table (finish (write_all pages create)).1)
    × ((finish (write_all pages create)).0 ≡ length (finish (write_all pages create)).1)
open_table-finish_example = open_table-finish pages (new-IsPage, (seven-IsPage, tt)) (omega arith)

new_key : key_of new ≡ 0
unfolding new from_le_bytes
new_key = refl

seven_key : key_of seven ≡ 7
unfolding from_le_bytes
seven_key = refl

in_order : (i j : ℕ) → i ≤ j → j < 2 → cells_of pages i ≤ cells_of pages j
in_order zero zero h l = le_refl (key_of new)
in_order zero (suc zero) h l = omega (arith, new_key, seven_key)
in_order (suc zero) zero h l = absurd (omega arith)
in_order (suc zero) (suc zero) h l = le_refl (key_of seven)
in_order i (suc (suc j)) h l = absurd (omega arith)
in_order (suc (suc i)) j h l = absurd (omega arith)

binary_search-finish_example : FindsFloor pages 5 (open_table (finish (write_all pages create)).1)
binary_search-finish_example =
    binary_search-finish pages 5 (new-IsPage, (seven-IsPage, tt)) (omega arith) in_order

-- A table whose index is missing.
abbrev damaged : SsTableReader
damaged = record { mmap = []; page_count = 3; index_offset = 0 }

binary_search-IsEnded_example :
    (binary_search 5 damaged ≡ search_from 2 5 0 (one_less 3) none damaged)
    × IsEnded (binary_search 5 damaged)
binary_search-IsEnded_example = binary_search-IsEnded damaged 5 2 (omega arith) (omega arith)
