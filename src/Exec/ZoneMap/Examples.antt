-- ===== src/Exec/ZoneMap/Examples.antt =====
-- A column of three rows.
use tensorvault.Prelude.{ℕ, ◌≤◌, ◌<◌, ◌/◌, refl, List, [], ◌∷◌, arith}
use tensorvault.Prelude.Forall.{In}
use tensorvault.Exec.ZoneMap.{build, page_size, pages_in_range, page_row_range}
use tensorvault.Exec.ZoneMap.Skips.{row_not_skipped}

abbrev column : List ℕ
column = 40 ∷ 70 ∷ 10 ∷ []

row_not_skipped_example :
    In (1 / page_size) (pages_in_range (build column) 60 80)
    × ((page_row_range (build column) (1 / page_size)).0 ≤ 1)
    × (1 < (page_row_range (build column) (1 / page_size)).1)
row_not_skipped_example = row_not_skipped column 1 70 60 80 refl (omega arith) (omega arith)
