-- ===== src/Exec/ZoneMap.antt =====
-- src/exec/zone_map.rs: the smallest and the largest value of each page of a column, and the pages
-- that a scan reads. A column fits in memory, so sums of row numbers do not overflow.
pub mod Skips
mod Examples
use tensorvault.Prelude.{
  ℕ, zero, suc, ◌+◌, ◌-◌, ◌*◌, ◌/◌, min, ltb, leb, if◌then◌else◌, Bool, true, false, ◌&&◌, Option,
  none, some, List, [], ◌∷◌, length, get_elem?, get_or, take, drop, u64_mod,
}

-- `PAGE_SIZE`
abbrev pub page_size : ℕ
page_size = 1024

pub record ZoneMap : Type 0 where
  pub mins : List ℕ
  pub maxs : List ℕ
  pub num_pages : ℕ
  pub total_rows : ℕ

-- The inner loop of `build` on the rows of a page, from the values so far.
unfoldable pub page_min : List ℕ → ℕ → ℕ
page_min [] m = m
page_min (v ∷ vs) m = page_min vs (if ltb v m then v else m)

unfoldable pub page_max : List ℕ → ℕ → ℕ
page_max [] m = m
page_max (v ∷ vs) m = page_max vs (if ltb m v then v else m)

-- `col[i]` for `i` in `start..end` of a page
unfoldable pub page_rows : List ℕ → ℕ → List ℕ
page_rows col page_idx =
    let start = page_idx * page_size in
    take (min (start + page_size) (length col) - start) (drop start col)

-- The outer loop of `build`, with the number of pages to go.
unfoldable pub mins_from : ℕ → ℕ → List ℕ → List ℕ
mins_from zero page_idx col = []
mins_from (suc n) page_idx col =
    page_min (page_rows col page_idx) (u64_mod - 1) ∷ mins_from n (page_idx + 1) col

unfoldable pub maxs_from : ℕ → ℕ → List ℕ → List ℕ
maxs_from zero page_idx col = []
maxs_from (suc n) page_idx col =
    page_max (page_rows col page_idx) 0 ∷ maxs_from n (page_idx + 1) col

unfoldable pub build : List ℕ → ZoneMap
unfolding mins_from maxs_from
build col =
    let num_pages = (length col + page_size - 1) / page_size in
    record {
      mins = mins_from num_pages 0 col;
      maxs = maxs_from num_pages 0 col;
      num_pages = num_pages;
      total_rows = length col;
    }

unfoldable pub page_might_contain_range : ZoneMap → ℕ → ℕ → ℕ → Bool
page_might_contain_range z page_idx lo hi =
    if leb z.num_pages page_idx
    then false
    else leb lo (get_or z.maxs page_idx 0) && leb (get_or z.mins page_idx 0) hi

unfoldable pub page_might_contain_value : ZoneMap → ℕ → ℕ → Bool
page_might_contain_value z page_idx val =
    if leb z.num_pages page_idx
    then false
    else leb (get_or z.mins page_idx 0) val && leb val (get_or z.maxs page_idx 0)

-- The loop of `pages_in_range`, with the number of pages to go.
unfoldable pub pages_from : ℕ → ℕ → ZoneMap → ℕ → ℕ → List ℕ
pages_from zero i z lo hi = []
pages_from (suc n) i z lo hi =
    let rest = pages_from n (i + 1) z lo hi in
    if page_might_contain_range z i lo hi then i ∷ rest else rest

unfoldable pub pages_in_range : ZoneMap → ℕ → ℕ → List ℕ
pages_in_range z lo hi = pages_from z.num_pages 0 z lo hi

unfoldable pub page_row_range : ZoneMap → ℕ → ℕ × ℕ
page_row_range z page_idx =
    let start = page_idx * page_size in (start, min (start + page_size) z.total_rows)
