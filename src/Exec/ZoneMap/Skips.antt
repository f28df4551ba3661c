-- ===== src/Exec/ZoneMap/Skips.antt =====
-- A scan that reads the pages of the zone map misses no row.
use tensorvault.Prelude.{
  ℕ, zero, suc, ◌+◌, ◌-◌, ◌*◌, ◌/◌, ◌%◌, ◌≤◌, ◌<◌, ◌≡◌, ap, ◌∙◌, min, true, false, ltb,
  if◌then◌else◌, some, List, [], ◌∷◌, length, get_elem?, get_or, arith, u64_mod, get_elem?-drop,
  get_elem?-take, get_elem?-bound, drop, ◌==◌, Bool-cases, inl, inr, Bool,
}
use tensorvault.Prelude.Forall.{In}
use tensorvault.Exec.ZoneMap.{
  ZoneMap, page_size, page_min, page_max, page_rows, mins_from, maxs_from, build,
  page_might_contain_range, pages_from, pages_in_range, page_row_range,
}

page_min_below : (vs : List ℕ) (m : ℕ) → page_min vs m ≤ m
unfolding page_min
page_min_below [] m = omega arith
page_min_below (v ∷ vs) m = ground (arith, page_min_below vs v, page_min_below vs m)

page_max_above : (vs : List ℕ) (m : ℕ) → m ≤ page_max vs m
unfolding page_max
page_max_above [] m = omega arith
page_max_above (v ∷ vs) m = ground (arith, page_max_above vs v, page_max_above vs m)

page_min_le : (vs : List ℕ) (m j v : ℕ) → get_elem? vs j ≡ some v → page_min vs m ≤ v
unfolding page_min
page_min_le [] m j v h = ground arith
page_min_le (x ∷ vs) m zero v h = ground (arith, page_min_below vs x, page_min_below vs m)
page_min_le (x ∷ vs) m (suc j) v h = page_min_le vs (if ltb x m then x else m) j v h

le_page_max : (vs : List ℕ) (m j v : ℕ) → get_elem? vs j ≡ some v → v ≤ page_max vs m
unfolding page_max
le_page_max [] m j v h = ground arith
le_page_max (x ∷ vs) m zero v h = ground (arith, page_max_above vs x, page_max_above vs m)
le_page_max (x ∷ vs) m (suc j) v h = le_page_max vs (if ltb m x then x else m) j v h

get_or-mins_from :
    (n k i : ℕ) (col : List ℕ)
    → k < n
    → get_or (mins_from n i col) k 0 ≡ page_min (page_rows col (i + k)) (u64_mod - 1)
unfolding mins_from
get_or-mins_from zero k i col h = absurd (omega arith)
get_or-mins_from (suc n) zero i col h =
    ap (λ p. page_min (page_rows col p) (u64_mod - 1)) (omega arith)
get_or-mins_from (suc n) (suc k) i col h =
    get_or-mins_from n k (i + 1) col (omega arith)
    ∙ ap (λ p. page_min (page_rows col p) (u64_mod - 1)) (omega arith)

get_or-maxs_from :
    (n k i : ℕ) (col : List ℕ)
    → k < n
    → get_or (maxs_from n i col) k 0 ≡ page_max (page_rows col (i + k)) 0
unfolding maxs_from
get_or-maxs_from zero k i col h = absurd (omega arith)
get_or-maxs_from (suc n) zero i col h = ap (λ p. page_max (page_rows col p) 0) (omega arith)
get_or-maxs_from (suc n) (suc k) i col h =
    get_or-maxs_from n k (i + 1) col (omega arith)
    ∙ ap (λ p. page_max (page_rows col p) 0) (omega arith)

-- Row i is row i % 1024 of page i / 1024.
row_in_page :
    (col : List ℕ) (i v : ℕ)
    → get_elem? col i ≡ some v
    → get_elem? (page_rows col (i / page_size)) (i % page_size) ≡ some v
unfolding page_rows
row_in_page col i v h =
    let start = i / page_size * page_size in
    let bound = get_elem?-bound col i v h in
    get_elem?-take (min (start + page_size) (length col) - start) (i % page_size) (drop start col)
      (omega arith)
    ∙ (get_elem?-drop start (i % page_size) col ∙ (ap (get_elem? col) (omega arith) ∙ h))

In-keep : (b : Bool) (i p : ℕ) (rest : List ℕ) → In p rest → In p (if b then i ∷ rest else rest)
In-keep true i p rest h = inr h
In-keep false i p rest h = h

pages_from_hit :
    (n i p : ℕ) (z : ZoneMap) (lo hi : ℕ)
    → i ≤ p
    → p < i + n
    → page_might_contain_range z p lo hi ≡ true
    → In p (pages_from n i z lo hi)
unfolding pages_from
pages_from_hit zero i p z lo hi l u h = absurd (omega arith)
pages_from_hit (suc n) i p z lo hi l u h = elim (Bool-cases (i == p)) [
  | inl here ↦
      let same : i ≡ p = ground arith in
      rw (ap (λ q. page_might_contain_range z q lo hi) same ∙ h) (inl same)
  | inr later ↦
      In-keep (page_might_contain_range z i lo hi) i p (pages_from n (i + 1) z lo hi)
        (pages_from_hit n (i + 1) p z lo hi (ground arith) (omega arith) h)
]

-- A row whose value is in the range [lo, hi] lies in a page that `pages_in_range` lists, and inside
-- that page's row range.
pub row_not_skipped :
    (col : List ℕ) (i v lo hi : ℕ)
    → get_elem? col i ≡ some v
    → lo ≤ v
    → v ≤ hi
    → In (i / page_size) (pages_in_range (build col) lo hi)
      × ((page_row_range (build col) (i / page_size)).0 ≤ i)
      × (i < (page_row_range (build col) (i / page_size)).1)
unfolding pages_in_range build page_might_contain_range page_row_range
row_not_skipped col i v lo hi h l u =
    let bound = get_elem?-bound col i v h in
    let p = i / page_size in
    let n = (length col + page_size - 1) / page_size in
    let page : 0 + p ≡ p = omega arith in
    let low : get_or (build col).mins p 0 ≤ v =
      rw (get_or-mins_from n p 0 col (omega arith), page)
        (page_min_le (page_rows col p) (u64_mod - 1) (i % page_size) v (row_in_page col i v h)) in
    let high : v ≤ get_or (build col).maxs p 0 =
      rw (get_or-maxs_from n p 0 col (omega arith), page)
        (le_page_max (page_rows col p) 0 (i % page_size) v (row_in_page col i v h)) in
    (
      pages_from_hit n 0 p (build col) lo hi (omega arith) (omega arith) (ground arith),
      omega arith,
      omega arith,
    )
