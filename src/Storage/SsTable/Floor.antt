-- ===== src/Storage/SsTable/Floor.antt =====
-- `binary_search` on sorted pages.
use tensorvault.Prelude.{
  ℕ, zero, suc, ◌+◌, ◌^◌, ◌≤◌, ◌<◌, ◌≡◌, leb, Option, none, some, arith, inl, inr, Bool-cases,
  leb→le,
}
use tensorvault.Prelude.Results.{Result, ok, err}
use tensorvault.Storage.SsTable.{SsTableReader, TableError, first_cell, binary_search}
use tensorvault.Storage.SsTable.Range.{search_range, order_cases, search_range_done}
use tensorvault.Storage.SsTable.Search.{
  middle, beyond, round_upper, round_lower, upper_half, lower_half, middle-bounds,
  binary_search-search_range,
}

-- The result of a search in which the first `m` pages are known not to be behind the key.
abbrev pub before : ℕ → Option ℕ
before zero = none
before (suc m) = some m

-- The pages of a table are sorted by their first cells, which `cells` gives.
abbrev pub IsSorted : SsTableReader → (ℕ → ℕ) → Type 0
IsSorted r cells =
    ((i : ℕ) → i < r.page_count → first_cell i r ≡ ok (some (cells i)))
    × ((i j : ℕ) → i ≤ j → j < r.page_count → cells i ≤ cells j)

-- The last page whose first cell is not behind the key, and none if there is no such page.
pub IsFloor : ℕ → ℕ → (ℕ → ℕ) → Result (Option ℕ) TableError → Type 0
IsFloor key n cells (ok none) = (i : ℕ) → i < n → key < cells i
IsFloor key n cells (ok (some m)) =
    (m < n) × (cells m ≤ key) × ((i : ℕ) → m < i → i < n → key < cells i)
IsFloor key n cells (err e) = ⊥

module _ (r : SsTableReader) (key : ℕ) (cells : ℕ → ℕ) (w : IsSorted r cells) where
  before-IsFloor :
      (lo : ℕ)
      → lo ≤ r.page_count
      → ((i : ℕ) → i < lo → cells i ≤ key)
      → ((i : ℕ) → lo ≤ i → i < r.page_count → key < cells i)
      → IsFloor key r.page_count cells (ok (before lo))
  unfolding IsFloor
  before-IsFloor zero l a b = λ i h. b i (omega arith) h
  before-IsFloor (suc lo) l a b = (omega arith, a lo (omega arith), λ i g h. b i (omega arith) h)

  search_range-IsFloor :
      (k lo stop : ℕ)
      → stop < lo + 2 ^ k
      → lo ≤ stop
      → stop ≤ r.page_count
      → ((i : ℕ) → i < lo → cells i ≤ key)
      → ((i : ℕ) → stop ≤ i → i < r.page_count → key < cells i)
      → IsFloor key r.page_count cells (search_range k key lo stop (before lo) r)
  search_range-IsFloor zero lo stop h l n a b =
      rw (search_range_done zero key lo stop (before lo) r (omega arith))
        (before-IsFloor lo (omega arith) a (λ i g. b i (omega arith)))
  search_range-IsFloor (suc k) lo stop h l n a b = elim (order_cases lo stop) [
    | inr d ↦
        rw (search_range_done (suc k) key lo stop (before lo) r d)
          (before-IsFloor lo (omega arith) a (λ i g. b i (omega arith)))
    | inl u ↦
        let mid : ℕ = middle lo stop in
        let c : ℕ = cells mid in
        let m = middle-bounds r key lo stop u in
        let e : first_cell mid r ≡ ok (some c) = w.0 mid (omega (arith, m)) in
        elim (Bool-cases (leb c key)) [
          | inl t ↦ rw (round_upper r key k lo stop c (before lo) u e t) (
              search_range-IsFloor k (suc mid) stop (upper_half r key k lo stop u h)
                (omega (arith, m)) n
                (λ i g. omega (arith, w.1 i mid (omega arith) (omega (arith, m)), leb→le c key t))
                b)
          | inr f ↦ rw (round_lower r key k lo stop c (before lo) u e f) (
              search_range-IsFloor k lo mid (lower_half r key k lo stop u h) m.0 (omega (arith, m))
                a (λ i g q. omega (arith, w.1 mid i g q, beyond c key f)))
        ]
  ]

-- On a table whose pages are sorted by their first cells, `binary_search` finds the last page whose
-- first cell is not behind the key, and none when the first page is behind it or there is no page.
pub binary_search-IsFloor :
    (r : SsTableReader) (key : ℕ) (cells : ℕ → ℕ)
    → IsSorted r cells
    → r.page_count ≤ 2 ^ 62
    → IsFloor key r.page_count cells (binary_search key r)
binary_search-IsFloor r key cells w h =
    rw (binary_search-search_range r key 64 (omega arith) (omega arith) h) (
      search_range-IsFloor r key cells w 64 0 r.page_count (omega arith) (omega arith) (omega arith)
        (λ i g. absurd (omega arith)) (λ i g q. absurd (omega arith)))
