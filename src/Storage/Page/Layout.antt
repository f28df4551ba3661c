-- ===== src/Storage/Page/Layout.antt =====
-- The bytes of a page and its cells.
use tensorvault.Prelude.{
  ℕ, zero, suc, ◌+◌, ◌-◌, ◌*◌, ◌^◌, ◌≤◌, ◌<◌, ◌≡◌, refl, ap, sym, ◌∙◌, ltb, ◌⊎◌, inl, inr,
  Bool-cases, ltb→lt, le→ltb, lt→ltb, Option, none, some, List, length, take, drop, replicate,
  length-replicate, arith, length-append,
}
use tensorvault.Prelude.Results.{Result, ok, err}
use tensorvault.Prelude.Forall.{All}
use tensorvault.Storage.Bytes.{
  to_le_bytes, from_le_bytes, length-to_le_bytes, from_le_bytes-to_le_bytes,
}
use tensorvault.Storage.Bytes.Blocks.{
  cut_first, cut_second, write_at, block, block_same, block_before, block_after,
}
use tensorvault.Storage.Page.{
  PageHeader, Page, PageError, page_size, header_size, page_cells, new, get_cell, set_cell,
  header_bytes, header_field, header_of, to_bytes, from_bytes,
}

abbrev pub IsWord : ℕ → Type 0
IsWord n = n < 2 ^ 64

abbrev pub IsByte : ℕ → Type 0
IsByte n = n < 256

abbrev pub IsHeader : PageHeader → Type 0
IsHeader h =
    IsWord h.page_type
    × IsWord h.tier_hint
    × IsWord h.homogeneity
    × IsWord h.row_count
    × IsWord h.checksum
    × IsWord h.predecessor
    × IsWord h.successor
    × IsWord h.parity

-- What the types of the source say of a page.
abbrev pub IsPage : Page → Type 0
IsPage p = IsHeader p.header × (length p.cells ≡ page_size - header_size) × All IsByte p.cells

pub word_bytes : (n : ℕ) → IsWord n → from_le_bytes (to_le_bytes 8 n) ≡ n
word_bytes n h = from_le_bytes-to_le_bytes 8 n h

pub length-header_bytes : (h : PageHeader) → length (header_bytes h) ≡ header_size
unfolding header_bytes to_le_bytes
length-header_bytes h = refl

header_of-header_bytes : (h : PageHeader) → IsHeader h → header_of (header_bytes h) ≡ h
unfolding header_of header_field header_bytes to_le_bytes
header_of-header_bytes h w = rw (
  word_bytes h.page_type w.0,
  word_bytes h.tier_hint w.1,
  word_bytes h.homogeneity w.2,
  word_bytes h.row_count w.3,
  word_bytes h.checksum w.4,
  word_bytes h.predecessor w.5,
  word_bytes h.successor w.6,
  word_bytes h.parity w.7,
)

pub length-to_bytes : (p : Page) → IsPage p → length (to_bytes p) ≡ page_size
unfolding to_bytes
length-to_bytes p w =
    omega (arith, w.1, length-append (header_bytes p.header) p.cells, length-header_bytes p.header)

from_bytes_full :
    (bytes : List ℕ)
    → page_size ≤ length bytes
    → from_bytes bytes
      ≡ ok (record {
        header = header_of (take header_size bytes);
        cells = drop header_size (take page_size bytes);
      })
unfolding from_bytes
from_bytes_full bytes h = rw (le→ltb (length bytes) page_size h) refl

abbrev page_ok : PageHeader → List ℕ → Result Page PageError
page_ok h c = ok (record { header = h; cells = c })

parsed : (h k : PageHeader) (c d : List ℕ) → h ≡ k → c ≡ d → page_ok h c ≡ page_ok k d
parsed h k c d e f = rw (e, f)

-- A page that is written and read again is the same page.
pub from_bytes-to_bytes : (p : Page) → IsPage p → from_bytes (to_bytes p) ≡ ok p
unfolding to_bytes
from_bytes-to_bytes p w =
    let short : header_size ≡ length (header_bytes p.header) = sym (length-header_bytes p.header) in
    from_bytes_full (to_bytes p) (omega (arith, length-to_bytes p w))
    ∙ parsed _ _ _ _
        (ap header_of (cut_first header_size (header_bytes p.header) p.cells short)
          ∙ header_of-header_bytes p.header w.0)
        (cut_second page_size header_size (header_bytes p.header) p.cells short
          (sym (length-to_bytes p w)))

-- A slice that is shorter than a page is an error that names its length.
pub from_bytes_short :
    (bytes : List ℕ)
    → length bytes < page_size
    → from_bytes bytes ≡ err (PageError.too_small (length bytes))
unfolding from_bytes
from_bytes_short bytes h = rw (lt→ltb (length bytes) page_size h) refl

set_cell_inside :
    (j v : ℕ) (p : Page)
    → j < page_cells
    → set_cell j v p
      ≡ some (record p { cells = write_at (j * 8) (j * 8 + 8) (to_le_bytes 8 v) p.cells })
unfolding set_cell
set_cell_inside j v p h = rw (lt→ltb j page_cells h) refl

get_cell_inside :
    (i : ℕ) (p : Page)
    → i < page_cells
    → get_cell i p ≡ some (from_le_bytes (block (i * 8) 8 p.cells))
unfolding get_cell
get_cell_inside i p h = rw (lt→ltb i page_cells h) refl

abbrev with_cell : ℕ → ℕ → Page → Page
with_cell j v p = record p { cells = write_at (j * 8) (j * 8 + 8) (to_le_bytes 8 v) p.cells }

same_cell :
    (j v : ℕ) (p : Page)
    → IsPage p
    → IsWord v
    → j < page_cells
    → get_cell j (with_cell j v p) ≡ some v
same_cell j v p w fits h =
    get_cell_inside j (with_cell j v p) h
    ∙ ap (λ t. some (from_le_bytes t))
        (block_same (j * 8) (j * 8 + 8) (to_le_bytes 8 v) p.cells (omega (arith, w.1)) (omega arith)
          8 (sym (length-to_le_bytes 8 v)))
    ∙ ap some (word_bytes v fits)

other_cell :
    (i j v : ℕ) (p : Page)
    → IsPage p
    → (i < j) ⊎ (j < i)
    → i < page_cells
    → j < page_cells
    → get_cell i (with_cell j v p) ≡ get_cell i p
other_cell i j v p w o hi hj =
    get_cell_inside i (with_cell j v p) hi
    ∙ ap (λ t. some (from_le_bytes t))
        (elim o [
          | inl l ↦
              block_before (i * 8) (j * 8) (j * 8 + 8) 8 (to_le_bytes 8 v) p.cells (omega arith)
                (omega (arith, w.1)) (omega arith)
          | inr g ↦
              block_after (i * 8) (j * 8) (j * 8 + 8) 8 (to_le_bytes 8 v) p.cells (omega arith)
                (omega (arith, length-to_le_bytes 8 v)) (omega (arith, w.1))
        ])
    ∙ sym (get_cell_inside i p hi)

-- A cell that is written has the value that was written, every other cell keeps its own, and an
-- index beyond the last cell fails, in `get_cell` and in `set_cell`.
pub CellIsSet : ℕ → ℕ → Page → Option Page → Type 0
CellIsSet j v p none = page_cells ≤ j
CellIsSet j v p (some q) =
    (j < page_cells)
    × (get_cell j q ≡ some v)
    × ((i : ℕ) → i < page_cells → (i < j) ⊎ (j < i) → get_cell i q ≡ get_cell i p)
    × (q.header ≡ p.header)

set_cell_outside : (j v : ℕ) (p : Page) → page_cells ≤ j → set_cell j v p ≡ none
unfolding set_cell
set_cell_outside j v p h = rw (le→ltb j page_cells h) refl

pub set_cell-CellIsSet :
    (j v : ℕ) (p : Page) → IsPage p → IsWord v → CellIsSet j v p (set_cell j v p)
unfolding CellIsSet
set_cell-CellIsSet j v p w fits = elim (Bool-cases (ltb j page_cells)) [
  | inl t ↦
      let h : j < page_cells = ltb→lt j page_cells t in
      rw (set_cell_inside j v p h)
        (h, same_cell j v p w fits h, λ i hi o. other_cell i j v p w o hi h, refl)
  | inr f ↦ let h : page_cells ≤ j = ground (arith, f) in rw (set_cell_outside j v p h) h
]

-- A page that `new` makes is a page.
pub replicate-IsByte : (n b : ℕ) → IsByte b → All IsByte (replicate n b)
replicate-IsByte zero b h = tt
replicate-IsByte (suc n) b h = (h, replicate-IsByte n b h)

pub new-IsPage : IsPage new
unfolding new
new-IsPage =
    let z : 0 < 2 ^ 64 = omega arith in
    (
      (z, z, z, z, z, z, z, z),
      length-replicate {A = ℕ} (page_size - header_size) 0,
      replicate-IsByte (page_size - header_size) 0 (omega arith),
    )
