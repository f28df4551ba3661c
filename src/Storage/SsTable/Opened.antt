-- ===== src/Storage/SsTable/Opened.antt =====
-- Opening the file that the writer leaves, and reading its pages.
use tensorvault.Prelude.{
  ℕ, zero, suc, ◌+◌, ◌-◌, ◌*◌, ◌≤◌, ◌<◌, ◌≡◌, refl, ap, ◌∙◌, some, List, [], ◌∷◌, ◌++◌, map, length,
  get_elem?, take, arith, le→leb, get_elem?-bound,
}
use tensorvault.Prelude.Results.{Result, ok, err}
use tensorvault.Prelude.Forall.{All}
use tensorvault.Storage.Bytes.{to_le_bytes, from_le_bytes, length-to_le_bytes}
use tensorvault.Storage.Bytes.Blocks.{block}
use tensorvault.Storage.Page.{Page, page_size, header_size, header_bytes, to_bytes}
use tensorvault.Storage.Page.Layout.{IsPage, word_bytes, length-to_bytes, length-header_bytes}
use tensorvault.Storage.SsTable.{
  SsTableReader, TableError, sstable_magic, header_size_bytes, footer_size_bytes, create, finish,
  open_table, binary_search, page_offset, read_page, first_cell,
}
use tensorvault.Storage.SsTable.Floor.{IsFloor, binary_search-IsFloor}
use tensorvault.Storage.SsTable.Slices.{block_beyond, block_inside, block-flat, block_in-flat}
use tensorvault.Storage.SsTable.Written.{
  write_all, offset_of, offsets, data_of, index_of, footer_of, table_of, Fits, finish-write_all,
  length-finish, length-data_of, length-index_of, length-table_of, to_bytes-AllLong,
  word_bytes-AllLong,
}
use tensorvault.Storage.SsTable.Reads.{
  open_table_lem, page_offset_lem, read_page_lem, first_cell_lem, get_elem?-offsets,
  get_elem?-map_bytes, page_in, eight, sixteen, key_of,
}

first_block : (p : Page) → block header_size 8 (to_bytes p) ≡ take 8 p.cells
unfolding to_bytes
first_block p =
    block_beyond header_size 0 8 (header_bytes p.header) p.cells
      (omega (arith, length-header_bytes p.header))

module _ (ps : List Page) (w : All IsPage ps) where
  -- A block of the file behind the header.
  behind_header :
      (m n k : ℕ)
      → m ≡ header_size_bytes + n
      → block m k (table_of ps)
        ≡ block n k (data_of ps ++ (index_of (length ps) ++ footer_of (length ps)))
  behind_header m n k h =
      let rest = data_of ps ++ (index_of (length ps) ++ footer_of (length ps)) in
      block_beyond m (8 + n) k sstable_magic (to_le_bytes 8 (length ps) ++ rest) (omega (arith, h))
      ∙ block_beyond (8 + n) n k (to_le_bytes 8 (length ps)) rest
          (omega (arith, length-to_le_bytes 8 (length ps)))

  in_data :
      (m n k : ℕ)
      → m ≡ header_size_bytes + n
      → n + k ≤ length ps * page_size
      → block m k (table_of ps) ≡ block n k (data_of ps)
  in_data m n k h g =
      behind_header m n k h
      ∙ block_inside n k (data_of ps) (index_of (length ps) ++ footer_of (length ps))
          (omega (arith, length-data_of ps w))

  behind_data :
      (m n k : ℕ)
      → m ≡ offset_of (length ps) + n
      → block m k (table_of ps) ≡ block n k (index_of (length ps) ++ footer_of (length ps))
  behind_data m n k h =
      behind_header m (length ps * page_size + n) k (omega (arith, h))
      ∙ block_beyond (length ps * page_size + n) n k (data_of ps)
          (index_of (length ps) ++ footer_of (length ps)) (omega (arith, length-data_of ps w))

  in_index :
      (m n k : ℕ)
      → m ≡ offset_of (length ps) + n
      → n + k ≤ length ps * 8
      → block m k (table_of ps) ≡ block n k (index_of (length ps))
  in_index m n k h g =
      behind_data m n k h
      ∙ block_inside n k (index_of (length ps)) (footer_of (length ps))
          (omega (arith, length-index_of (length ps)))

  in_footer :
      (m n k : ℕ)
      → m ≡ offset_of (length ps) + length ps * 8 + n
      → block m k (table_of ps) ≡ block n k (footer_of (length ps))
  in_footer m n k h =
      behind_data m (length ps * 8 + n) k (omega (arith, h))
      ∙ block_beyond (length ps * 8 + n) n k (index_of (length ps)) (footer_of (length ps))
          (omega (arith, length-index_of (length ps)))

  abbrev reader : SsTableReader
  reader = record {
    mmap = table_of ps;
    page_count = length ps;
    index_offset = offset_of (length ps);
  }

  footer_magic_read :
      (m : ℕ)
      → m ≡ length (table_of ps) - footer_size_bytes
      → block m 8 (table_of ps) ≡ sstable_magic
  unfolding to_le_bytes
  footer_magic_read m h = in_footer m 0 8 (omega (arith, h, length-table_of ps w))

  count_read :
      (m : ℕ)
      → m ≡ length (table_of ps) - footer_size_bytes + 8
      → Fits ps
      → from_le_bytes (block m 8 (table_of ps)) ≡ length ps
  count_read m h f =
      ap from_le_bytes
        (in_footer m 8 8 (omega (arith, h, length-table_of ps w)) ∙ eight (length ps))
      ∙ word_bytes (length ps) (omega (arith, f))

  offset_read :
      (m : ℕ)
      → m ≡ length (table_of ps) - footer_size_bytes + 16
      → Fits ps
      → from_le_bytes (block m 8 (table_of ps)) ≡ offset_of (length ps)
  offset_read m h f =
      ap from_le_bytes
        (in_footer m 16 8 (omega (arith, h, length-table_of ps w)) ∙ sixteen (length ps))
      ∙ word_bytes (offset_of (length ps)) (omega (arith, f))

  header_read : take 8 (table_of ps) ≡ sstable_magic
  header_read = refl

  -- The file of a table opens, with its pages counted and its index found.
  pub opened : Fits ps → open_table (table_of ps) ≡ ok reader
  opened f =
      let footer_start = length (table_of ps) - footer_size_bytes in
      open_table_lem (table_of ps) (length ps) (offset_of (length ps))
        (omega (arith, length-table_of ps w)) header_read (footer_magic_read footer_start refl)
        (count_read (footer_start + 8) refl f) (offset_read (footer_start + 16) refl f)
        (omega (arith, length-table_of ps w, f))

  pub opened_offset : (i : ℕ) → i < length ps → Fits ps → page_offset i reader ≡ ok (offset_of i)
  opened_offset i h f =
      let index = in_index (offset_of (length ps) + i * 8) (i * 8) 8 refl (omega arith) in
      let entry =
        block-flat 8 i (i * 8) (map (to_le_bytes 8) (offsets 0 (length ps)))
          (to_le_bytes 8 (offset_of i)) (word_bytes-AllLong (offsets 0 (length ps)))
          (length-to_le_bytes 8 (offset_of i)) (get_elem?-offsets 0 (length ps) i i h (omega arith))
          refl in
      page_offset_lem i reader (omega (arith, length-table_of ps w))
        (omega (arith, length-table_of ps w, f))
      ∙ ap (λ t. ok (from_le_bytes t)) (index ∙ entry)
      ∙ ap ok (word_bytes (offset_of i) (omega (arith, f)))

  -- Every page is read as it was written.
  pub opened_page :
      (i : ℕ) (p : Page) → get_elem? ps i ≡ some p → Fits ps → read_page i reader ≡ ok p
  opened_page i p e f =
      let h : i < length ps = get_elem?-bound ps i p e in
      let content =
        in_data (offset_of i) (i * page_size) page_size refl (omega arith)
        ∙ block-flat page_size i (i * page_size) (map to_bytes ps) (to_bytes p)
            (to_bytes-AllLong ps w) (length-to_bytes p (page_in ps i p e w))
            (get_elem?-map_bytes ps i p e) refl in
      read_page_lem i (offset_of i) reader p h (opened_offset i h f)
        (omega (arith, length-table_of ps w)) (omega (arith, length-table_of ps w, f)) content
        (page_in ps i p e w)

  opened_missing : (i : ℕ) → length ps ≤ i → read_page i reader ≡ err TableError.not_found
  unfolding read_page
  opened_missing i h = rw (le→leb (length ps) i h) refl

  pub opened_cell :
      (i : ℕ) (p : Page)
      → get_elem? ps i ≡ some p
      → Fits ps
      → first_cell i reader ≡ ok (some (key_of p))
  opened_cell i p e f =
      let h : i < length ps = get_elem?-bound ps i p e in
      let content =
        in_data (offset_of i + header_size) (i * page_size + header_size) 8 (omega arith)
          (omega arith)
        ∙ block_in-flat page_size i header_size 8 (i * page_size + header_size) (map to_bytes ps)
            (to_bytes p) (to_bytes-AllLong ps w) (get_elem?-map_bytes ps i p e) (omega arith) refl
        ∙ first_block p in
      first_cell_lem i (offset_of i) reader (opened_offset i h f)
        (omega (arith, length-table_of ps w)) (omega (arith, length-table_of ps w, f))
      ∙ ap (λ t. ok (some (from_le_bytes t))) content

-- A reader from which the pages are read as they were written, and no others.
pub HasPages : List Page → Result SsTableReader TableError → Type 0
HasPages ps (ok r) =
    (r.page_count ≡ length ps)
    × ((i : ℕ) (p : Page) → get_elem? ps i ≡ some p → read_page i r ≡ ok p)
    × ((i : ℕ) → length ps ≤ i → read_page i r ≡ err TableError.not_found)
HasPages ps (err e) = ⊥

-- The file that the writer leaves for some pages opens, has the size that `finish` returned, and every
-- page of it is read as it was written. A page behind the last is not found. The file has fewer than
-- 2 ^ 64 bytes.
pub open_table-finish :
    (ps : List Page)
    → All IsPage ps
    → Fits ps
    → HasPages ps (open_table (finish (write_all ps create)).1)
      × ((finish (write_all ps create)).0 ≡ length (finish (write_all ps create)).1)
unfolding HasPages
open_table-finish ps w f = (
  rw (finish-write_all ps f, opened ps w f)
      (refl, (λ i p e. opened_page ps w i p e f), (λ i h. opened_missing ps w i h)),
  length-finish ps w f,
)

-- The first cells of some pages, by their number.
abbrev pub cells_of : List Page → ℕ → ℕ
cells_of [] i = 0
cells_of (p ∷ ps) zero = key_of p
cells_of (p ∷ ps) (suc i) = cells_of ps i

cells_of_lem :
    (ps : List Page) (i : ℕ)
    → i < length ps
    → (p : Page) × (get_elem? ps i ≡ some p) × (key_of p ≡ cells_of ps i)
cells_of_lem [] i h = absurd (omega arith)
cells_of_lem (p ∷ ps) zero h = (p, refl, refl)
cells_of_lem (p ∷ ps) (suc i) h = cells_of_lem ps i (omega arith)

-- A search in an opened table.
pub FindsFloor : List Page → ℕ → Result SsTableReader TableError → Type 0
FindsFloor ps key (ok r) = IsFloor key (length ps) (cells_of ps) (binary_search key r)
FindsFloor ps key (err e) = ⊥

-- When pages are written in the order of their first cells, a search in the opened file finds the last
-- page whose first cell is not behind the key, and none if there is no such page.
pub binary_search-finish :
    (ps : List Page) (key : ℕ)
    → All IsPage ps
    → Fits ps
    → ((i j : ℕ) → i ≤ j → j < length ps → cells_of ps i ≤ cells_of ps j)
    → FindsFloor ps key (open_table (finish (write_all ps create)).1)
unfolding FindsFloor
binary_search-finish ps key w f s =
    rw (finish-write_all ps f, opened ps w f)
      (binary_search-IsFloor (reader ps w) key (cells_of ps)
        (
          λ i h.
              let c = cells_of_lem ps i h in
              opened_cell ps w i c.0 c.1 f ∙ ap (λ t. ok (some t)) c.2,
          s,
        )
        (omega (arith, f)))
