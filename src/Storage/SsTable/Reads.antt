-- ===== src/Storage/SsTable/Reads.antt =====
-- The reader on a file whose bytes at some places are known.
use tensorvault.Prelude.{
  ℕ, zero, suc, ◌+◌, ◌-◌, ◌*◌, ◌%◌, ◌≤◌, ◌<◌, ◌≡◌, refl, ap, true, u64_mod, some, List, [], ◌∷◌,
  map, length, get_elem?, take, arith, le→ltb, le→leb, lt→leb,
}
use mathlib.Core.Path.{subst}
use tensorvault.Prelude.Results.{ok}
use tensorvault.Prelude.Forall.{All}
use tensorvault.Storage.Bytes.{to_le_bytes, from_le_bytes, bytes_eq}
use tensorvault.Storage.Bytes.Blocks.{block}
use tensorvault.Storage.Page.{Page, page_size, header_size, to_bytes}
use tensorvault.Storage.Page.Layout.{IsPage, from_bytes-to_bytes}
use tensorvault.Storage.SsTable.{
  SsTableReader, sstable_magic, header_size_bytes, footer_size_bytes, slice, open_table,
  page_offset, page_of, read_page, cell_at, first_cell,
}
use tensorvault.Storage.SsTable.Written.{offset_of, offsets, footer_of}

pub eight : (n : ℕ) → block 8 8 (footer_of n) ≡ to_le_bytes 8 n
unfolding to_le_bytes
eight n = refl

pub sixteen : (n : ℕ) → block 16 8 (footer_of n) ≡ to_le_bytes 8 (offset_of n)
unfolding to_le_bytes
sixteen n = refl

pub bytes_eq_magic : bytes_eq sstable_magic sstable_magic ≡ true
unfolding bytes_eq
bytes_eq_magic = refl

pub open_table_lem :
    (mmap : List ℕ) (n offset : ℕ)
    → header_size_bytes + footer_size_bytes ≤ length mmap
    → take 8 mmap ≡ sstable_magic
    → block (length mmap - footer_size_bytes) 8 mmap ≡ sstable_magic
    → from_le_bytes (block (length mmap - footer_size_bytes + 8) 8 mmap) ≡ n
    → from_le_bytes (block (length mmap - footer_size_bytes + 16) 8 mmap) ≡ offset
    → (offset + n * 8) % u64_mod ≤ length mmap - footer_size_bytes
    → open_table mmap ≡ ok (record { mmap = mmap; page_count = n; index_offset = offset })
unfolding open_table
open_table_lem mmap n offset size header footer count index range =
    rw
      (
        le→ltb (length mmap) (header_size_bytes + footer_size_bytes) size,
        header,
        footer,
        bytes_eq_magic,
        count,
        index,
        le→ltb (length mmap - footer_size_bytes) ((offset + n * 8) % u64_mod) range,
      )
      refl

-- A slice that lies in the file.
pub slice_inside :
    (start k : ℕ) (mmap : List ℕ)
    → start + k ≤ length mmap
    → length mmap < u64_mod
    → slice start k mmap ≡ ok (block start k mmap)
unfolding slice
slice_inside start k mmap h f =
    let stop : (start + k) % u64_mod ≡ start + k = omega arith in
    let count : start + k - start ≡ k = omega arith in
    rw (stop, le→leb start (start + k) (omega arith), le→leb (start + k) (length mmap) h, count)
      refl

pub page_offset_lem :
    (i : ℕ) (r : SsTableReader)
    → r.index_offset + i * 8 + 8 ≤ length r.mmap
    → length r.mmap < u64_mod
    → page_offset i r ≡ ok (from_le_bytes (block (r.index_offset + i * 8) 8 r.mmap))
unfolding page_offset
page_offset_lem i r h f =
    let pos : ℕ = r.index_offset + i * 8 in
    let exact : pos % u64_mod ≡ pos = omega arith in
    let stop : (pos + 8) % u64_mod ≤ length r.mmap = omega arith in
    rw (exact, le→ltb (length r.mmap) ((pos + 8) % u64_mod) stop, slice_inside pos 8 r.mmap h f)
      refl

page_of_lem : (p : Page) → IsPage p → page_of (to_bytes p) ≡ ok p
unfolding page_of
page_of_lem p w = rw (from_bytes-to_bytes p w, page_of) refl

pub read_page_lem :
    (i offset : ℕ) (r : SsTableReader) (p : Page)
    → i < r.page_count
    → page_offset i r ≡ ok offset
    → offset + page_size ≤ length r.mmap
    → length r.mmap < u64_mod
    → block offset page_size r.mmap ≡ to_bytes p
    → IsPage p
    → read_page i r ≡ ok p
unfolding read_page
read_page_lem i offset r p h o l f b w =
    let stop : (offset + page_size) % u64_mod ≤ length r.mmap = omega arith in
    rw
      (
        lt→leb i r.page_count h,
        o,
        le→ltb (length r.mmap) ((offset + page_size) % u64_mod) stop,
        slice_inside offset page_size r.mmap l f,
        b,
      )
      (page_of_lem p w)

pub first_cell_lem :
    (i offset : ℕ) (r : SsTableReader)
    → page_offset i r ≡ ok offset
    → offset + header_size + 8 ≤ length r.mmap
    → length r.mmap < u64_mod
    → first_cell i r ≡ ok (some (from_le_bytes (block (offset + header_size) 8 r.mmap)))
unfolding first_cell cell_at
first_cell_lem i offset r o l f =
    let pos : ℕ = offset + header_size in
    let exact : pos % u64_mod ≡ pos = omega arith in
    let stop : (pos + 8) % u64_mod ≤ length r.mmap = omega arith in
    rw (o, exact, le→ltb (length r.mmap) ((pos + 8) % u64_mod) stop, slice_inside pos 8 r.mmap l f)
      refl

pub get_elem?-offsets :
    (a n i j : ℕ)
    → i < n
    → j ≡ a + i
    → get_elem? (map (to_le_bytes 8) (offsets a n)) i ≡ some (to_le_bytes 8 (offset_of j))
get_elem?-offsets a zero i j h e = absurd (omega arith)
get_elem?-offsets a (suc n) zero j h e =
    let same : a ≡ j = omega (arith, e) in ap (λ t. some (to_le_bytes 8 (offset_of t))) same
get_elem?-offsets a (suc n) (suc i) j h e =
    get_elem?-offsets (suc a) n i j (omega arith) (omega arith)

pub get_elem?-map_bytes :
    (ps : List Page) (i : ℕ) (p : Page)
    → get_elem? ps i ≡ some p
    → get_elem? (map to_bytes ps) i ≡ some (to_bytes p)
get_elem?-map_bytes [] i p e = ground (arith, e)
get_elem?-map_bytes (q ∷ ps) zero p e =
    let same : q ≡ p = ground (arith, e) in ap (λ t. some (to_bytes t)) same
get_elem?-map_bytes (q ∷ ps) (suc i) p e = get_elem?-map_bytes ps i p e

pub page_in :
    (ps : List Page) (i : ℕ) (p : Page) → get_elem? ps i ≡ some p → All IsPage ps → IsPage p
page_in [] i p e w = ground (arith, e)
page_in (q ∷ ps) zero p e w = let same : q ≡ p = ground (arith, e) in subst IsPage same w.0
page_in (q ∷ ps) (suc i) p e w = page_in ps i p e w.1

-- The first cell of a page.
abbrev pub key_of : Page → ℕ
key_of p = from_le_bytes (take 8 p.cells)
