-- ===== src/Storage/SsTable.antt =====
-- src/storage/sstable.rs: the writer and the reader of a sorted table. A file is the list of its
-- bytes. The writes of the operating system succeed: after one that fails the writer is dropped.
-- `panicked` is a slice whose end, a `usize` that wraps, lies before its start or behind the file;
-- `out_of_fuel` ends a search that has run for 64 rounds.
pub mod Slices
pub mod Written
pub mod Reads
pub mod Range
pub mod Opened
pub mod Search
pub mod Floor
mod Examples
use tensorvault.Prelude.{
  ℕ, zero, suc, ◌+◌, ◌-◌, ◌*◌, ◌/◌, ◌%◌, ◌^◌, ltb, leb, ◌==◌, ◌&&◌, not, u64_mod, if◌then◌else◌,
  Bool, true, false, Option, none, some, List, [], ◌∷◌, ◌++◌, length, take, drop,
}
use tensorvault.Prelude.Results.{Result, ok, err, ◌>>=◌}
use tensorvault.Storage.Bytes.{to_le_bytes, from_le_bytes, bytes_eq}
use tensorvault.Storage.Page.{Page, PageError, page_size, header_size, header_bytes, from_bytes}

-- "TVSST001"
abbrev pub sstable_magic : List ℕ
sstable_magic = 84 ∷ 86 ∷ 83 ∷ 83 ∷ 84 ∷ 48 ∷ 48 ∷ 49 ∷ []

abbrev pub header_size_bytes : ℕ
header_size_bytes = 16

abbrev pub footer_size_bytes : ℕ
footer_size_bytes = 24

pub record SsTableWriter : Type 0 where
  pub file : List ℕ
  pub page_count : ℕ
  pub page_offsets : List ℕ

pub record SsTableReader : Type 0 where
  pub mmap : List ℕ
  pub page_count : ℕ
  pub index_offset : ℕ

pub data TableError : Type 0 where
  too_small header_magic footer_magic index_range not_found offset_range page_range : TableError
  page_error : PageError → TableError
  panicked out_of_fuel : TableError

unfoldable pub create : SsTableWriter
create = record { file = sstable_magic ++ to_le_bytes 8 0; page_count = 0; page_offsets = [] }

unfoldable pub write_page : Page → SsTableWriter → ℕ × SsTableWriter
write_page page w =
    let offset : ℕ = (header_size_bytes + w.page_count * page_size) % u64_mod in
    (
      offset,
      record {
        file = w.file ++ header_bytes page.header ++ page.cells;
        page_count = (w.page_count + 1) % u64_mod;
        page_offsets = w.page_offsets ++ (offset ∷ []);
      },
    )

-- The loop that writes the index
unfoldable pub write_index : List ℕ → List ℕ → List ℕ
write_index [] file = file
write_index (offset ∷ offsets) file = write_index offsets (file ++ to_le_bytes 8 offset)

-- The bytes written in total, and the file
unfoldable pub finish : SsTableWriter → ℕ × List ℕ
unfolding write_index
finish w =
    let index_offset : ℕ = (header_size_bytes + w.page_count * page_size) % u64_mod in
    let file =
      write_index w.page_offsets w.file
      ++ sstable_magic
      ++ to_le_bytes 8 w.page_count
      ++ to_le_bytes 8 index_offset in
    (
      (index_offset + w.page_count * 8 + footer_size_bytes) % u64_mod,
      take 8 file ++ to_le_bytes 8 w.page_count ++ drop 16 file,
    )

-- `&mmap[start..start + k]`
unfoldable pub slice : ℕ → ℕ → List ℕ → Result (List ℕ) TableError
slice start k mmap =
    let stop : ℕ = (start + k) % u64_mod in
    if leb start stop && leb stop (length mmap)
    then ok (take (stop - start) (drop start mmap))
    else err panicked

unfoldable pub open_table : List ℕ → Result SsTableReader TableError
open_table mmap =
    let footer_start = length mmap - footer_size_bytes in
    let page_count = from_le_bytes (take 8 (drop (footer_start + 8) mmap)) in
    let index_offset = from_le_bytes (take 8 (drop (footer_start + 16) mmap)) in
    let index_end = (index_offset + page_count * 8) % u64_mod in
    if ltb (length mmap) (header_size_bytes + footer_size_bytes)
    then err too_small
    else if not (bytes_eq (take 8 mmap) sstable_magic)
    then err header_magic
    else if not (bytes_eq (take 8 (drop footer_start mmap)) sstable_magic)
    then err footer_magic
    else if ltb (length mmap - footer_size_bytes) index_end
    then err index_range
    else ok (record { mmap = mmap; page_count = page_count; index_offset = index_offset })

unfoldable pub page_offset : ℕ → SsTableReader → Result ℕ TableError
unfolding slice
page_offset index r =
    let pos = (r.index_offset + index * 8) % u64_mod in
    if ltb (length r.mmap) ((pos + 8) % u64_mod)
    then err offset_range
    else slice pos 8 r.mmap >>= λ bytes. ok (from_le_bytes bytes)

-- `Page::from_bytes`, its error in the error of a table
unfoldable pub page_of : List ℕ → Result Page TableError
page_of bytes = elim (from_bytes bytes) [ ok page ↦ ok page | err e ↦ err (page_error e) ]

unfoldable pub read_page : ℕ → SsTableReader → Result Page TableError
unfolding page_offset page_of
read_page index r =
    let found = page_offset index r >>= λ offset.
    if ltb (length r.mmap) ((offset + page_size) % u64_mod)
    then err page_range
    else slice offset page_size r.mmap >>= page_of in
    if leb r.page_count index then err not_found else found

-- `first_cell` behind `page_offset`: `None` for its error, but a panic stays one.
unfoldable pub cell_at : SsTableReader → Result ℕ TableError → Result (Option ℕ) TableError
unfolding slice
cell_at r (ok offset) =
    let cell_pos = (offset + header_size) % u64_mod in
    if ltb (length r.mmap) ((cell_pos + 8) % u64_mod)
    then ok none
    else slice cell_pos 8 r.mmap >>= λ bytes. ok (some (from_le_bytes bytes))
cell_at r (err panicked) = err panicked
cell_at r (err e) = ok none

unfoldable pub first_cell : ℕ → SsTableReader → Result (Option ℕ) TableError
unfolding page_offset cell_at
first_cell index r = cell_at r (page_offset index r)

-- `<=` and `>> 1` on `i64`, of which a word of 64 bits is the two's complement
unfoldable pub signed_le : ℕ → ℕ → Bool
signed_le a b = leb ((a + 2 ^ 63) % u64_mod) ((b + 2 ^ 63) % u64_mod)

unfoldable pub signed_half : ℕ → ℕ
signed_half n = if ltb n (2 ^ 63) then n / 2 else n / 2 + 2 ^ 63

-- `n as i64 - 1`
unfoldable pub one_less : ℕ → ℕ
one_less n = (n + (u64_mod - 1)) % u64_mod

-- The loop of `binary_search`; `lo` and `hi` are the words of an `i64`, whose sums wrap.
unfoldable pub search_from : ℕ → ℕ → ℕ → ℕ → Option ℕ → SsTableReader → Result (Option ℕ) TableError
unfolding first_cell signed_le signed_half one_less
search_from zero target_key lo hi result r = if signed_le lo hi then err out_of_fuel else ok result
search_from (suc fuel) target_key lo hi result r =
    let mid : ℕ = signed_half ((lo + hi) % u64_mod) in
    let upper = search_from fuel target_key ((mid + 1) % u64_mod) hi (some mid) r in
    let lower = search_from fuel target_key lo (one_less mid) result r in
    let found = first_cell mid r >>= λ cell. elim cell [
      | none ↦ ok result
      | some first_key ↦ if leb first_key target_key then upper else lower
    ] in
    if signed_le lo hi then found else ok result

unfoldable pub binary_search : ℕ → SsTableReader → Result (Option ℕ) TableError
unfolding search_from one_less
binary_search target_key r =
    if r.page_count == 0
    then ok none
    else search_from 64 target_key 0 (one_less r.page_count) none r
