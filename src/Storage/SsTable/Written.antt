-- ===== src/Storage/SsTable/Written.antt =====
-- The file that the writer makes of some pages.
use mathlib.Core.List.{append_assoc, append-nil}
use tensorvault.Prelude.{
  ℕ, zero, suc, ◌+◌, ◌*◌, ◌%◌, ◌<◌, ◌≡◌, refl, sym, ap, ◌∙◌, u64_mod, List, [], ◌∷◌, ◌++◌, map,
  length, take, drop, arith, length-append,
}
use tensorvault.Prelude.Forall.{All}
use tensorvault.Storage.Bytes.{to_le_bytes, length-to_le_bytes}
use tensorvault.Storage.Page.{Page, page_size, header_bytes, to_bytes}
use tensorvault.Storage.Page.Layout.{IsPage, length-to_bytes}
use tensorvault.Storage.SsTable.{
  SsTableWriter, sstable_magic, header_size_bytes, footer_size_bytes, create, write_page,
  write_index, finish,
}
use tensorvault.Storage.SsTable.Slices.{flat, AllLong, length-flat}

-- The pages written one after the other.
abbrev pub write_all : List Page → SsTableWriter → SsTableWriter
write_all [] w = w
write_all (p ∷ ps) w = write_all ps (write_page p w).1

abbrev pub offset_of : ℕ → ℕ
offset_of i = header_size_bytes + i * page_size

-- The offsets of `n` pages from the page `i` on.
abbrev pub offsets : ℕ → ℕ → List ℕ
offsets i zero = []
offsets i (suc n) = offset_of i ∷ offsets (suc i) n

-- The file of a table of `n` pages, its parts in order.
abbrev pub data_of : List Page → List ℕ
data_of ps = flat (map to_bytes ps)

abbrev pub index_of : ℕ → List ℕ
index_of n = flat (map (to_le_bytes 8) (offsets 0 n))

abbrev pub footer_of : ℕ → List ℕ
footer_of n = sstable_magic ++ (to_le_bytes 8 n ++ to_le_bytes 8 (offset_of n))

abbrev pub table_of : List Page → List ℕ
table_of ps =
    sstable_magic
    ++ (to_le_bytes 8 (length ps)
        ++ (data_of ps ++ (index_of (length ps) ++ footer_of (length ps))))

-- What fits into a file whose length is a `u64`.
abbrev pub Fits : List Page → Type 0
Fits ps = header_size_bytes + length ps * page_size + length ps * 8 + footer_size_bytes < u64_mod

write_index_lem : (os file : List ℕ) → write_index os file ≡ file ++ flat (map (to_le_bytes 8) os)
unfolding write_index
write_index_lem [] file = sym (append-nil file)
write_index_lem (o ∷ os) file =
    write_index_lem os (file ++ to_le_bytes 8 o)
    ∙ append_assoc file (to_le_bytes 8 o) (flat (map (to_le_bytes 8) os))

offsets_snoc : (i n : ℕ) → offsets i n ++ (offset_of (i + n) ∷ []) ≡ offsets i (suc n)
offsets_snoc i zero = let e : i + 0 ≡ i = omega arith in ap (λ t. offset_of t ∷ []) e
offsets_snoc i (suc n) =
    let e : i + suc n ≡ suc i + n = omega arith in
    ap (λ t. offset_of i ∷ t)
      (ap (λ t. offsets (suc i) n ++ (offset_of t ∷ [])) e ∙ offsets_snoc (suc i) n)

-- A writer that has written `n` pages with the bytes `file`.
abbrev writer : ℕ → List ℕ → SsTableWriter
writer n file = record { file = file; page_count = n; page_offsets = offsets 0 n }

abbrev writer_of : List ℕ → ℕ → List ℕ → SsTableWriter
writer_of f n os = record { file = f; page_count = n; page_offsets = os }

writers :
    (f g : List ℕ) (m n : ℕ) (os qs : List ℕ)
    → f ≡ g
    → m ≡ n
    → os ≡ qs
    → writer_of f m os ≡ writer_of g n qs
writers f g m n os qs a b c = rw (a, b, c)

write_page_lem :
    (n : ℕ) (file : List ℕ) (p : Page)
    → offset_of (suc n) < u64_mod
    → (write_page p (writer n file)).1 ≡ writer (suc n) (file ++ to_bytes p)
unfolding write_page to_bytes
write_page_lem n file p h =
    let exact : offset_of n % u64_mod ≡ offset_of (0 + n) = omega arith in
    writers _ _ _ _ _ _ (append_assoc file (header_bytes p.header) p.cells) (omega arith)
      (ap (λ t. offsets 0 n ++ (t ∷ [])) exact ∙ offsets_snoc 0 n)

write_all_lem :
    (ps : List Page) (n m : ℕ) (file : List ℕ)
    → m ≡ n + length ps
    → offset_of m < u64_mod
    → write_all ps (writer n file) ≡ writer m (file ++ data_of ps)
write_all_lem [] n m file e h =
    let same : n ≡ m = omega arith in
    writers _ _ _ _ _ _ (sym (append-nil file)) same (ap (offsets 0) same)
write_all_lem (p ∷ ps) n m file e h =
    ap (write_all ps) (write_page_lem n file p (omega arith))
    ∙ write_all_lem ps (suc n) m (file ++ to_bytes p) (omega arith) h
    ∙ ap (writer m) (append_assoc file (to_bytes p) (data_of ps))

right_nested : (a b c d e : List ℕ) → a ++ b ++ c ++ d ++ e ≡ a ++ (b ++ (c ++ (d ++ e)))
right_nested a b c d e =
    append_assoc (a ++ b ++ c) d e
    ∙ append_assoc (a ++ b) c (d ++ e)
    ∙ append_assoc a b (c ++ (d ++ e))

-- The page count patched into the header.
abbrev patch : ℕ → List ℕ → List ℕ
patch n file = take 8 file ++ to_le_bytes 8 n ++ drop 16 file

patch_lem :
    (n : ℕ) (rest : List ℕ)
    → patch n (sstable_magic ++ to_le_bytes 8 0 ++ rest)
      ≡ sstable_magic ++ (to_le_bytes 8 n ++ rest)
unfolding to_le_bytes
patch_lem n rest = refl

unpatched :
    (n : ℕ) (file : List ℕ)
    → (finish (writer n file)).1
      ≡ patch n (
          write_index (offsets 0 n) file
          ++ sstable_magic
          ++ to_le_bytes 8 n
          ++ to_le_bytes 8 (offset_of n % u64_mod))
unfolding finish
unpatched n file = refl

finish_lem :
    (n : ℕ) (content : List ℕ)
    → offset_of n < u64_mod
    → (finish (writer n (sstable_magic ++ to_le_bytes 8 0 ++ content))).1
      ≡ sstable_magic ++ (to_le_bytes 8 n ++ (content ++ (index_of n ++ footer_of n)))
finish_lem n content h =
    let start = sstable_magic ++ to_le_bytes 8 0 in
    let exact : offset_of n % u64_mod ≡ offset_of n = omega arith in
    unpatched n (start ++ content)
    ∙ ap (patch n) (
        ap (λ t. t ++ sstable_magic ++ to_le_bytes 8 n ++ to_le_bytes 8 (offset_of n % u64_mod))
          (write_index_lem (offsets 0 n) (start ++ content))
        ∙ ap
            (λ t.
              start ++ content ++ index_of n ++ sstable_magic ++ to_le_bytes 8 n ++ to_le_bytes 8 t)
            exact
        ∙ right_nested (start ++ content) (index_of n) sstable_magic (to_le_bytes 8 n)
            (to_le_bytes 8 (offset_of n))
        ∙ append_assoc start content (index_of n ++ footer_of n))
    ∙ patch_lem n (content ++ (index_of n ++ footer_of n))

written :
    (ps : List Page)
    → Fits ps
    → write_all ps create ≡ writer (length ps) (sstable_magic ++ to_le_bytes 8 0 ++ data_of ps)
unfolding create
written ps h =
    write_all_lem ps 0 (length ps) (sstable_magic ++ to_le_bytes 8 0) (omega arith) (omega arith)

-- `finish` leaves the file of the table: header, pages, index and footer, one behind the other.
pub finish-write_all : (ps : List Page) → Fits ps → (finish (write_all ps create)).1 ≡ table_of ps
finish-write_all ps h =
    ap (λ w. (finish w).1) (written ps h) ∙ finish_lem (length ps) (data_of ps) (omega arith)

total_bytes :
    (n : ℕ) (file : List ℕ)
    → offset_of n + n * 8 + footer_size_bytes < u64_mod
    → (finish (writer n file)).0 ≡ offset_of n + n * 8 + footer_size_bytes
unfolding finish
total_bytes n file h = omega arith

pub to_bytes-AllLong : (ps : List Page) → All IsPage ps → AllLong page_size (map to_bytes ps)
to_bytes-AllLong [] h = tt
to_bytes-AllLong (p ∷ ps) h = (length-to_bytes p h.0, to_bytes-AllLong ps h.1)

pub word_bytes-AllLong : (os : List ℕ) → AllLong 8 (map (to_le_bytes 8) os)
word_bytes-AllLong [] = tt
word_bytes-AllLong (o ∷ os) = (length-to_le_bytes 8 o, word_bytes-AllLong os)

length-offsets : (i n : ℕ) → length (map (to_le_bytes 8) (offsets i n)) ≡ n
length-offsets i zero = refl
length-offsets i (suc n) = ap suc (length-offsets (suc i) n)

length-map_bytes : (ps : List Page) → length (map to_bytes ps) ≡ length ps
length-map_bytes [] = refl
length-map_bytes (p ∷ ps) = ap suc (length-map_bytes ps)

pub length-data_of : (ps : List Page) → All IsPage ps → length (data_of ps) ≡ length ps * page_size
length-data_of ps h =
    length-flat page_size (map to_bytes ps) (to_bytes-AllLong ps h)
    ∙ ap (λ t. t * page_size) (length-map_bytes ps)

pub length-index_of : (n : ℕ) → length (index_of n) ≡ n * 8
length-index_of n =
    length-flat 8 (map (to_le_bytes 8) (offsets 0 n)) (word_bytes-AllLong (offsets 0 n))
    ∙ ap (λ t. t * 8) (length-offsets 0 n)

pub length-footer_of : (n : ℕ) → length (footer_of n) ≡ footer_size_bytes
unfolding to_le_bytes
length-footer_of n = refl

abbrev pub size_of : ℕ → ℕ
size_of n = offset_of n + n * 8 + footer_size_bytes

pub length-table_of : (ps : List Page) → All IsPage ps → length (table_of ps) ≡ size_of (length ps)
length-table_of ps h =
    let n = length ps in
    omega (
      arith,
      length-append (to_le_bytes 8 n) (data_of ps ++ (index_of n ++ footer_of n)),
      length-append (data_of ps) (index_of n ++ footer_of n),
      length-append (index_of n) (footer_of n),
      length-to_le_bytes 8 n,
      length-data_of ps h,
      length-index_of n,
      length-footer_of n,
    )

-- The size that `finish` returns is the length of the file.
pub length-finish :
    (ps : List Page)
    → All IsPage ps
    → Fits ps
    → (finish (write_all ps create)).0 ≡ length (finish (write_all ps create)).1
length-finish ps h f =
    ap (λ w. (finish w).0) (written ps f)
    ∙ total_bytes (length ps) (sstable_magic ++ to_le_bytes 8 0 ++ data_of ps) (omega (arith, f))
    ∙ sym (ap length (finish-write_all ps f) ∙ length-table_of ps h)
