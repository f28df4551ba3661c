-- ===== src/Storage/Page.antt =====
-- src/storage/page.rs: the 4 KB page, its bytes, its checksum and its correction of a single bit.
-- A byte is a number below 256, and the layout of a header in memory is that of a little-endian
-- machine, as everywhere in the files. `none` is a failed `assert!`.
pub mod Castagnoli
pub mod Checksum
pub mod Layout
pub mod Parity
pub mod Repair
pub mod SingleBit
mod Examples
use Prim.Native.Nat.{bit_and, bit_xor}
use tensorvault.Prelude.{
  ℕ, zero, suc, ◌+◌, ◌-◌, ◌*◌, ◌/◌, ◌%◌, ◌^◌, ltb, ◌==◌, if◌then◌else◌, Bool, true, false, Option,
  none, some, List, [], ◌∷◌, ◌++◌, length, get_or, set, take, drop, replicate,
}
use tensorvault.Prelude.Results.{Result, ok, err}
use tensorvault.Prelude.Bits.{count_ones, trailing_zeros}
use tensorvault.Storage.Bytes.{to_le_bytes, from_le_bytes}

abbrev pub page_size : ℕ
page_size = 4096

abbrev pub header_size : ℕ
header_size = 64

abbrev pub page_cells : ℕ
page_cells = (page_size - header_size) / 8

abbrev pub crc32c_poly_reversed : ℕ
crc32c_poly_reversed = 0x82F63B78

-- `0u32.wrapping_sub(crc & 1)`, and one round of the loop over the bits
unfoldable pub crc32c_round : ℕ → ℕ
crc32c_round crc =
    let mask : ℕ = (2 ^ 32 - bit_and crc 1) % 2 ^ 32 in
    bit_xor (crc / 2) (bit_and crc32c_poly_reversed mask)

unfoldable pub crc32c_rounds : ℕ → ℕ → ℕ
unfolding crc32c_round
crc32c_rounds zero crc = crc
crc32c_rounds (suc n) crc = crc32c_rounds n (crc32c_round crc)

-- The loop over the bytes
unfoldable pub crc32c_bytes : List ℕ → ℕ → ℕ
unfolding crc32c_rounds
crc32c_bytes [] crc = crc
crc32c_bytes (b ∷ cells) crc = crc32c_bytes cells (crc32c_rounds 8 (bit_xor crc b))

unfoldable pub crc32c_scalar : List ℕ → ℕ
unfolding crc32c_bytes
crc32c_scalar cells = bit_xor (crc32c_bytes cells 0xFFFFFFFF) 0xFFFFFFFF

-- The instructions that `crc32c_sse42` calls.
pub record Sse42 : Type 0 where
  pub mm_crc32_u64 : ℕ → ℕ → ℕ
  pub mm_crc32_u32 : ℕ → ℕ → ℕ
  pub mm_crc32_u16 : ℕ → ℕ → ℕ
  pub mm_crc32_u8 : ℕ → ℕ → ℕ

-- The two loops and the test on the tail, on at most `n` bytes
unfoldable pub tail_u8 : Sse42 → List ℕ → ℕ → ℕ
tail_u8 cpu [] crc = crc
tail_u8 cpu (b ∷ tail) crc = cpu.mm_crc32_u8 crc b

unfoldable pub tail_u16 : Sse42 → List ℕ → ℕ → ℕ
unfolding tail_u8
tail_u16 cpu (a ∷ b ∷ tail) crc =
    tail_u16 cpu tail (cpu.mm_crc32_u16 crc (from_le_bytes (a ∷ b ∷ [])))
tail_u16 cpu tail crc = tail_u8 cpu tail crc

unfoldable pub tail_u32 : Sse42 → List ℕ → ℕ → ℕ
unfolding tail_u16
tail_u32 cpu (a ∷ b ∷ c ∷ d ∷ tail) crc =
    tail_u32 cpu tail (cpu.mm_crc32_u32 crc (from_le_bytes (a ∷ b ∷ c ∷ d ∷ [])))
tail_u32 cpu tail crc = tail_u16 cpu tail crc

-- The loop over `chunks_exact(8)`
unfoldable pub chunks_u64 : Sse42 → List ℕ → ℕ → ℕ
unfolding tail_u32
chunks_u64 cpu (a ∷ b ∷ c ∷ d ∷ e ∷ f ∷ g ∷ h ∷ rest) crc =
    chunks_u64 cpu rest (cpu.mm_crc32_u64 crc (from_le_bytes (a ∷ b ∷ c ∷ d ∷ e ∷ f ∷ g ∷ h ∷ [])))
chunks_u64 cpu tail crc = tail_u32 cpu tail (crc % 2 ^ 32)

unfoldable pub crc32c_sse42 : Sse42 → List ℕ → ℕ
unfolding chunks_u64
crc32c_sse42 cpu cells = bit_xor (chunks_u64 cpu cells 0xFFFFFFFF) 0xFFFFFFFF

-- `Some(cpu)` on a machine where the instructions are detected
unfoldable pub compute_crc32c : Option Sse42 → List ℕ → ℕ
unfolding crc32c_scalar crc32c_sse42
compute_crc32c none cells = crc32c_scalar cells
compute_crc32c (some cpu) cells = crc32c_sse42 cpu cells

-- `word_bytes[..tail.len()].copy_from_slice(tail)` adds zero bytes, so the number is the tail's.
unfoldable pub xor_words : List ℕ → ℕ → ℕ
xor_words (a ∷ b ∷ c ∷ d ∷ e ∷ f ∷ g ∷ h ∷ rest) parity =
    xor_words rest (bit_xor parity (from_le_bytes (a ∷ b ∷ c ∷ d ∷ e ∷ f ∷ g ∷ h ∷ [])))
xor_words [] parity = parity
xor_words (b ∷ tail) parity =
    bit_xor parity (from_le_bytes ((b ∷ tail) ++ replicate (7 - length tail) 0))

unfoldable pub compute_parity : List ℕ → ℕ
unfolding xor_words
compute_parity cells = xor_words cells 0

pub record PageHeader : Type 0 where
  pub page_type : ℕ
  pub tier_hint : ℕ
  pub homogeneity : ℕ
  pub row_count : ℕ
  pub checksum : ℕ
  pub predecessor : ℕ
  pub successor : ℕ
  pub parity : ℕ

pub record Page : Type 0 where
  pub header : PageHeader
  pub cells : List ℕ

pub data PageError : Type 0 where
  too_small : ℕ → PageError

pub data Uncorrectable : Type 0 where
  many_bits no_flip : ℕ → Uncorrectable

unfoldable pub new : Page
new = record {
  header = record {
    page_type = 0;
    tier_hint = 0;
    homogeneity = 0;
    row_count = 0;
    checksum = 0;
    predecessor = 0;
    successor = 0;
    parity = 0;
  };
  cells = replicate (page_size - header_size) 0;
}

unfoldable pub get_cell : ℕ → Page → Option ℕ
get_cell index p =
    if ltb index page_cells then some (from_le_bytes (take 8 (drop (index * 8) p.cells))) else none

unfoldable pub set_cell : ℕ → ℕ → Page → Option Page
set_cell index value p =
    if ltb index page_cells
    then some (record p {
      cells = take (index * 8) p.cells ++ to_le_bytes 8 value ++ drop (index * 8 + 8) p.cells;
    })
    else none

-- `bytemuck::bytes_of(&self.header)`
unfoldable pub header_bytes : PageHeader → List ℕ
header_bytes h =
    to_le_bytes 8 h.page_type
    ++ to_le_bytes 8 h.tier_hint
    ++ to_le_bytes 8 h.homogeneity
    ++ to_le_bytes 8 h.row_count
    ++ to_le_bytes 8 h.checksum
    ++ to_le_bytes 8 h.predecessor
    ++ to_le_bytes 8 h.successor
    ++ to_le_bytes 8 h.parity

unfoldable pub header_field : ℕ → List ℕ → ℕ
header_field n bytes = from_le_bytes (take 8 (drop (8 * n) bytes))

-- `bytemuck::from_bytes`
unfoldable pub header_of : List ℕ → PageHeader
unfolding header_field
header_of bytes = record {
  page_type = header_field 0 bytes;
  tier_hint = header_field 1 bytes;
  homogeneity = header_field 2 bytes;
  row_count = header_field 3 bytes;
  checksum = header_field 4 bytes;
  predecessor = header_field 5 bytes;
  successor = header_field 6 bytes;
  parity = header_field 7 bytes;
}

unfoldable pub to_bytes : Page → List ℕ
unfolding header_bytes
to_bytes p = header_bytes p.header ++ p.cells

unfoldable pub from_bytes : List ℕ → Result Page PageError
unfolding header_of
from_bytes bytes =
    if ltb (length bytes) page_size
    then err (too_small (length bytes))
    else ok (record {
      header = header_of (take header_size bytes);
      cells = drop header_size (take page_size bytes);
    })

-- `self.cells[byte_idx] ^= flip_mask`
unfoldable pub flip : ℕ → ℕ → Page → Page
flip byte_idx mask p = record p {
  cells = set p.cells byte_idx (bit_xor (get_or p.cells byte_idx 0) mask);
}

module _ (cpu : Option Sse42) where
  unfoldable pub verify_checksum : Page → Bool
  unfolding compute_crc32c
  verify_checksum p = compute_crc32c cpu p.cells == p.header.checksum

  unfoldable pub update_checksum : Page → Page
  unfolding compute_crc32c compute_parity
  update_checksum p = record p {
    header = record p.header {
      checksum = compute_crc32c cpu p.cells;
      parity = compute_parity p.cells;
    };
  }

  -- The loop over the words, with the number of words to go
  unfoldable pub try_words : ℕ → ℕ → ℕ → ℕ → Page → Bool × Page
  unfolding flip verify_checksum
  try_words zero word_idx byte_in_word mask p = (false, p)
  try_words (suc n) word_idx byte_in_word mask p =
      let byte_idx = word_idx * 8 + byte_in_word in
      let flipped = flip byte_idx mask p in
      let rest = try_words n (suc word_idx) byte_in_word mask (flip byte_idx mask flipped) in
      if verify_checksum flipped then (true, flipped) else rest

  unfoldable pub verify_and_correct : Page → Result Bool Uncorrectable × Page
  unfolding verify_checksum compute_parity try_words
  verify_and_correct p =
      let syndrome = bit_xor p.header.parity (compute_parity p.cells) in
      let bit_pos = trailing_zeros 64 syndrome in
      let (found, q) = try_words (length p.cells / 8) 0 (bit_pos / 8) (2 ^ (bit_pos % 8)) p in
      if verify_checksum p
      then (ok false, p)
      else if count_ones 64 syndrome == 1
      then if found then (ok true, q) else (err (no_flip syndrome), q)
      else (err (many_bits syndrome), p)
