-- ===== src/Exec/BloomFilter.antt =====
-- src/exec/bloom_filter.rs: the filter and its scalar operations. The CRC instruction of the
-- processor is an argument; on a machine without it, `hash_pair` takes its other branch. An access
-- without a bounds check is one of the list, where a write out of bounds changes nothing.
pub mod SetBits
pub mod Contains
mod Examples
use Prim.Native.Nat.{bit_and, bit_or, bit_xor}
use tensorvault.Prelude.{
  ℕ, zero, suc, ◌+◌, ◌-◌, ◌*◌, ◌/◌, ◌%◌, ◌^◌, min, max, leb, ◌==◌, not, ◌&&◌, u64_mod,
  if◌then◌else◌, Bool, true, false, Option, none, some, List, get_or, set, length, replicate,
}
use tensorvault.Prelude.Masks.{shift_right}

pub record BloomFilter : Type 0 where
  pub bits : List ℕ
  pub word_mask : ℕ
  pub num_hashes : ℕ
  pub num_items : ℕ

-- The least power of two from `p` on that is not below `n`, in 64 steps
unfoldable pub next_power_of_two : ℕ → ℕ → ℕ → ℕ
next_power_of_two zero p n = p
next_power_of_two (suc fuel) p n =
    let more = next_power_of_two fuel (2 * p) n in if leb n p then p else more

-- For less than 2 ^ 60 expected items, whose product with 10 is a `usize`.
unfoldable pub new : ℕ → BloomFilter
unfolding next_power_of_two
new expected_items =
    let min_words = (expected_items * 10 + 63) / 64 in
    let nwords = next_power_of_two 64 1 (max min_words 1) in
    record { bits = replicate nwords 0; word_mask = nwords - 1; num_hashes = 3; num_items = 0 }

unfoldable pub with_hashes : ℕ → ℕ → BloomFilter
unfolding new
with_hashes expected_items num_hashes = record (new expected_items) {
  num_hashes = min (max num_hashes 1) 7;
}

unfoldable pub len : BloomFilter → ℕ
len f = f.num_items

unfoldable pub is_empty : BloomFilter → Bool
is_empty f = f.num_items == 0

unfoldable pub bit_count : BloomFilter → ℕ
bit_count f = length f.bits * 64

unfoldable pub mix64 : ℕ → ℕ
unfolding shift_right
mix64 key =
    let a = (key + 0x9E3779B97F4A7C15) % u64_mod in
    let b = bit_xor a (shift_right 30 a) * 0xBF58476D1CE4E5B9 % u64_mod in
    let c = bit_xor b (shift_right 27 b) * 0x94D049BB133111EB % u64_mod in
    bit_xor c (shift_right 31 c)

-- `Some(_mm_crc32_u64)` on x86-64
unfoldable pub hash_pair : Option (ℕ → ℕ → ℕ) → ℕ → ℕ × ℕ
unfolding mix64
hash_pair (some mm_crc32_u64) key =
    (mix64 (mm_crc32_u64 0 key), bit_or (mix64 (mm_crc32_u64 0xFFFFFFFFFFFFFFFF key)) 1)
hash_pair none key = (mix64 key, bit_or (mix64 ((key + 0x9E3779B97F4A7C15) % u64_mod)) 1)

unfoldable pub set_bit : ℕ → BloomFilter → BloomFilter
unfolding shift_right
set_bit bit_idx f =
    let word_idx = bit_and (shift_right 6 bit_idx) f.word_mask in
    let bit_in_word = bit_and bit_idx 63 in
    record f { bits = set f.bits word_idx (bit_or (get_or f.bits word_idx 0) (2 ^ bit_in_word)) }

unfoldable pub test_bit : ℕ → BloomFilter → Bool
unfolding shift_right
test_bit bit_idx f =
    let word_idx = bit_and (shift_right 6 bit_idx) f.word_mask in
    let bit_in_word = bit_and bit_idx 63 in
    not (bit_and (shift_right bit_in_word (get_or f.bits word_idx 0)) 1 == 0)

-- The loop of `insert`
unfoldable pub set_bits : ℕ → ℕ → ℕ → BloomFilter → BloomFilter
unfolding set_bit
set_bits zero h2 bit f = f
set_bits (suc n) h2 bit f = set_bits n h2 ((bit + h2) % u64_mod) (set_bit bit f)

unfoldable pub insert : Option (ℕ → ℕ → ℕ) → ℕ → BloomFilter → BloomFilter
unfolding hash_pair set_bits
insert crc key f =
    let (h1, h2) = hash_pair crc key in
    let g = set_bits f.num_hashes h2 h1 f in record g { num_items = (g.num_items + 1) % u64_mod }

-- The loop of `might_contain`
unfoldable pub test_bits : ℕ → ℕ → ℕ → BloomFilter → Bool
unfolding test_bit
test_bits zero h2 bit f = true
test_bits (suc n) h2 bit f =
    let rest = test_bits n h2 ((bit + h2) % u64_mod) f in if test_bit bit f then rest else false

unfoldable pub might_contain : Option (ℕ → ℕ → ℕ) → ℕ → BloomFilter → Bool
unfolding hash_pair test_bits
might_contain crc key f = let (h1, h2) = hash_pair crc key in test_bits f.num_hashes h2 h1 f
