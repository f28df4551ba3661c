-- ===== src/Types/NullBitmap.antt =====
-- src/types/null.rs: `NullBitmap`, a bit for each row in words of 64. Every access is inside the words
-- when there is one for every 64 rows.
pub mod Rows
mod Examples
use Prim.Native.Nat.{bit_and, bit_or}
use tensorvault.Prelude.{
  ℕ, ◌+◌, ◌-◌, ◌/◌, ◌%◌, ◌^◌, ltb, ◌==◌, ◌&&◌, if◌then◌else◌, Bool, false, List, [], ◌∷◌, length,
  get_or, set, take, replicate, u64_mod,
}
use tensorvault.Prelude.Bits.{count_ones}
use tensorvault.Prelude.Masks.{shift_right}

pub record NullBitmap : Type 0 where
  pub bits : List ℕ
  pub len : ℕ

unfoldable pub new_none_null : ℕ → NullBitmap
new_none_null len = record { bits = replicate ((len + 63) / 64) 0; len = len }

unfoldable pub new_all_null : ℕ → NullBitmap
new_all_null len =
    let words = (len + 63) / 64 in
    let bits = replicate words (u64_mod - 1) in
    record {
      bits =
          if ltb 0 (length bits) && ltb 0 (len % 64)
          then set bits (length bits - 1) (2 ^ (len % 64) - 1)
          else bits;
      len = len;
    }

unfoldable pub set_null : ℕ → NullBitmap → NullBitmap
set_null i b =
    if ltb i b.len
    then record b { bits = set b.bits (i / 64) (bit_or (get_or b.bits (i / 64) 0) (2 ^ (i % 64))) }
    else b

unfoldable pub clear_null : ℕ → NullBitmap → NullBitmap
clear_null i b =
    if ltb i b.len
    then record b {
      bits = set b.bits (i / 64) (bit_and (get_or b.bits (i / 64) 0) (2 ^ 64 - 1 - 2 ^ (i % 64)));
    }
    else b

unfoldable pub is_null : ℕ → NullBitmap → Bool
is_null i b =
    if ltb i b.len then bit_and (shift_right (i % 64) (get_or b.bits (i / 64) 0)) 1 == 1 else false

unfoldable pub sum_ones : List ℕ → ℕ
sum_ones [] = 0
sum_ones (x ∷ xs) = count_ones 64 x + sum_ones xs

unfoldable pub count_nulls : NullBitmap → ℕ
count_nulls b =
    let full = b.len / 64 in
    let rem = b.len % 64 in
    let count = sum_ones (take full b.bits) in
    if ltb 0 rem && ltb full (length b.bits)
    then count + count_ones 64 (bit_and (get_or b.bits full 0) (2 ^ rem - 1))
    else count

unfoldable pub is_empty : NullBitmap → Bool
is_empty b = b.len == 0
