-- ===== src/Types/ColumnNulls.antt =====
-- src/types/null_bitmap.rs: the nulls of a column, a Boolean for each row.
pub mod Counts
use tensorvault.Prelude.{
  ℕ, suc, not, ◌||◌, ltb, ◌==◌, if◌then◌else◌, Bool, true, false, List, [], ◌∷◌, ◌++◌, length,
  get_or, set, take, replicate,
}

pub record NullBitmap : Type 0 where
  pub bits : List Bool

abbrev pub bitmap : List Bool → NullBitmap
bitmap bits = record { bits = bits }

unfoldable pub new : ℕ → NullBitmap
new n = bitmap (replicate n false)

unfoldable pub all_null : ℕ → NullBitmap
all_null n = bitmap (replicate n true)

unfoldable pub all_non_null : ℕ → NullBitmap
all_non_null n = bitmap (replicate n false)

unfoldable pub is_null : ℕ → NullBitmap → Bool
is_null idx b = get_or b.bits idx false

unfoldable pub set_null : ℕ → NullBitmap → NullBitmap
set_null idx b = if ltb idx (length b.bits) then bitmap (set b.bits idx true) else b

unfoldable pub set_non_null : ℕ → NullBitmap → NullBitmap
set_non_null idx b = if ltb idx (length b.bits) then bitmap (set b.bits idx false) else b

-- `filter(..).count()`
unfoldable pub count_where : (Bool → Bool) → List Bool → ℕ
count_where test [] = 0
count_where test (x ∷ xs) = let rest = count_where test xs in if test x then suc rest else rest

unfoldable pub null_count : NullBitmap → ℕ
null_count b = count_where (λ x. x) b.bits

unfoldable pub non_null_count : NullBitmap → ℕ
non_null_count b = count_where not b.bits

unfoldable pub any_of : List Bool → Bool
any_of [] = false
any_of (x ∷ xs) = x || any_of xs

unfoldable pub has_nulls : NullBitmap → Bool
has_nulls b = any_of b.bits

unfoldable pub non_null_mask : NullBitmap → List Bool
non_null_mask b = b.bits

unfoldable pub push_null : NullBitmap → NullBitmap
push_null b = bitmap (b.bits ++ true ∷ [])

unfoldable pub push_non_null : NullBitmap → NullBitmap
push_non_null b = bitmap (b.bits ++ false ∷ [])

unfoldable pub truncate : ℕ → NullBitmap → NullBitmap
truncate n b = bitmap (take n b.bits)

unfoldable pub len : NullBitmap → ℕ
len b = length b.bits

unfoldable pub is_empty : NullBitmap → Bool
is_empty b = length b.bits == 0
