-- ===== src/Types/ColumnNulls/Counts.antt =====
-- The counts of a column's nulls.
use tensorvault.Prelude.{◌+◌, ◌≡◌, refl, not, ltb, Bool, true, false, List, [], ◌∷◌, length, arith}
use tensorvault.Types.ColumnNulls.{
  NullBitmap, null_count, non_null_count, count_where, has_nulls, any_of, len,
}

counts : (xs : List Bool) → count_where (λ x. x) xs + count_where not xs ≡ length xs
unfolding count_where
counts [] = refl
counts (true ∷ xs) = omega (arith, counts xs)
counts (false ∷ xs) = omega (arith, counts xs)

any_counts : (xs : List Bool) → any_of xs ≡ ltb 0 (count_where (λ x. x) xs)
unfolding any_of count_where
any_counts [] = refl
any_counts (true ∷ xs) = ground arith
any_counts (false ∷ xs) = any_counts xs

-- The nulls and the other rows make up the column, and `has_nulls` says whether there are nulls.
pub null_count-len :
    (b : NullBitmap)
    → (null_count b + non_null_count b ≡ len b) × (has_nulls b ≡ ltb 0 (null_count b))
unfolding null_count non_null_count len has_nulls
null_count-len b = (counts b.bits, any_counts b.bits)
