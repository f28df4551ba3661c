-- ===== src/Exec/Bitmap/Packed.antt =====
-- The loops that pack a column, against the test of each row.
use tensorvault.Prelude.{
  ℕ, suc, ◌+◌, ◌*◌, ◌/◌, ◌<◌, ◌≤◌, ◌≡◌, refl, ap, ◌∙◌, ◌==◌, ==_iff, not, ◌||◌, ltb, leb,
  if◌then◌else◌, Bool, true, false, Bool-cases, inl, inr, List, [], ◌∷◌, map, length,
  length-replicate, get_or-replicate, arith,
}
use tensorvault.Prelude.Digits.{digit-zero}
use tensorvault.Prelude.Ints.{ℤ, as_i64, ltb_ℤ}
use tensorvault.Exec.Bitmap.{
  Bitmap, new, get, set_bit, byte_of, place_of, bools_from, to_bool_vec, pack, from_bool_slice,
  filter_eq_u64, filter_ne_u64, filter_lt_u64, filter_gt_u64, filter_le_u64, filter_ge_u64,
  filter_lt_i64, filter_gt_i64, filter_le_i64, filter_ge_i64,
}
use tensorvault.Exec.Bitmap.Bit.{byte_of_lem, get_lem, get-set_bit, length-set_bit}

-- The test of row `j`, for the rows from `i` on
abbrev tested : {A : Type 0} → (A → Bool) → ℕ → ℕ → List A → Bool
tested test i j [] = false
tested test i j (x ∷ xs) = if i == j then test x else tested test (suc i) j xs

get-new : (n j : ℕ) → get j (new n) ≡ false
unfolding new
get-new n j =
    get_lem j (new n)
    ∙ rw (get_or-replicate {A = ℕ} ((n + 7) / 8) (byte_of j) 0, digit-zero (place_of j)) refl

set_or : (p g : Bool) → (if p then true else g) ≡ (g || (if p then true else false))
set_or true true = refl
set_or true false = refl
set_or false true = refl
set_or false false = refl

kept_or : (p g : Bool) → g ≡ (g || (if p then false else false))
kept_or true true = refl
kept_or true false = refl
kept_or false true = refl
kept_or false false = refl

-- A row's own test, or that of a later row; never both
join_or :
    (p g t r : Bool)
    → (p ≡ true → r ≡ false)
    → ((g || (if p then t else false)) || r) ≡ (g || (if p then t else r))
join_or p true t r h = refl
join_or true false true r h = refl
join_or true false false r h = h refl
join_or false false t r h = refl

module _ {A : Type 0} (test : A → Bool) where
  before_first : (i j : ℕ) (xs : List A) → j < i → tested test i j xs ≡ false
  before_first i j [] h = refl
  before_first i j (x ∷ xs) h = ground (arith, before_first (suc i) j xs (omega arith))

  packed_one :
      (i j : ℕ) (x : A) (b : Bitmap)
      → byte_of i < length b.bits
      → get j (if test x then set_bit i b else b) ≡ (get j b || (if i == j then test x else false))
  packed_one i j x b h = elim (Bool-cases (test x)) [
    | inl e ↦ rw (e, get-set_bit i j b h) (set_or (i == j) (get j b))
    | inr e ↦ rw e (kept_or (i == j) (get j b))
  ]

  same_bytes :
      (i : ℕ) (x : A) (b : Bitmap) → length (if test x then set_bit i b else b).bits ≡ length b.bits
  same_bytes i x b = elim (Bool-cases (test x)) [
    | inl e ↦ rw e (length-set_bit i b)
    | inr e ↦ rw e refl
  ]

  pack_lem :
      (i j : ℕ) (xs : List A) (b : Bitmap)
      → i + length xs ≤ 8 * length b.bits
      → get j (pack test i xs b) ≡ (get j b || tested test i j xs)
  unfolding pack
  pack_lem i j [] b h = or_false (get j b)
    where
      or_false : (g : Bool) → g ≡ (g || false)
      or_false true = refl
      or_false false = refl
  pack_lem i j (x ∷ xs) b h =
      pack_lem (suc i) j xs (if test x then set_bit i b else b) (omega (arith, same_bytes i x b))
      ∙ ap (λ g. g || tested test (suc i) j xs) (packed_one i j x b (omega (arith, byte_of_lem i)))
      ∙ join_or (i == j) (get j b) (test x) (tested test (suc i) j xs)
          (λ e. before_first (suc i) j xs (omega (arith, (==_iff i j).0 e)))

  -- The bits from row `i` on, where they are the tests of `xs`
  bools_from_lem :
      (i : ℕ) (xs : List A) (b : Bitmap)
      → ((j : ℕ) → i ≤ j → get j b ≡ tested test i j xs)
      → bools_from (length xs) i b ≡ map test xs
  unfolding bools_from
  bools_from_lem i [] b h = refl
  bools_from_lem i (x ∷ xs) b h =
      let first : get i b ≡ test x = h i (omega arith) ∙ rw ((==_iff i i).1 refl) refl in
      let later : (j : ℕ) → suc i ≤ j → get j b ≡ tested test (suc i) j xs =
        λ j l. h j (omega arith) ∙ skip i j x xs (omega arith) in
      λ k. first k ∷ bools_from_lem (suc i) xs b later k
    where
      skip :
          (i j : ℕ) (x : A) (xs : List A)
          → i < j
          → tested test i j (x ∷ xs) ≡ tested test (suc i) j xs
      skip i j x xs l = ground arith

  len-pack : (i : ℕ) (xs : List A) (b : Bitmap) → (pack test i xs b).len ≡ b.len
  unfolding pack set_bit
  len-pack i [] b = refl
  len-pack i (x ∷ xs) b = len-pack (suc i) xs _ ∙ same_len i x b
    where
      same_len : (i : ℕ) (x : A) (b : Bitmap) → (if test x then set_bit i b else b).len ≡ b.len
      same_len i x b = elim (Bool-cases (test x)) [ inl e ↦ rw e refl | inr e ↦ rw e refl ]

  room : (n : ℕ) → 0 + n ≤ 8 * length (new n).bits
  unfolding new
  room n = omega (arith, length-replicate {A = ℕ} ((n + 7) / 8) 0)

  new_len : (n : ℕ) → (new n).len ≡ n
  unfolding new
  new_len n = refl

  to_bool_vec-pack : (xs : List A) → to_bool_vec (pack test 0 xs (new (length xs))) ≡ map test xs
  unfolding to_bool_vec
  to_bool_vec-pack xs =
      ap (λ n. bools_from n 0 (pack test 0 xs (new (length xs))))
        (len-pack 0 xs (new (length xs)) ∙ new_len (length xs))
      ∙ bools_from_lem 0 xs (pack test 0 xs (new (length xs))) (λ j l.
        pack_lem 0 j xs (new (length xs)) (room (length xs))
        ∙ ap (λ g. g || tested test 0 j xs) (get-new (length xs) j))

-- Each filter of a column of `u64` cells, and `from_bool_slice`, packs the comparisons of the cells:
-- the bitmap, written out by `to_bool_vec`, has for each row whether its cell compares so with the
-- value, as unsigned numbers for the six filters of `u64` and as two's complement for the four of
-- `i64`.
pub to_bool_vec-filters :
    (bools : List Bool) (col : List ℕ) (val : ℕ) (n : ℤ)
    → (to_bool_vec (from_bool_slice bools) ≡ map (λ x. x) bools)
      × (to_bool_vec (filter_eq_u64 col val) ≡ map (λ c. c == val) col)
      × (to_bool_vec (filter_ne_u64 col val) ≡ map (λ c. not (c == val)) col)
      × (to_bool_vec (filter_lt_u64 col val) ≡ map (λ c. ltb c val) col)
      × (to_bool_vec (filter_gt_u64 col val) ≡ map (λ c. ltb val c) col)
      × (to_bool_vec (filter_le_u64 col val) ≡ map (λ c. leb c val) col)
      × (to_bool_vec (filter_ge_u64 col val) ≡ map (λ c. leb val c) col)
      × (to_bool_vec (filter_lt_i64 col n) ≡ map (λ c. ltb_ℤ (as_i64 c) n) col)
      × (to_bool_vec (filter_gt_i64 col n) ≡ map (λ c. ltb_ℤ n (as_i64 c)) col)
      × (to_bool_vec (filter_le_i64 col n) ≡ map (λ c. not (ltb_ℤ n (as_i64 c))) col)
      × (to_bool_vec (filter_ge_i64 col n) ≡ map (λ c. not (ltb_ℤ (as_i64 c) n)) col)
unfolding from_bool_slice filter_eq_u64 filter_ne_u64 filter_lt_u64 filter_gt_u64 filter_le_u64
    filter_ge_u64 filter_lt_i64 filter_gt_i64 filter_le_i64 filter_ge_i64
to_bool_vec-filters bools col val n = (
  to_bool_vec-pack (λ x. x) bools,
  to_bool_vec-pack (λ c. c == val) col,
  to_bool_vec-pack (λ c. not (c == val)) col,
  to_bool_vec-pack (λ c. ltb c val) col,
  to_bool_vec-pack (λ c. ltb val c) col,
  to_bool_vec-pack (λ c. leb c val) col,
  to_bool_vec-pack (λ c. leb val c) col,
  to_bool_vec-pack (λ c. ltb_ℤ (as_i64 c) n) col,
  to_bool_vec-pack (λ c. ltb_ℤ n (as_i64 c)) col,
  to_bool_vec-pack (λ c. not (ltb_ℤ n (as_i64 c))) col,
  to_bool_vec-pack (λ c. not (ltb_ℤ (as_i64 c) n)) col,
)
