-- ===== src/Sketch/CountMin.antt =====
-- src/sketch/count_min.rs: the Count-Min sketch. `xxh3_64` is the hash of an external library. The
-- asserts of `new` and `merge` are `none`. Loops over the rows take the rows and the seeds, `depth`
-- of each, side by side.
pub mod Bounds
mod Examples
use Prim.Native.Nat.{bit_or}
use tensorvault.Prelude.{
  ℕ, zero, suc, ◌+◌, ◌-◌, ◌*◌, ◌%◌, min, ltb, ◌==◌, if◌then◌else◌, not, ◌||◌, Option, none, some,
  List, [], ◌∷◌, ◌++◌, get_or, set, replicate, u64_mod,
}
use tensorvault.Storage.Bytes.{to_le_bytes}

pub record CountMin : Type 0 where
  pub depth : ℕ
  pub width : ℕ
  pub counts : List (List ℕ)
  pub seeds : List ℕ

unfoldable pub saturating_add : ℕ → ℕ → ℕ
saturating_add a b = min (a + b) (u64_mod - 1)

-- `(0..depth).map(...)` from `i` on, with `n` to go
unfoldable pub seeds_from : ℕ → ℕ → List ℕ
seeds_from zero i = []
seeds_from (suc n) i = bit_or (i * 0x9E3779B97F4A7C15 % u64_mod) 1 ∷ seeds_from n (i + 1)

unfoldable pub new : ℕ → ℕ → Option CountMin
unfolding seeds_from
new depth width =
    if depth == 0 || width == 0
    then none
    else some (record {
      depth = depth;
      width = width;
      counts = replicate depth (replicate width 0);
      seeds = seeds_from depth 0;
    })

-- One counter of `merge`, along two rows of the same width.
unfoldable pub merge_row : List ℕ → List ℕ → List ℕ
unfolding saturating_add
merge_row [] ys = []
merge_row (x ∷ xs) [] = x ∷ xs
merge_row (x ∷ xs) (y ∷ ys) = saturating_add x y ∷ merge_row xs ys

unfoldable pub merge_rows : List (List ℕ) → List (List ℕ) → List (List ℕ)
unfolding merge_row
merge_rows [] others = []
merge_rows (row ∷ rows) [] = row ∷ rows
merge_rows (row ∷ rows) (other ∷ others) = merge_row row other ∷ merge_rows rows others

unfoldable pub merge : CountMin → CountMin → Option CountMin
unfolding merge_rows
merge s other =
    if not (s.depth == other.depth) || not (s.width == other.width)
    then none
    else some (record s { counts = merge_rows s.counts other.counts })

module _ (xxh3_64 : List ℕ → ℕ) where
  unfoldable pub hash : ℕ → ℕ → ℕ → ℕ
  hash width key seed = xxh3_64 (to_le_bytes 8 key ++ to_le_bytes 8 seed) % width

  unfoldable pub add_rows : ℕ → ℕ → ℕ → List ℕ → List (List ℕ) → List (List ℕ)
  unfolding hash saturating_add
  add_rows width key count (seed ∷ seeds) (row ∷ rows) =
      let c = hash width key seed in
      set row c (saturating_add (get_or row c 0) count) ∷ add_rows width key count seeds rows
  add_rows width key count [] rows = rows
  add_rows width key count (seed ∷ seeds) [] = []

  unfoldable pub add : ℕ → ℕ → CountMin → CountMin
  unfolding add_rows
  add key count s = record s { counts = add_rows s.width key count s.seeds s.counts }

  unfoldable pub min_rows : ℕ → ℕ → List ℕ → List (List ℕ) → ℕ → ℕ
  unfolding hash
  min_rows width key (seed ∷ seeds) (row ∷ rows) m =
      let v = get_or row (hash width key seed) 0 in
      min_rows width key seeds rows (if ltb v m then v else m)
  min_rows width key [] rows m = m
  min_rows width key (seed ∷ seeds) [] m = m

  unfoldable pub estimate : CountMin → ℕ → ℕ
  unfolding min_rows
  estimate s key =
      let m = min_rows s.width key s.seeds s.counts (u64_mod - 1) in
      if m == u64_mod - 1 then 0 else m

  -- A stream of keys with their weights.
  unfoldable pub add_all : List (ℕ × ℕ) → CountMin → CountMin
  unfolding add
  add_all [] s = s
  add_all ((key, count) ∷ stream) s = add_all stream (add key count s)
