-- ===== src/Exec/FlatHashTable/Examples.antt =====
-- Tables of few keys, hashed by their low byte.
use tensorvault.Prelude.{
  ℕ, ◌+◌, ◌≡◌, refl, Option, some, none, true, false, List, [], ◌∷◌, get_or, length, replicate,
  arith,
}
use tensorvault.Storage.Bytes.{to_le_bytes}
use tensorvault.Exec.BloomFilter.{next_power_of_two}
use tensorvault.Exec.FlatHashTable.{
  FlatHashTable, AggState, agg_new, place, probe, free_table, new, reinsert, insert, aggregate_row,
  aggregate_rows, iter,
}
use tensorvault.Exec.FlatHashTable.Keys.{IsTable}
use tensorvault.Exec.FlatHashTable.GroupBy.{AggFunc, hash_group_by_flat}
use tensorvault.Exec.FlatHashTable.GroupKeys.{HasGroups, hash_group_by_flat-HasGroups}
use tensorvault.Exec.FlatHashTable.States.{Summary, state_of, update-Summary}
use tensorvault.Exec.FlatHashTable.Attribution.{Misattributed, aggregate_row-Misattributed}

abbrev low_byte : List ℕ → ℕ
low_byte bytes = get_or bytes 0 0

abbrev count_row : ℕ → AggState → AggState
count_row value s = record s { count = s.count + 1 }

-- One row of the key 0 and three of the key 1, in their own slots
abbrev two_keys : FlatHashTable
two_keys = record {
  keys = 0 ∷ 1 ∷ replicate 14 0;
  occupied = true ∷ true ∷ replicate 14 false;
  probe_dist = replicate 16 0;
  states = record agg_new { count = 1 } ∷ record agg_new { count = 3 } ∷ replicate 14 agg_new;
  capacity = 16;
  mask = 15;
  len = 2;
}

two_keys-IsTable : IsTable 4 two_keys
two_keys-IsTable = record {
  slots = refl;
  masked = refl;
  all_keys = refl;
  all_occupied = refl;
  all_states = refl;
  counted = refl;
}

abbrev counts : Option FlatHashTable → List (ℕ × ℕ)
counts none = []
counts (some t) = pairs (iter t.keys t.occupied t.states)
  where
    pairs : List (ℕ × AggState) → List (ℕ × ℕ)
    pairs [] = []
    pairs ((key, s) ∷ rest) = (key, s.count) ∷ pairs rest

-- One row of the key 0, three of the key 1 and one of the key 16, whose home is that of 0: the three
-- rows are counted for 16.
three_for_16 :
    counts
      (aggregate_rows low_byte count_row ((0, 0) ∷ (1, 0) ∷ (1, 0) ∷ (1, 0) ∷ (16, 0) ∷ []) (new 1))
    ≡ (0, 1) ∷ (16, 3) ∷ (1, 1) ∷ []
unfolding aggregate_rows aggregate_row insert reinsert probe place new free_table next_power_of_two
    iter to_le_bytes agg_new
three_for_16 = refl

aggregate_row-Misattributed_example :
    Misattributed (count_row 0) 16 1 2 two_keys (aggregate_row low_byte (count_row 0) 16 two_keys)
unfolding to_le_bytes
aggregate_row-Misattributed_example =
    aggregate_row-Misattributed low_byte (count_row 0) 4 16 two_keys two_keys-IsTable (omega arith)
      (omega arith) refl (omega arith) refl (omega arith) refl refl

hash_group_by_flat-HasGroups_example : HasGroups (0 ∷ 1 ∷ 16 ∷ 0 ∷ []) (
    hash_group_by_flat low_byte
      (λ n. n)
      (λ a b. a)
      length
      (λ keys values. [])
      (0 ∷ 1 ∷ 16 ∷ 0 ∷ [])
      (some (5 ∷ 6 ∷ 7 ∷ 8 ∷ []))
      AggFunc.min)
hash_group_by_flat-HasGroups_example =
    hash_group_by_flat-HasGroups low_byte (λ n. n) (λ a b. a) length (λ keys values. [])
      (0 ∷ 1 ∷ 16 ∷ 0 ∷ []) (some (5 ∷ 6 ∷ 7 ∷ 8 ∷ [])) AggFunc.min (λ e. cc) (omega arith)

update-Summary_example : Summary (7 ∷ 3 ∷ 9 ∷ []) (state_of agg_new (7 ∷ 3 ∷ 9 ∷ []))
update-Summary_example = update-Summary 7 (3 ∷ 9 ∷ []) (omega arith) (omega arith)
