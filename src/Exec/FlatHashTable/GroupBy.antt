-- ===== src/Exec/FlatHashTable/GroupBy.antt =====
-- src/exec/flat_hash_table.rs: `hash_group_by_flat`. The estimate of the number of groups, which
-- samples the keys, and the grouping of `CountDistinct`, which the source leaves to the maps of the
-- standard library, are arguments. The answer none is a column of values shorter than that of keys,
-- where the source panics.
use tensorvault.Prelude.{ℕ, ◌+◌, ◌%◌, u64_mod, Option, some, none, List, [], ◌∷◌}
use tensorvault.Exec.FlatHashTable.{
  AggState, update, finalize_min, finalize_max, finalize_avg, new, aggregate_rows, iter,
}

pub data AggFunc : Type 0 where
  count sum avg min max count_distinct : AggFunc

-- The keys with their values: `vals[i]` for each `i`
unfoldable pub rows_of : List ℕ → List ℕ → Option (List (ℕ × ℕ))
rows_of [] values = some []
rows_of (key ∷ keys) [] = none
rows_of (key ∷ keys) (value ∷ values) = elim (rows_of keys values) [
  | some rows ↦ some ((key, value) ∷ rows)
  | none ↦ none
]

-- The rows of `Count`, which reads no values
unfoldable pub bare_rows : List ℕ → List (ℕ × ℕ)
bare_rows [] = []
bare_rows (key ∷ keys) = (key, 0) ∷ bare_rows keys

abbrev pub count_row : ℕ → AggState → AggState
count_row value s = record s { count = (s.count + 1) % u64_mod }

abbrev pub value_row : ℕ → AggState → AggState
value_row value s = update s value

unfoldable pub results : (AggState → ℕ) → List (ℕ × AggState) → List (ℕ × ℕ)
results finish [] = []
results finish ((key, state) ∷ groups) = (key, finish state) ∷ results finish groups

-- `values.unwrap_or(keys)`
abbrev pub values_or : Option (List ℕ) → List ℕ → List ℕ
values_or (some values) keys = values
values_or none keys = keys

module _ (xxh3_64 : List ℕ → ℕ) (f64_bits : ℕ → ℕ) (f64_div : ℕ → ℕ → ℕ)
    (estimated_groups : List ℕ → ℕ) (group_distinct : List ℕ → List ℕ → List (ℕ × ℕ)) where
  -- The table of the rows, read out
  unfoldable pub run :
      (ℕ → AggState → AggState) → (AggState → ℕ) → List ℕ → List (ℕ × ℕ) → Option (List (ℕ × ℕ))
  run step finish keys rows =
      elim (aggregate_rows xxh3_64 step rows (new (estimated_groups keys))) [
        | some t ↦ some (results finish (iter t.keys t.occupied t.states))
        | none ↦ none
      ]

  unfoldable pub run_values : (AggState → ℕ) → List ℕ → Option (List ℕ) → Option (List (ℕ × ℕ))
  run_values finish keys values = elim (rows_of keys (values_or values keys)) [
    | some rows ↦ run value_row finish keys rows
    | none ↦ none
  ]

  unfoldable pub hash_group_by_flat : List ℕ → Option (List ℕ) → AggFunc → Option (List (ℕ × ℕ))
  hash_group_by_flat keys values count = run count_row (λ s. s.count) keys (bare_rows keys)
  hash_group_by_flat keys values sum = run_values (λ s. f64_bits s.sum) keys values
  hash_group_by_flat keys values avg = run_values (finalize_avg f64_div) keys values
  hash_group_by_flat keys values min = run_values finalize_min keys values
  hash_group_by_flat keys values max = run_values finalize_max keys values
  hash_group_by_flat keys values count_distinct = some (group_distinct keys (values_or values keys))
