-- ===== src/Exec/FlatHashTable.antt =====
-- src/exec/flat_hash_table.rs: the open-addressed table of group keys with Robin Hood probing, and
-- the aggregation over it. The hash function of the crate is an argument, as are the two
-- conversions to the bits of an `f64`. The answer none is a loop that has run out of fuel.
pub mod Probe
pub mod Keys
pub mod Room
pub mod Grow
pub mod Fresh
pub mod Groups
pub mod GroupBy
pub mod GroupKeys
pub mod States
pub mod Attribution
mod Examples
use Prim.Native.Nat.{bit_and}
use tensorvault.Prelude.{
  ℕ, zero, suc, ◌+◌, ◌-◌, ◌*◌, ◌%◌, min, max, ltb, ◌==◌, if◌then◌else◌, u64_mod, Bool, true, false,
  Option, some, none, List, [], ◌∷◌, get_or, set, length, replicate,
}
use tensorvault.Storage.Bytes.{to_le_bytes}
use tensorvault.Exec.BloomFilter.{next_power_of_two}

pub record AggState : Type 0 where
  pub count : ℕ
  pub sum : ℕ
  pub min : ℕ
  pub max : ℕ

unfoldable pub agg_new : AggState
agg_new = record { count = 0; sum = 0; min = u64_mod - 1; max = 0 }

unfoldable pub update : AggState → ℕ → AggState
update s value = record {
  count = (s.count + 1) % u64_mod;
  sum = (s.sum + value) % u64_mod;
  min = if ltb value s.min then value else s.min;
  max = if ltb s.max value then value else s.max;
}

unfoldable pub finalize_min : AggState → ℕ
finalize_min s = if s.count == 0 then 0 else s.min

unfoldable pub finalize_max : AggState → ℕ
finalize_max s = if s.count == 0 then 0 else s.max

-- `f64_div a b` is the bits of the quotient of the two numbers.
unfoldable pub finalize_avg : (ℕ → ℕ → ℕ) → AggState → ℕ
finalize_avg f64_div s = if s.count == 0 then 0 else f64_div s.sum s.count

pub record FlatHashTable : Type 0 where
  pub keys : List ℕ
  pub occupied : List Bool
  pub probe_dist : List ℕ
  pub states : List AggState
  pub capacity : ℕ
  pub mask : ℕ
  pub len : ℕ

-- A table of `capacity` free slots
unfoldable pub free_table : ℕ → FlatHashTable
free_table capacity = record {
  keys = replicate capacity 0;
  occupied = replicate capacity false;
  probe_dist = replicate capacity 0;
  states = replicate capacity agg_new;
  capacity = capacity;
  mask = capacity - 1;
  len = 0;
}

unfoldable pub new : ℕ → FlatHashTable
new expected_groups = free_table (max (next_power_of_two 64 1 (expected_groups * 2)) 16)

-- A write of the carried key and its distance at `idx`
unfoldable pub place : ℕ → ℕ → ℕ → FlatHashTable → FlatHashTable
place idx dist key t = record t {
  keys = set t.keys idx key;
  probe_dist = set t.probe_dist idx dist;
}

-- The loop of `insert`: the table and the slot that it returns
unfoldable pub probe : ℕ → ℕ → ℕ → ℕ → FlatHashTable → Option (FlatHashTable × ℕ)
probe zero idx dist key t = none
probe (suc fuel) idx dist key t = elim (get_or t.occupied idx false) [
  | false ↦
      some
        (record (place idx dist key t) { occupied = set t.occupied idx true; len = t.len + 1 }, idx)
  | true ↦ elim (get_or t.keys idx 0 == key) [
    | true ↦ some (t, idx)
    | false ↦ elim (ltb (get_or t.probe_dist idx 0) dist) [
      | true ↦
          probe fuel (bit_and (idx + 1) t.mask) (min (get_or t.probe_dist idx 0 + 1) 255)
            (get_or t.keys idx 0) (place idx dist key t)
      | false ↦ probe fuel (bit_and (idx + 1) t.mask) (min (dist + 1) 255) key t
    ]
  ]
]

-- The loop of `resize` over the old slots, whose keys go through `insert`
unfoldable pub reinsert :
    (ℕ → FlatHashTable → Option (FlatHashTable × ℕ))
    → List ℕ
    → List Bool
    → List AggState
    → FlatHashTable
    → Option FlatHashTable
reinsert insert_key (key ∷ keys) (true ∷ occupied) (state ∷ states) t = elim (insert_key key t) [
  | some (u, new_slot) ↦
      reinsert insert_key keys occupied states (record u { states = set u.states new_slot state })
  | none ↦ none
]
reinsert insert_key (key ∷ keys) (false ∷ occupied) (state ∷ states) t =
    reinsert insert_key keys occupied states t
reinsert insert_key _ _ _ t = some t

module _ (xxh3_64 : List ℕ → ℕ) where
  -- `insert` and `resize` call each other: `depth` bounds the calls inside one another.
  unfoldable pub insert : ℕ → ℕ → FlatHashTable → Option (FlatHashTable × ℕ)
  insert zero key t = none
  insert (suc depth) key t =
      elim (elim (ltb (t.capacity * 3) (t.len * 4)) as (λ b. Option FlatHashTable) [
        | true ↦ reinsert (insert depth) t.keys t.occupied t.states (free_table (t.capacity * 2))
        | false ↦ some t
      ]) [
        | some u ↦ probe u.capacity (bit_and (xxh3_64 (to_le_bytes 8 key)) u.mask) 0 key u
        | none ↦ none
      ]

  -- One row of the aggregation: the state of the slot that `insert` returns is updated.
  unfoldable pub aggregate_row : (AggState → AggState) → ℕ → FlatHashTable → Option FlatHashTable
  aggregate_row step key t = elim (insert 2 key t) [
    | some (u, slot) ↦
        some (record u { states = set u.states slot (step (get_or u.states slot agg_new)) })
    | none ↦ none
  ]

  -- The loop over the rows, whose keys are `keys`
  unfoldable pub aggregate_rows :
      (ℕ → AggState → AggState) → List (ℕ × ℕ) → FlatHashTable → Option FlatHashTable
  aggregate_rows step [] t = some t
  aggregate_rows step ((key, value) ∷ rows) t = elim (aggregate_row (step value) key t) [
    | some u ↦ aggregate_rows step rows u
    | none ↦ none
  ]

-- The occupied slots with their states
unfoldable pub iter : List ℕ → List Bool → List AggState → List (ℕ × AggState)
iter (key ∷ keys) (true ∷ occupied) (state ∷ states) = (key, state) ∷ iter keys occupied states
iter (key ∷ keys) (false ∷ occupied) (state ∷ states) = iter keys occupied states
iter _ _ _ = []
