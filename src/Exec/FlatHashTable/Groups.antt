-- ===== src/Exec/FlatHashTable/Groups.antt =====
-- `insert` and the loop over the rows: they return, and the table holds the keys of the rows.
use mathlib.Core.Path.{subst}
use native.Mathlib.Nat.{pow-suc}
use tensorvault.Prelude.{
  ℕ, suc, ◌*◌, ◌^◌, ◌<◌, ◌≤◌, ◌≡◌, refl, sym, ap, ◌∙◌, ◌⊎◌, inl, inr, ◌↔◌, ltb, lt→ltb, le→ltb,
  ltb→lt, Bool-cases, Option, some, List, [], ◌∷◌, get_or, set, arith,
}
use tensorvault.Prelude.Forall.{In}
use tensorvault.Exec.FlatHashTable.{
  FlatHashTable, AggState, agg_new, free_table, new, reinsert, insert, aggregate_row,
  aggregate_rows,
}
use tensorvault.Exec.FlatHashTable.Keys.{IsTable, HasKey}
use tensorvault.Exec.FlatHashTable.Room.{insert_within}
use tensorvault.Exec.FlatHashTable.Grow.{reinsert-Rehashed, with_states-IsTable, or_chain}
use tensorvault.Exec.FlatHashTable.Fresh.{
  free_table-IsTable, no_keys, free_len, rehash_room, new-IsTable,
}

-- What a call of `insert` brings about in a table that holds 2 ^ k slots, or twice as many after it
record Grown (key : ℕ) (t : FlatHashTable) (answer : Option (FlatHashTable × ℕ)) : Type 0 where
  pub size : ℕ
  pub after : FlatHashTable
  pub slot : ℕ
  pub answers : answer ≡ some (after, slot)
  pub table : IsTable size after
  pub slot_in : slot < 2 ^ size
  pub holds : (q : ℕ) → HasKey q after ↔ (HasKey q t ⊎ (q ≡ key))

abbrev pub row_keys : List (ℕ × ℕ) → List ℕ
row_keys [] = []
row_keys ((key, value) ∷ rows) = key ∷ row_keys rows

pub turned : (q key : ℕ) (keys : List ℕ) → In q (key ∷ keys) ↔ ((q ≡ key) ⊎ In q keys)
turned q key keys = (
  λ c. elim c [ inl e ↦ inl (sym e) | inr i ↦ inr i ],
  λ c. elim c [ inl e ↦ inl (sym e) | inr i ↦ inr i ],
)

module _ (xxh3_64 : List ℕ → ℕ) where
  -- A call in a table that has room once it is grown
  insert_once :
      (key : ℕ) (t u : FlatHashTable)
      → t.capacity * 3 < t.len * 4
      → reinsert (insert xxh3_64 1) t.keys t.occupied t.states (free_table (t.capacity * 2))
        ≡ some u
      → u.len * 4 ≤ u.capacity * 3
      → insert xxh3_64 2 key t ≡ insert xxh3_64 1 key u
  unfolding insert
  insert_once key t u full e roomy =
      rw
        (
          insert,
          lt→ltb (t.capacity * 3) (t.len * 4) full,
          e,
          le→ltb (u.capacity * 3) (u.len * 4) roomy,
        )
        refl

  insert_grows :
      (k key : ℕ) (t : FlatHashTable)
      → IsTable k t
      → t.capacity * 3 < t.len * 4
      → Grown key t (insert xxh3_64 2 key t)
  insert_grows k key t w full =
      let twice : 2 ^ suc k ≡ t.capacity * 2 = pow-suc 2 k ∙ ap (λ n. n * 2) (sym w.slots) in
      let fresh : IsTable (suc k) (free_table (t.capacity * 2)) =
        subst (λ n. IsTable (suc k) (free_table n)) twice (free_table-IsTable (suc k)) in
      let r =
        reinsert-Rehashed xxh3_64 0 (suc k) t.keys t.occupied t.states (free_table (t.capacity * 2))
          (w.all_keys ∙ sym w.all_occupied) (w.all_states ∙ sym w.all_occupied) fresh
          (rehash_room k t w) in
      let roomy : r.after.len * 4 ≤ r.after.capacity * 3 =
        omega (
          arith,
          r.few,
          r.table.slots,
          twice,
          w.slots,
          w.all_occupied,
          free_len (t.capacity * 2),
        ) in
      let one = insert_within xxh3_64 0 (suc k) key r.after r.table roomy in
      record {
        size = suc k;
        after = one.after;
        slot = one.slot;
        answers = insert_once key t r.after full r.answers roomy ∙ one.answers;
        table = one.added.table;
        slot_in = one.slot_in;
        holds = λ q. (
          λ a. elim ((one.added.holds q).0 a) [
            | inl b ↦ elim ((r.holds q).0 b) [
              | inl c ↦ absurd (no_keys (t.capacity * 2) q c)
              | inr c ↦ inl c
            ]
            | inr c ↦ inr c
          ],
          λ c.
              (one.added.holds q).1
                (elim c [ inl a ↦ inl ((r.holds q).1 (inr a)) | inr e ↦ inr e ]),
        );
      }

  -- A call of `insert` in a table of 2 ^ k slots, with its length counted, always returns.
  insert-Grown :
      (k key : ℕ) (t : FlatHashTable) → IsTable k t → Grown key t (insert xxh3_64 2 key t)
  insert-Grown k key t w = elim (Bool-cases (ltb (t.capacity * 3) (t.len * 4))) [
    | inl full ↦ insert_grows k key t w (ltb→lt (t.capacity * 3) (t.len * 4) full)
    | inr roomy ↦
        let one = insert_within xxh3_64 1 k key t w (ground (arith, roomy)) in
        record {
          size = k;
          after = one.after;
          slot = one.slot;
          answers = one.answers;
          table = one.added.table;
          slot_in = one.slot_in;
          holds = one.added.holds;
        }
  ]

  -- A row leaves a table with the keys of before and its own.
  record Row (key : ℕ) (t : FlatHashTable) (answer : Option FlatHashTable) : Type 0 where
    size : ℕ
    after : FlatHashTable
    answers : answer ≡ some after
    table : IsTable size after
    holds : (q : ℕ) → HasKey q after ↔ (HasKey q t ⊎ (q ≡ key))

  aggregate_row-Row :
      (step : AggState → AggState) (k key : ℕ) (t : FlatHashTable)
      → IsTable k t
      → Row key t (aggregate_row xxh3_64 step key t)
  unfolding aggregate_row
  aggregate_row-Row step k key t w =
      let r = insert-Grown k key t w in
      let s = step (get_or r.after.states r.slot agg_new) in
      record {
        size = r.size;
        after = record r.after { states = set r.after.states r.slot s };
        answers = rw (aggregate_row, r.answers) refl;
        table = with_states-IsTable r.table r.slot s;
        holds = r.holds;
      }

  record Rows (rows : List (ℕ × ℕ)) (t : FlatHashTable) (answer : Option FlatHashTable)
      : Type 0 where
    pub size : ℕ
    pub after : FlatHashTable
    pub answers : answer ≡ some after
    pub table : IsTable size after
    pub holds : (q : ℕ) → HasKey q after ↔ (HasKey q t ⊎ In q (row_keys rows))

  aggregate_rows-Rows :
      (step : ℕ → AggState → AggState) (rows : List (ℕ × ℕ)) (k : ℕ) (t : FlatHashTable)
      → IsTable k t
      → Rows rows t (aggregate_rows xxh3_64 step rows t)
  unfolding aggregate_rows
  aggregate_rows-Rows step [] k t w = record {
    size = k;
    after = t;
    answers = refl;
    table = w;
    holds = λ q. (inl, λ c. elim c [ inl h ↦ h | inr h ↦ absurd h ]);
  }
  aggregate_rows-Rows step ((key, value) ∷ rows) k t w =
      let one = aggregate_row-Row (step value) k key t w in
      let rest = aggregate_rows-Rows step rows one.size one.after one.table in
      record {
        size = rest.size;
        after = rest.after;
        answers = rw (aggregate_rows, one.answers) rest.answers;
        table = rest.table;
        holds = λ q. or_chain (rest.holds q) (one.holds q) (turned q key (row_keys rows));
      }

-- The table of the rows
pub aggregate_rows-new :
    (xxh3_64 : List ℕ → ℕ) (step : ℕ → AggState → AggState) (rows : List (ℕ × ℕ)) (expected : ℕ)
    → (k : ℕ) × (u : FlatHashTable) × (aggregate_rows xxh3_64 step rows (new expected) ≡ some u)
      × IsTable k u
      × ((q : ℕ) → HasKey q u ↔ In q (row_keys rows))
aggregate_rows-new xxh3_64 step rows expected =
    let (k, w, fresh) = new-IsTable expected in
    let r = aggregate_rows-Rows xxh3_64 step rows k (new expected) w in
    (
      r.size,
      r.after,
      r.answers,
      r.table,
      λ q. (
        λ a. elim ((r.holds q).0 a) [ inl b ↦ absurd (fresh q b) | inr c ↦ c ],
        λ c. (r.holds q).1 (inr c),
      ),
    )
