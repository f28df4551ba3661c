-- ===== src/Exec/FlatHashTable/GroupKeys.antt =====
-- The keys of the groups that `hash_group_by_flat` answers.
use mathlib.Core.Path.{subst}
use tensorvault.Prelude.{
  ℕ, ◌≤◌, ◌≡◌, refl, sym, ap, ◌∙◌, ◌↔◌, ◌≢◌, inl, inr, Bool, true, false, Option, some, List, [],
  ◌∷◌, length, arith,
}
use tensorvault.Prelude.Forall.{In}
use tensorvault.Exec.FlatHashTable.{AggState, finalize_min, finalize_max, finalize_avg, iter}
use tensorvault.Exec.FlatHashTable.Grow.{IsOldKey, old_skipped, old_put}
use tensorvault.Exec.FlatHashTable.Groups.{row_keys, aggregate_rows-new}
use tensorvault.Exec.FlatHashTable.GroupBy.{
  AggFunc, count, sum, avg, min, max, count_distinct, rows_of, bare_rows, count_row, value_row,
  results, values_or, run, run_values, hash_group_by_flat,
}

-- The occupied slots are those that `iter` yields.
iter-keys :
    (finish : AggState → ℕ) (q : ℕ) (keys : List ℕ) (marks : List Bool) (states : List AggState)
    → length keys ≡ length marks
    → length states ≡ length marks
    → In q (row_keys (results finish (iter keys marks states))) ↔ IsOldKey q keys marks
unfolding iter results
iter-keys finish q [] [] states a b = (λ h. absurd h, λ (i, o, e). absurd cc)
iter-keys finish q (key ∷ keys) (true ∷ marks) (s ∷ states) a b =
    let rest = iter-keys finish q keys marks states (omega arith) (omega arith) in
    let put = old_put q key keys marks in
    (
      λ h. put.1 (elim h [ inl e ↦ inl (sym e) | inr i ↦ inr (rest.0 i) ]),
      λ h. elim (put.0 h) [ inl e ↦ inl (sym e) | inr i ↦ inr (rest.1 i) ],
    )
iter-keys finish q (key ∷ keys) (false ∷ marks) (s ∷ states) a b =
    let rest = iter-keys finish q keys marks states (omega arith) (omega arith) in
    let skipped = old_skipped q key keys marks in
    (λ h. skipped.1 (rest.0 h), λ h. rest.1 (skipped.0 h))
iter-keys finish q _ _ _ a b = absurd (omega arith)

bare_rows-keys : (keys : List ℕ) → row_keys (bare_rows keys) ≡ keys
unfolding bare_rows
bare_rows-keys [] = refl
bare_rows-keys (key ∷ keys) = ap (λ ks. key ∷ ks) (bare_rows-keys keys)

rows_of-keys :
    (keys values : List ℕ)
    → length keys ≤ length values
    → (rows : List (ℕ × ℕ)) × (rows_of keys values ≡ some rows) × (row_keys rows ≡ keys)
unfolding rows_of
rows_of-keys [] values h = ([], refl, refl)
rows_of-keys (key ∷ keys) [] h = absurd (omega arith)
rows_of-keys (key ∷ keys) (value ∷ values) h =
    let (rows, e, same) = rows_of-keys keys values (omega arith) in
    ((key, value) ∷ rows, rw (rows_of, e) refl, ap (λ ks. key ∷ ks) same)

-- An answer whose keys are just those of the rows
abbrev pub HasGroups : List ℕ → Option (List (ℕ × ℕ)) → Type 0
HasGroups keys answer =
    (groups : List (ℕ × ℕ)) × (answer ≡ some groups)
    × ((q : ℕ) → In q (row_keys groups) ↔ In q keys)

module _ (xxh3_64 : List ℕ → ℕ) (f64_bits : ℕ → ℕ) (f64_div : ℕ → ℕ → ℕ)
    (estimated_groups : List ℕ → ℕ) (group_distinct : List ℕ → List ℕ → List (ℕ × ℕ)) where
  run-HasGroups :
      (step : ℕ → AggState → AggState) (finish : AggState → ℕ) (keys : List ℕ) (rows : List (ℕ × ℕ))
      → row_keys rows ≡ keys
      → HasGroups keys
          (run xxh3_64 f64_bits f64_div estimated_groups group_distinct step finish keys rows)
  unfolding run
  run-HasGroups step finish keys rows same =
      let (k, u, e, w, holds) = aggregate_rows-new xxh3_64 step rows (estimated_groups keys) in
      let yields = λ (q : ℕ).
        iter-keys finish q u.keys u.occupied u.states (w.all_keys ∙ sym w.all_occupied)
          (w.all_states ∙ sym w.all_occupied) in
      (
        results finish (iter u.keys u.occupied u.states),
        rw (run, e) refl,
        λ q. (
          λ h. subst (In q) same ((holds q).0 ((yields q).0 h)),
          λ h. (yields q).1 ((holds q).1 (subst (In q) (sym same) h)),
        ),
      )

  run_values-HasGroups :
      (finish : AggState → ℕ) (keys : List ℕ) (values : Option (List ℕ))
      → length keys ≤ length (values_or values keys)
      → HasGroups keys
          (run_values xxh3_64 f64_bits f64_div estimated_groups group_distinct finish keys values)
  unfolding run_values
  run_values-HasGroups finish keys values enough =
      let (rows, e, same) = rows_of-keys keys (values_or values keys) enough in
      let (groups, answers, holds) = run-HasGroups value_row finish keys rows same in
      (groups, rw (run_values, e) answers, holds)

-- For each aggregation but `CountDistinct`, with a value for each key, `hash_group_by_flat` returns
-- whatever the hash function and the estimate of the groups: the table grows and the probing ends.
-- The keys of the groups are just the keys of the rows.
pub hash_group_by_flat-HasGroups :
    (xxh3_64 : List ℕ → ℕ) (f64_bits : ℕ → ℕ) (f64_div : ℕ → ℕ → ℕ) (estimated_groups : List ℕ → ℕ)
    (group_distinct : List ℕ → List ℕ → List (ℕ × ℕ)) (keys : List ℕ) (values : Option (List ℕ))
    (func : AggFunc)
    → func ≢ count_distinct
    → length keys ≤ length (values_or values keys)
    → HasGroups keys (
        hash_group_by_flat xxh3_64 f64_bits f64_div estimated_groups group_distinct keys values
          func)
unfolding hash_group_by_flat
hash_group_by_flat-HasGroups xxh3_64 f64_bits f64_div estimate distinct keys values count n enough =
    run-HasGroups xxh3_64 f64_bits f64_div estimate distinct count_row (λ s. s.count) keys
      (bare_rows keys) (bare_rows-keys keys)
hash_group_by_flat-HasGroups xxh3_64 f64_bits f64_div estimate distinct keys values sum n enough =
    run_values-HasGroups xxh3_64 f64_bits f64_div estimate distinct (λ s. f64_bits s.sum) keys
      values enough
hash_group_by_flat-HasGroups xxh3_64 f64_bits f64_div estimate distinct keys values avg n enough =
    run_values-HasGroups xxh3_64 f64_bits f64_div estimate distinct (finalize_avg f64_div) keys
      values enough
hash_group_by_flat-HasGroups xxh3_64 f64_bits f64_div estimate distinct keys values min n enough =
    run_values-HasGroups xxh3_64 f64_bits f64_div estimate distinct finalize_min keys values enough
hash_group_by_flat-HasGroups xxh3_64 f64_bits f64_div estimate distinct keys values max n enough =
    run_values-HasGroups xxh3_64 f64_bits f64_div estimate distinct finalize_max keys values enough
hash_group_by_flat-HasGroups xxh3_64 f64_bits f64_div estimate distinct keys values count_distinct n
      enough =
    absurd (n refl)
