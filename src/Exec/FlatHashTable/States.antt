-- ===== src/Exec/FlatHashTable/States.antt =====
-- The aggregation state of a group against the list of its values.
use mathlib.Core.Path.{subst}
use tensorvault.Prelude.{
  ℕ, suc, ◌+◌, ◌%◌, ◌<◌, ◌≤◌, ◌≡◌, ◌≢◌, refl, sym, ◌∙◌, ◌⊎◌, inl, inr, u64_mod, List, [], ◌∷◌,
  length, arith,
}
use tensorvault.Prelude.Forall.{In, All}
use tensorvault.Exec.FlatHashTable.{AggState, agg_new, update, finalize_min, finalize_max}

abbrev pub state_of : AggState → List ℕ → AggState
state_of s [] = s
state_of s (v ∷ vs) = state_of (update s v) vs

abbrev pub total : List ℕ → ℕ
total [] = 0
total (v ∷ vs) = v + total vs

count_lem :
    (s : AggState) (vs : List ℕ)
    → s.count + length vs < u64_mod
    → (state_of s vs).count ≡ s.count + length vs
unfolding update
count_lem s [] h = omega arith
count_lem s (v ∷ vs) h = omega (arith, count_lem (update s v) vs (omega arith))

sum_lem :
    (s : AggState) (vs : List ℕ)
    → s.sum < u64_mod
    → (state_of s vs).sum ≡ (s.sum + total vs) % u64_mod
unfolding update
sum_lem s [] h = omega arith
sum_lem s (v ∷ vs) h = omega (arith, sum_lem (update s v) vs (omega arith))

update_bounds :
    (s : AggState) (v : ℕ)
    → ((update s v).min ≤ s.min)
      × ((update s v).min ≤ v)
      × (((update s v).min ≡ s.min) ⊎ ((update s v).min ≡ v))
      × (s.max ≤ (update s v).max)
      × (v ≤ (update s v).max)
      × (((update s v).max ≡ s.max) ⊎ ((update s v).max ≡ v))
unfolding update
update_bounds s v =
    (ground arith, ground arith, ground arith, ground arith, ground arith, ground arith)

-- What the bounds of the state become over the values: no looser, around each of them, and attained
record Bounds (s : AggState) (vs : List ℕ) (r : AggState) : Type 0 where
  min_kept : r.min ≤ s.min
  min_below : All (λ v. r.min ≤ v) vs
  min_in : (r.min ≡ s.min) ⊎ In r.min vs
  max_kept : s.max ≤ r.max
  max_above : All (λ v. v ≤ r.max) vs
  max_in : (r.max ≡ s.max) ⊎ In r.max vs

state_of-Bounds : (s : AggState) (vs : List ℕ) → Bounds s vs (state_of s vs)
state_of-Bounds s [] = record {
  min_kept = omega arith;
  min_below = tt;
  min_in = inl refl;
  max_kept = omega arith;
  max_above = tt;
  max_in = inl refl;
}
state_of-Bounds s (v ∷ vs) =
    let (lo, lo_v, lo_in, hi, hi_v, hi_in) = update_bounds s v in
    let b = state_of-Bounds (update s v) vs in
    record {
      min_kept = omega (arith, b.min_kept, lo);
      min_below = (omega (arith, b.min_kept, lo_v), b.min_below);
      min_in = elim b.min_in [
        | inl e ↦ elim lo_in [ inl f ↦ inl (e ∙ f) | inr f ↦ inr (inl (sym (e ∙ f))) ]
        | inr i ↦ inr (inr i)
      ];
      max_kept = omega (arith, b.max_kept, hi);
      max_above = (omega (arith, b.max_kept, hi_v), b.max_above);
      max_in = elim b.max_in [
        | inl e ↦ elim hi_in [ inl f ↦ inl (e ∙ f) | inr f ↦ inr (inl (sym (e ∙ f))) ]
        | inr i ↦ inr (inr i)
      ];
    }

-- The first of the values is the bound that no value has moved.
first-In :
    (v : ℕ) (vs : List ℕ) (r : AggState)
    → v < u64_mod
    → Bounds agg_new (v ∷ vs) r
    → In r.min (v ∷ vs) × In r.max (v ∷ vs)
unfolding agg_new
first-In v vs r h b = (
  elim b.min_in [ inl e ↦ inl (omega (arith, e, b.min_below.0)) | inr i ↦ i ],
  elim b.max_in [ inl e ↦ inl (omega (arith, e, b.max_above.0)) | inr i ↦ i ],
)

-- What a group answers for its values
pub record Summary (vs : List ℕ) (s : AggState) : Type 0 where
  pub counted : s.count ≡ length vs
  pub summed : s.sum ≡ total vs % u64_mod
  pub least : In (finalize_min s) vs × All (λ v. finalize_min s ≤ v) vs
  pub greatest : In (finalize_max s) vs × All (λ v. v ≤ finalize_max s) vs

finalize_lem : (s : AggState) → s.count ≢ 0 → (finalize_min s ≡ s.min) × (finalize_max s ≡ s.max)
unfolding finalize_min finalize_max
finalize_lem s n = (ground arith, ground arith)

start :
    (v : ℕ) (vs : List ℕ)
    → suc (length vs) < u64_mod
    → ((state_of agg_new (v ∷ vs)).count ≡ suc (length vs))
      × ((state_of agg_new (v ∷ vs)).sum ≡ (v + total vs) % u64_mod)
unfolding agg_new
start v vs h = (
  omega (arith, count_lem agg_new (v ∷ vs) (omega arith)),
  omega (arith, sum_lem agg_new (v ∷ vs) (omega arith)),
)

-- The state that `update` makes of a group's values, one or more and fewer than 2 ^ 64, each a
-- `u64`, answers their number, their sum modulo 2 ^ 64, the least of them for `Min` and the greatest
-- for `Max`.
pub update-Summary :
    (v : ℕ) (vs : List ℕ)
    → v < u64_mod
    → suc (length vs) < u64_mod
    → Summary (v ∷ vs) (state_of agg_new (v ∷ vs))
update-Summary v vs h few =
    let s = state_of agg_new (v ∷ vs) in
    let (counted, summed) = start v vs few in
    let b = state_of-Bounds agg_new (v ∷ vs) in
    let (min_in, max_in) = first-In v vs s h b in
    let (min_is, max_is) = finalize_lem s (omega (arith, counted)) in
    record {
      counted = counted;
      summed = summed;
      least =
          subst (λ m. In m (v ∷ vs) × All (λ x. m ≤ x) (v ∷ vs)) (sym min_is) (min_in, b.min_below);
      greatest =
          subst (λ m. In m (v ∷ vs) × All (λ x. x ≤ m) (v ∷ vs)) (sym max_is) (max_in, b.max_above);
    }
