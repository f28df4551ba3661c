-- ===== src/Index/Manager/Rows.antt =====
-- The rows that a hash index has for a value.
use mathlib.Core.Path.{subst}
use mathlib.Core.List.{append-nil, append_assoc}
use tensorvault.Prelude.{
  ℕ, suc, ◌==◌, ◌≡◌, ◌≢◌, refl, sym, ap, ◌∙◌, Bool, true, false, Bool-cases, ==_iff, inl, inr,
  if◌then◌else◌, Option, none, some, List, [], ◌∷◌, ◌++◌,
}
use tensorvault.Prelude.HashMap
use tensorvault.Prelude.HashMap.{HashMap, get-insert}
use tensorvault.Prelude.Eq.{nat_eq, string_eq, pair_eq, pair_beq, pair_beq_iff}
use tensorvault.Index.Manager.{IndexManager, Column, or_default, add_rows, build_hash_index, lookup}

≢-false : (b : Bool) → ¬ (b ≡ true) → b ≡ false
≢-false true n = absurd (n refl)
≢-false false n = refl

-- The rows from row `i` on whose value is `v`, in order
abbrev pub rows_with : ℕ → ℕ → List ℕ → List ℕ
rows_with v i [] = []
rows_with v i (w ∷ values) =
    if w == v then i ∷ rows_with v (suc i) values else rows_with v (suc i) values

-- What the map answers for rows, which are none if there are none
abbrev pub answer : List ℕ → Option (List ℕ)
answer [] = none
answer (r ∷ rows) = some (r ∷ rows)

answer-append : (before : List ℕ) (i : ℕ) → answer (before ++ i ∷ []) ≡ some (before ++ i ∷ [])
answer-append [] i = refl
answer-append (r ∷ rows) i = refl

or_default-answer : (rows : List ℕ) → or_default (answer rows) ≡ rows
or_default-answer [] = refl
or_default-answer (r ∷ rows) = refl

-- One row more of the value `v`, and one of another value
add_same :
    (v i : ℕ) (before : List ℕ) (map : HashMap ℕ (List ℕ))
    → HashMap.get map v ≡ answer before
    → HashMap.get (HashMap.insert map v (or_default (HashMap.get map v) ++ i ∷ [])) v
      ≡ answer (before ++ i ∷ [])
add_same v i before map h =
    rw
      (
        get-insert map v v (or_default (HashMap.get map v) ++ i ∷ []),
        (==_iff v v).1 refl,
        h,
        or_default-answer before,
      )
      (sym (answer-append before i))

add_other :
    (v w : ℕ) (rows before : List ℕ) (map : HashMap ℕ (List ℕ))
    → (w == v) ≡ false
    → HashMap.get map v ≡ answer before
    → HashMap.get (HashMap.insert map w rows) v ≡ answer before
add_other v w rows before map n h = rw (get-insert map w v rows, n) h

add_rows_lem :
    (v i : ℕ) (values before : List ℕ) (map : HashMap ℕ (List ℕ))
    → HashMap.get map v ≡ answer before
    → HashMap.get (add_rows i values map) v ≡ answer (before ++ rows_with v i values)
unfolding add_rows
add_rows_lem v i [] before map h = h ∙ ap answer (sym (append-nil before))
add_rows_lem v i (w ∷ values) before map h = elim (Bool-cases (w == v)) [
  | inl e ↦
      let same : v ≡ w = sym ((==_iff w v).0 e) in
      let step =
        subst
          (λ x.
            HashMap.get (HashMap.insert map x (or_default (HashMap.get map x) ++ i ∷ [])) v
            ≡ answer (before ++ i ∷ []))
          same (add_same v i before map h) in
      rw e (
        add_rows_lem v (suc i) values (before ++ i ∷ []) _ step
        ∙ ap answer (append_assoc before (i ∷ []) (rows_with v (suc i) values)))
  | inr n ↦ rw n (
      add_rows_lem v (suc i) values before _
        (add_other v w (or_default (HashMap.get map w) ++ i ∷ []) before map n h))
]

-- After `build_hash_index` of a column, `lookup` of a value there answers the rows that have it, in
-- ascending order, and none if there are none; in the other columns it answers as before.
pub lookup-build_hash_index :
    (key other : Column) (values : List ℕ) (v : ℕ) (m : IndexManager)
    → (lookup key.0 key.1 v (build_hash_index key.0 key.1 values m) ≡ answer (rows_with v 0 values))
      × (key ≢ other
          → lookup other.0 other.1 v (build_hash_index key.0 key.1 values m)
            ≡ lookup other.0 other.1 v m)
unfolding lookup build_hash_index
lookup-build_hash_index key other values v m = (
  rw
      (
        lookup,
        get-insert m.hash_data key key (add_rows 0 values []),
        (pair_beq_iff string_eq string_eq key key).1 refl,
      )
      (add_rows_lem v 0 values [] [] (unfold HashMap.get in refl)),
  λ n.
      rw
        (
          lookup,
          get-insert m.hash_data key other (add_rows 0 values []),
          ≢-false (pair_beq string_eq string_eq key other)
              (λ e. n ((pair_beq_iff string_eq string_eq key other).0 e)),
        )
        refl,
)
