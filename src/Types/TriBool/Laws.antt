-- ===== src/Types/TriBool/Laws.antt =====
-- The logic as an order, and what the comparisons decide.
use tensorvault.Prelude.{ℕ, ◌-◌, ◌≡◌, ◌≢◌, ◌↔◌, refl, min, max, true, Option, none, some, arith}
use tensorvault.Prelude.Eq.{Eq}
use tensorvault.Types.TriBool.{
  TriBool, tri_true, tri_false, null, passes_where, not, and, or, eq_with_null, is_distinct_from,
  is_null, is_not_null,
}

-- False below null below true.
abbrev pub truth : TriBool → ℕ
truth tri_false = 0
truth null = 1
truth tri_true = 2

-- `and` is the minimum and `or` the maximum of the order false, null, true, and `not` turns that
-- order around.
pub kleene :
    (a b : TriBool)
    → (truth (and a b) ≡ min (truth a) (truth b))
      × (truth (or a b) ≡ max (truth a) (truth b))
      × (truth (not a) ≡ 2 - truth a)
unfolding and or not
kleene tri_true tri_true = (refl, refl, refl)
kleene tri_true tri_false = (refl, refl, refl)
kleene tri_true null = (refl, refl, refl)
kleene tri_false tri_true = (refl, refl, refl)
kleene tri_false tri_false = (refl, refl, refl)
kleene tri_false null = (refl, refl, refl)
kleene null tri_true = (refl, refl, refl)
kleene null tri_false = (refl, refl, refl)
kleene null null = (refl, refl, refl)

-- `is_distinct_from` is false exactly on equal values, two nulls among them, and is never null.
-- `eq_with_null` passes a WHERE exactly when the values are equal and not null.
pub comparisons :
    {A : Type 0} ⦃e : Eq A⦄ (a b : Option A)
    → ((is_distinct_from a b ≡ tri_false) ↔ (a ≡ b))
      × (is_distinct_from a b ≢ null)
      × ((passes_where (eq_with_null a b) ≡ true) ↔ ((a ≡ b) × (is_not_null a ≡ tri_true)))
unfolding is_distinct_from eq_with_null passes_where is_not_null is_null not
comparisons none none = ground arith
comparisons none (some y) = ground arith
comparisons (some x) none = ground arith
comparisons ⦃e⦄ (some x) (some y) = ground (arith, e.beq_iff x y)
