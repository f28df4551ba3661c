-- ===== src/Types/TriBool.antt =====
-- src/types/null.rs: the three-valued logic of SQL and its comparisons of nullable values.
pub mod Laws
mod Examples
use tensorvault.Prelude.{
  Bool, true, false, if◌then◌else◌, ◌||◌, not as bool_not, Option, none, some,
}
use tensorvault.Prelude.Eq.{Eq}

pub data TriBool : Type 0 where
  tri_true tri_false null : TriBool

unfoldable pub passes_where : TriBool → Bool
passes_where tri_true = true
passes_where tri_false = false
passes_where null = false

unfoldable pub not : TriBool → TriBool
not tri_true = tri_false
not tri_false = tri_true
not null = null

-- `matches!(self, TriBool::False)`, and so on
unfoldable pub is_false : TriBool → Bool
is_false tri_true = false
is_false tri_false = true
is_false null = false

unfoldable pub is_unknown : TriBool → Bool
is_unknown tri_true = false
is_unknown tri_false = false
is_unknown null = true

unfoldable pub and : TriBool → TriBool → TriBool
unfolding is_false is_unknown
and a b =
    if is_false a || is_false b
    then tri_false
    else if is_unknown a || is_unknown b
    then null
    else tri_true

unfoldable pub or : TriBool → TriBool → TriBool
unfolding passes_where is_unknown
or a b =
    if passes_where a || passes_where b
    then tri_true
    else if is_unknown a || is_unknown b
    then null
    else tri_false

unfoldable pub from_bool : Bool → TriBool
from_bool b = if b then tri_true else tri_false

module _ {A : Type 0} where
  unfoldable pub is_null : Option A → TriBool
  is_null none = tri_true
  is_null (some a) = tri_false

  unfoldable pub is_not_null : Option A → TriBool
  unfolding is_null not
  is_not_null a = not (is_null a)

module _ {A : Type 0} ⦃e : Eq A⦄ where
  unfoldable pub eq_with_null : Option A → Option A → TriBool
  eq_with_null (some x) (some y) = if e.beq x y then tri_true else tri_false
  eq_with_null none b = null
  eq_with_null (some x) none = null

  unfoldable pub is_distinct_from : Option A → Option A → TriBool
  is_distinct_from (some x) (some y) = if bool_not (e.beq x y) then tri_true else tri_false
  is_distinct_from none none = tri_false
  is_distinct_from none (some y) = tri_true
  is_distinct_from (some x) none = tri_true
