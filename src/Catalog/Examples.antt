-- ===== src/Catalog/Examples.antt =====
-- A catalog of two tables, each its name and its number of rows.
use Prim.Native.String.{String}
use tensorvault.Prelude.{ℕ, ◌≡◌, refl, [], ◌∷◌}
use tensorvault.Prelude.HashMap
use tensorvault.Prelude.HashMap.{IsMap}
use tensorvault.Prelude.Eq.{string_eq}
use tensorvault.Catalog.{Catalog, clone_catalog, IsNamed}
use tensorvault.Catalog.Clone.{clone_catalog_same}

abbrev Rows : Type 0
Rows = String × ℕ

abbrev rows_name : Rows → String
rows_name t = t.0

abbrev two_tables : Catalog Rows
two_tables = ("hits", ("hits", 3)) ∷ ("lineitem", ("lineitem", 5)) ∷ []

two_tables-IsMap : IsMap two_tables
unfolding HashMap.get
two_tables-IsMap = (refl, (refl, tt))

two_tables-IsNamed : IsNamed rows_name two_tables
two_tables-IsNamed = (refl, (refl, tt))

clone_catalog_same_example : clone_catalog rows_name two_tables ≡ two_tables
clone_catalog_same_example =
    clone_catalog_same rows_name two_tables two_tables-IsMap two_tables-IsNamed
