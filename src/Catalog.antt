-- ===== src/Catalog.antt =====
-- src/catalog/mod.rs: the table registry, over a type of tables with their names; and
-- `clone_catalog` of src/txn/mod.rs.
mod Clone
mod Examples
use Prim.Native.String.{String}
use tensorvault.Prelude.{
  ℕ, length, ◌≡◌, refl, Bool, true, false, Option, none, some, List, [], ◌∷◌, ◌++◌, arith, ap, ◌∙◌,
  if◌then◌else◌,
}
use tensorvault.Prelude.HashMap
use tensorvault.Prelude.HashMap.{HashMap, IsMap, get-insert, insert-IsMap}
use tensorvault.Prelude.Eq.{Eq, string_eq}

abbrev pub Catalog : Type 0 → Type 0
Catalog T = HashMap String T

module _ {T : Type 0} where
  unfoldable pub new : Catalog T
  new = []

  unfoldable pub get : Catalog T → String → Option T
  get c name = HashMap.get c name

  -- `remove(name).is_some()`
  unfoldable pub drop : Catalog T → String → Bool × Catalog T
  drop c name = (elim (HashMap.get c name) [ none ↦ false | some _ ↦ true ], HashMap.remove c name)

  unfoldable pub table_names : Catalog T → List String
  table_names [] = []
  table_names ((k, t) ∷ c) = k ∷ table_names c

module _ {T : Type 0} (name_of : T → String) where
  unfoldable pub register : Catalog T → T → Catalog T
  register c t = HashMap.insert c (name_of t) t

  -- The loop of `clone_catalog` over the names of `catalog`.
  unfoldable pub register_all : Catalog T → List String → Catalog T → Catalog T
  unfolding get register
  register_all catalog [] new_cat = new_cat
  register_all catalog (name ∷ names) new_cat =
      register_all catalog names
        (elim (get catalog name) [ none ↦ new_cat | some t ↦ register new_cat t ])

  unfoldable pub clone_catalog : Catalog T → Catalog T
  unfolding register_all table_names new
  clone_catalog c = register_all c (table_names c) new

  -- Every table is registered under its own name, once.
  abbrev pub IsNamed : Catalog T → Type 0
  IsNamed [] = Unit
  IsNamed ((k, t) ∷ c) = (name_of t ≡ k) × IsNamed c
