-- ===== src/Catalog/Clone.antt =====
-- `clone_catalog` and the registry of tables.
use Prim.Native.String.{String}
use mathlib.Core.List.{append_assoc, append-nil}
use mathlib.Core.Path.{subst}
use tensorvault.Prelude.{
  ◌≡◌, refl, ap, ◌∙◌, sym, false, none, some, List, [], ◌∷◌, ◌++◌, arith, if◌then◌else◌,
}
use tensorvault.Prelude.HashMap
use tensorvault.Prelude.HashMap.{HashMap, IsMap, get-insert, insert-IsMap}
use tensorvault.Prelude.Eq.{string_eq}
use tensorvault.Catalog.{Catalog, get, register, table_names, register_all, clone_catalog, IsNamed}

module _ {T : Type 0} where
  other_key :
      (done rest : Catalog T) (k j : String) (t : T)
      → HashMap.get (done ++ (k, t) ∷ rest) j ≡ none
      → string_eq.beq k j ≡ false
  unfolding HashMap.get
  other_key [] rest k j t h = ground arith
  other_key ((i, u) ∷ done) rest k j t h = ground (arith, other_key done rest k j t)

  fresh_key :
      (done rest : Catalog T) (k : String) (t : T)
      → IsMap (done ++ (k, t) ∷ rest)
      → HashMap.get done k ≡ none
  unfolding HashMap.get
  fresh_key [] rest k t h = refl
  fresh_key ((i, u) ∷ done) rest k t h = ground (
    arith,
    fresh_key done rest k t h.1,
    other_key done rest k i t h.0,
    string_eq.beq_iff k i,
    string_eq.beq_iff i k,
  )

  get_here :
      (done rest : Catalog T) (k : String) (t : T)
      → HashMap.get done k ≡ none
      → HashMap.get (done ++ (k, t) ∷ rest) k ≡ some t
  unfolding HashMap.get
  get_here [] rest k t h = ground (arith, string_eq.beq_iff k k)
  get_here ((i, u) ∷ done) rest k t h = ground (arith, get_here done rest k t)

  insert_fresh :
      (done : Catalog T) (k : String) (t : T)
      → HashMap.get done k ≡ none
      → HashMap.insert done k t ≡ done ++ (k, t) ∷ []
  unfolding HashMap.get HashMap.insert
  insert_fresh [] k t h = refl
  insert_fresh ((i, u) ∷ done) k t h = ground (arith, insert_fresh done k t)

module _ {T : Type 0} (name_of : T → String) where
  register_next :
      (catalog : Catalog T) (names : List String) (done : Catalog T) (k : String) (t : T)
      → HashMap.get catalog k ≡ some t
      → register_all name_of catalog (k ∷ names) done
        ≡ register_all name_of catalog names (HashMap.insert done (name_of t) t)
  unfolding register_all get register
  register_next catalog names done k t h = rw h refl

  register_rest :
      (done rest : Catalog T)
      → IsMap (done ++ rest)
      → IsNamed name_of rest
      → register_all name_of (done ++ rest) (table_names rest) done ≡ done ++ rest
  unfolding table_names
  register_rest done [] h n = unfold register_all in sym (append-nil done)
  register_rest done ((k, t) ∷ rest) h n =
      let fresh = fresh_key done rest k t h in
      let split = append_assoc done ((k, t) ∷ []) rest in
      let next = done ++ (k, t) ∷ [] in
      register_next (done ++ (k, t) ∷ rest) (table_names rest) done k t
        (get_here done rest k t fresh)
      ∙ (ap (register_all name_of (done ++ (k, t) ∷ rest) (table_names rest))
            (ap (λ (j : String). HashMap.insert done j t) n.0 ∙ insert_fresh done k t fresh)
          ∙ (ap (λ (m : Catalog T). register_all name_of m (table_names rest) next) (sym split)
              ∙ (register_rest next rest (subst IsMap (sym split) h) n.1 ∙ split)))

  -- A clone of a catalog whose tables stand under their own names, each name once, is the catalog
  -- again, tables, names and entries.
  pub clone_catalog_same :
      (c : Catalog T) → IsMap c → IsNamed name_of c → clone_catalog name_of c ≡ c
  unfolding clone_catalog
  clone_catalog_same c h n = register_rest [] c h n

  insert-IsNamed :
      (c : Catalog T) (k : String) (t : T)
      → name_of t ≡ k
      → IsNamed name_of c
      → IsNamed name_of (HashMap.insert c k t)
  unfolding HashMap.insert
  insert-IsNamed [] k t h n = (h, tt)
  insert-IsNamed ((i, u) ∷ c) k t h n = ground (arith, insert-IsNamed c k t h)

  -- Registering a table keeps names unique and every table under its own name. The table is found
  -- under its name, and every other name has what it had.
  pub register_lem :
      (c : Catalog T) (t : T) (name : String)
      → IsMap c
      → IsNamed name_of c
      → IsMap (register name_of c t)
        × IsNamed name_of (register name_of c t)
        × (get (register name_of c t) name
            ≡ (if string_eq.beq (name_of t) name then some t else get c name))
  unfolding register get
  register_lem c t name h n = (
    insert-IsMap c (name_of t) t h,
    insert-IsNamed c (name_of t) t refl n,
    get-insert c (name_of t) name t,
  )
