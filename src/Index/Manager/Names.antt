-- ===== src/Index/Manager/Names.antt =====
-- The names of the indexes and the indexes that they name.
use Prim.Native.String.{String}
use mathlib.Core.Path.{subst}
use tensorvault.Prelude.{
  ℕ, ◌≡◌, ◌≢◌, refl, sym, ap, ◌∙◌, Bool, true, false, Option, none, some, List,
}
use tensorvault.Prelude.HashMap
use tensorvault.Prelude.HashMap.{
  HashMap, get-insert_same, get-insert_other, get-remove_same, get-remove_other,
}
use tensorvault.Prelude.Eq.{nat_eq, string_eq, pair_eq}
use tensorvault.Index.Manager.{
  IndexManager, IndexEntry, IndexType, Column, create_named, drop, drop_by_name, get_by_name,
  has_index, lookup,
}

-- What `has_index` asks of the entry
abbrev is_some : Option IndexEntry → Bool
is_some found = elim found [ none ↦ false | some entry ↦ true ]

-- Two managers with the same answers, but for the column `key` and the name `n`
pub record SameElsewhere (n : String) (key : Column) (m r : IndexManager) : Type 0 where
  pub indexes_same : (k : Column) → key ≢ k → has_index k.0 k.1 r ≡ has_index k.0 k.1 m
  pub names_same : (j : String) → n ≢ j → get_by_name j r ≡ get_by_name j m
  pub rows_same : (k : Column) (v : ℕ) → key ≢ k → lookup k.0 k.1 v r ≡ lookup k.0 k.1 v m

-- An answer true, with a manager in which a name and a column have no index
pub record IsDropped (n : String) (key : Column) (m : IndexManager) (answer : Bool × IndexManager)
    : Type 0 where
  pub existed : answer.0 ≡ true
  pub no_index : has_index key.0 key.1 answer.1 ≡ false
  pub no_name : get_by_name n answer.1 ≡ none
  pub no_rows : (v : ℕ) → lookup key.0 key.1 v answer.1 ≡ none
  pub elsewhere : SameElsewhere n key m answer.1

module _ (m : IndexManager) (n : String) (key : Column) (ty : IndexType) (c : ℕ) where
  abbrev created : IndexManager
  created = create_named n key.0 key.1 ty c m

  abbrev dropped : IndexManager
  dropped = record {
    indexes = HashMap.remove created.indexes key;
    by_name = HashMap.remove created.by_name n;
    hash_data = HashMap.remove created.hash_data key;
  }

  drop_by_name_lem : drop_by_name n created ≡ (true, dropped)
  unfolding drop_by_name create_named
  drop_by_name_lem = rw (drop_by_name, get-insert_same m.by_name n key) refl

  dropped-IsDropped : IsDropped n key m (true, dropped)
  unfolding has_index get_by_name lookup create_named
  dropped-IsDropped = record {
    existed = refl;
    no_index = rw (has_index, get-remove_same created.indexes key) refl;
    no_name = get-remove_same created.by_name n;
    no_rows = λ v. rw (lookup, get-remove_same m.hash_data key) refl;
    elsewhere = record {
      indexes_same = λ k o.
          ap is_some
            (get-remove_other created.indexes key k o ∙ get-insert_other m.indexes key k _ o);
      names_same =
          λ j o. get-remove_other created.by_name n j o ∙ get-insert_other m.by_name n j key o;
      rows_same = λ k v o.
          ap
            (λ found. elim found as (λ x. Option (List ℕ)) [
              | none ↦ none
              | some map ↦ HashMap.get map v
            ])
            (get-remove_other m.hash_data key k o);
    };
  }

-- After `create_named`, `drop_by_name` of that name answers true, whatever indexes there were
-- before: the column has no index and no rows any more, the name names nothing, and the other
-- columns and names are as before both calls.
pub drop_by_name-create_named :
    (m : IndexManager) (n : String) (key : Column) (ty : IndexType) (c : ℕ)
    → IsDropped n key m (drop_by_name n (create_named n key.0 key.1 ty c m))
drop_by_name-create_named m n key ty c =
    subst (IsDropped n key m) (sym (drop_by_name_lem m n key ty c)) (dropped-IsDropped m n key ty c)

-- A name created for one column and then for another: the index of the first column stays. The drop
-- of that one takes the name away from the second column, which keeps its index.
pub create_named_twice :
    (m : IndexManager) (n : String) (first second : Column) (ty : IndexType) (c : ℕ)
    → first ≢ second
    → (let twice = create_named n second.0 second.1 ty c (create_named n first.0 first.1 ty c m) in
        (get_by_name n twice ≡ some second)
        × (has_index first.0 first.1 twice ≡ true)
        × (get_by_name n (drop first.0 first.1 twice).1 ≡ none)
        × (has_index second.0 second.1 (drop first.0 first.1 twice).1 ≡ true))
unfolding create_named get_by_name has_index drop
create_named_twice m n first second ty c o =
    let there =
      get-insert_other (HashMap.insert m.indexes first _) second first _ (λ e. o (sym e))
      ∙ get-insert_same m.indexes first _ in
    (
      get-insert_same (HashMap.insert m.by_name n first) n second,
      ap is_some there,
      rw (drop, there)
          (get-remove_same (HashMap.insert (HashMap.insert m.by_name n first) n second) n),
      rw (drop, there)
          (ap is_some (
            get-remove_other (HashMap.insert (HashMap.insert m.indexes first _) second _) first
              second o
            ∙ get-insert_same (HashMap.insert m.indexes first _) second _)),
    )
