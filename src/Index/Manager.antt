-- ===== src/Index/Manager.antt =====
-- src/index/manager.rs: the indexes of the tables' columns, their names, and the hash indexes. The
-- comparison of the selectivity, a quotient of two `f64`, is an argument.
pub mod Rows
pub mod Names
mod Examples
use Prim.Native.String.{String}
use tensorvault.Prelude.{
  ℕ, suc, ◌+◌, ◌==◌, length, Bool, true, false, not, if◌then◌else◌, Option, none, some, List, [],
  ◌∷◌, ◌++◌,
}
use tensorvault.Prelude.HashMap
use tensorvault.Prelude.HashMap.{HashMap}
use tensorvault.Prelude.Eq.{Eq, nat_eq, string_eq, pair_eq}

pub data IndexType : Type 0 where
  bsi lsh hash : IndexType

pub record IndexEntry : Type 0 where
  pub table_name : String
  pub column_name : String
  pub index_type : IndexType
  pub cardinality : ℕ
  pub name : Option String

-- The table and the column
abbrev pub Column : Type 0
Column = String × String

pub record IndexManager : Type 0 where
  pub indexes : HashMap Column IndexEntry
  pub by_name : HashMap String Column
  pub hash_data : HashMap Column (HashMap ℕ (List ℕ))

unfoldable pub new : IndexManager
new = record { indexes = []; by_name = []; hash_data = [] }

unfoldable pub create : String → String → IndexType → ℕ → IndexManager → IndexManager
create table column index_type cardinality m = record m {
  indexes =
      HashMap.insert m.indexes (table, column)
        (record {
          table_name = table;
          column_name = column;
          index_type = index_type;
          cardinality = cardinality;
          name = none;
        });
}

unfoldable pub create_named : String → String → String → IndexType → ℕ → IndexManager → IndexManager
create_named name table column index_type cardinality m = record m {
  indexes =
      HashMap.insert m.indexes (table, column)
        (record {
          table_name = table;
          column_name = column;
          index_type = index_type;
          cardinality = cardinality;
          name = some name;
        });
  by_name = HashMap.insert m.by_name name (table, column);
}

-- `entry(v).or_default()`
abbrev pub or_default : Option (List ℕ) → List ℕ
or_default none = []
or_default (some rows) = rows

-- The loop of `build_hash_index` from row `i` on
unfoldable pub add_rows : ℕ → List ℕ → HashMap ℕ (List ℕ) → HashMap ℕ (List ℕ)
add_rows i [] map = map
add_rows i (v ∷ values) map =
    add_rows (suc i) values (HashMap.insert map v (or_default (HashMap.get map v) ++ i ∷ []))

unfoldable pub build_hash_index : String → String → List ℕ → IndexManager → IndexManager
build_hash_index table column values m = record m {
  hash_data = HashMap.insert m.hash_data (table, column) (add_rows 0 values []);
}

-- The name of the entry that is dropped, if it has one, is removed too.
unfoldable pub drop : String → String → IndexManager → Bool × IndexManager
drop table column m = elim (HashMap.get m.indexes (table, column)) [
  | none ↦ (false, m)
  | some entry ↦ (
    true,
    record {
      indexes = HashMap.remove m.indexes (table, column);
      by_name = elim entry.name [ none ↦ m.by_name | some name ↦ HashMap.remove m.by_name name ];
      hash_data = HashMap.remove m.hash_data (table, column);
    },
  )
]

unfoldable pub drop_by_name : String → IndexManager → Bool × IndexManager
drop_by_name name m = elim (HashMap.get m.by_name name) [
  | none ↦ (false, m)
  | some column ↦ (
    true,
    record {
      indexes = HashMap.remove m.indexes column;
      by_name = HashMap.remove m.by_name name;
      hash_data = HashMap.remove m.hash_data column;
    },
  )
]

unfoldable pub get : String → String → IndexManager → Option IndexEntry
get table column m = HashMap.get m.indexes (table, column)

unfoldable pub get_by_name : String → IndexManager → Option Column
get_by_name name m = HashMap.get m.by_name name

unfoldable pub has_index : String → String → IndexManager → Bool
has_index table column m = elim (HashMap.get m.indexes (table, column)) [
  | none ↦ false
  | some entry ↦ true
]

unfoldable pub lookup : String → String → ℕ → IndexManager → Option (List ℕ)
lookup table column value m = elim (HashMap.get m.hash_data (table, column)) [
  | none ↦ none
  | some map ↦ HashMap.get map value
]

-- `is_selective` is the test that the quotient of its arguments as `f64` is above 0.1.
unfoldable pub should_use_index : (ℕ → ℕ → Bool) → String → String → ℕ → IndexManager → Bool
should_use_index is_selective table column table_row_count m = elim (has_index table column m) [
  | false ↦ false
  | true ↦ elim (get table column m) [
    | none ↦ false
    | some entry ↦
        if table_row_count == 0 then false else is_selective entry.cardinality table_row_count
  ]
]

unfoldable pub entries_of : HashMap Column IndexEntry → List IndexEntry
entries_of [] = []
entries_of ((column, entry) ∷ rest) = entry ∷ entries_of rest

unfoldable pub list : IndexManager → List IndexEntry
list m = entries_of m.indexes

unfoldable pub len : IndexManager → ℕ
len m = length m.indexes

unfoldable pub is_empty : IndexManager → Bool
is_empty m = length m.indexes == 0
