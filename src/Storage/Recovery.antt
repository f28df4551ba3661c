-- ===== src/Storage/Recovery.antt =====
-- src/storage/recovery.rs: the records of the SQL log and their constructors. The lines of the file,
-- base64 and JSON belong to external libraries: a log is the list of the records that `read_all`
-- returns.
use Prim.Native.String.{String}
use tensorvault.Prelude.{ℕ, Bool, true, false, Option, none, List}

pub data PhysicalChange : Type 0 where
  page_alloc : ℕ → ℕ → PhysicalChange
  cell_update : ℕ → ℕ → ℕ → ℕ → ℕ → PhysicalChange
  row_insert : ℕ → ℕ → ℕ → List ℕ → PhysicalChange
  row_delete : ℕ → ℕ → ℕ → PhysicalChange

pub record WalRecord : Type 0 where
  pub txn_id : ℕ
  pub sql : String
  pub is_commit : Bool
  pub is_rollback : Bool
  pub physical_change : Option PhysicalChange

unfoldable pub autocommit : String → WalRecord
autocommit sql = record {
  txn_id = 0;
  sql = sql;
  is_commit = false;
  is_rollback = false;
  physical_change = none;
}

unfoldable pub begin : ℕ → WalRecord
begin txn_id = record {
  txn_id = txn_id;
  sql = "";
  is_commit = false;
  is_rollback = false;
  physical_change = none;
}

unfoldable pub commit : ℕ → WalRecord
commit txn_id = record {
  txn_id = txn_id;
  sql = "";
  is_commit = true;
  is_rollback = false;
  physical_change = none;
}

unfoldable pub rollback : ℕ → WalRecord
rollback txn_id = record {
  txn_id = txn_id;
  sql = "";
  is_commit = false;
  is_rollback = true;
  physical_change = none;
}

unfoldable pub txn_dml : ℕ → String → WalRecord
txn_dml txn_id sql = record {
  txn_id = txn_id;
  sql = sql;
  is_commit = false;
  is_rollback = false;
  physical_change = none;
}
