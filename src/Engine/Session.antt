-- ===== src/Engine/Session.antt =====
-- src/engine/mod.rs: `execute` on transaction control, savepoints, and statements that change the
-- catalog. Running a DDL or DML statement is the argument `execute_sql`: the new catalog, or none
-- when the statement fails and changes nothing. Texts are classified already. Whether the writes of
-- the log to come succeed is a part of the state; when the list is used up, all succeed. One that
-- fails leaves nothing of its record, and the session does not see it: its result is discarded.
use Prim.Native.String.{String}
use text.Mathlib.Text.{◌==◌}
use tensorvault.Prelude.{
  ℕ, Bool, true, false, if◌then◌else◌, Option, none, some, List, [], ◌∷◌, ◌++◌,
}
use tensorvault.Prelude.Results.{Result, ok, err}
use tensorvault.Storage.Recovery
use tensorvault.Storage.Recovery.{WalRecord}
use tensorvault.Txn.Manager
use tensorvault.Txn.Manager.{Transaction, TxnManager}

pub data Command : Type 0 where
  begin commit rollback : Command
  statement savepoint rollback_to release : String → Command

pub data EngineError : Type 0 where
  txn_error : String → EngineError
  statement_failed : EngineError
  not_found : String → EngineError

-- The savepoints have the newest first.
pub record QueryEngine (C : Type 0) : Type 0 where
  pub catalog : C
  pub txn_manager : TxnManager C
  pub savepoints : List (String × C)
  pub wal : List WalRecord
  pub answers : List Bool

-- A new process over the catalog of its replay and the log that is there.
unfoldable pub new_engine : {C : Type 0} → C → List WalRecord → List Bool → QueryEngine C
unfolding Manager.new
new_engine catalog wal answers = record {
  catalog = catalog;
  txn_manager = Manager.new;
  savepoints = [];
  wal = wal;
  answers = answers;
}

-- The log after a write that succeeds or fails, and the answers that are left.
abbrev pub written : List Bool → WalRecord → List WalRecord → List WalRecord
written [] r wal = wal ++ r ∷ []
written (true ∷ rest) r wal = wal ++ r ∷ []
written (false ∷ rest) r wal = wal

abbrev pub left : List Bool → List Bool
left [] = []
left (b ∷ rest) = rest

-- `rposition`, with the savepoints up to the one found.
unfoldable pub find_savepoint : {C : Type 0} → String → List (String × C) → List (String × C)
find_savepoint name [] = []
find_savepoint name ((n, c) ∷ rest) = if n == name then (n, c) ∷ rest else find_savepoint name rest

-- `map(|t| t.id).unwrap_or(0)`
unfoldable pub active_id : {C : Type 0} → TxnManager C → ℕ
active_id m = elim m.active [ none ↦ 0 | some t ↦ t.id ]

module _ {C : Type 0} (clone_catalog : C → C) (execute_sql : String → C → Option C) where
  -- `let _ = wal.append(&record); let _ = wal.sync();`
  unfoldable pub log : WalRecord → QueryEngine C → QueryEngine C
  log r e = record e { wal = written e.answers r e.wal; answers = left e.answers }

  -- `wal_append_txn`
  unfoldable pub statement_record : String → Option ℕ → WalRecord
  unfolding Recovery.txn_dml Recovery.autocommit
  statement_record sql none = Recovery.autocommit sql
  statement_record sql (some id) = Recovery.txn_dml id sql

  unfoldable pub execute_statement :
      String → Option ℕ → QueryEngine C → Result (Unit {0}) EngineError × QueryEngine C
  unfolding log statement_record
  execute_statement sql txn_id e = elim (execute_sql sql e.catalog) [
    | none ↦ (err statement_failed, e)
    | some c ↦ (ok tt, log (statement_record sql txn_id) (record e { catalog = c }))
  ]

  unfoldable pub execute_savepoint :
      String → QueryEngine C → Result (Unit {0}) EngineError × QueryEngine C
  execute_savepoint name e =
      (ok tt, record e { savepoints = (name, clone_catalog e.catalog) ∷ e.savepoints })

  unfoldable pub execute_rollback_to :
      String → QueryEngine C → Result (Unit {0}) EngineError × QueryEngine C
  unfolding find_savepoint
  execute_rollback_to name e = elim (find_savepoint name e.savepoints) [
    | [] ↦ (err (not_found name), e)
    | (n, snapshot) ∷ rest ↦
        (ok tt, record e { catalog = clone_catalog snapshot; savepoints = (n, snapshot) ∷ rest })
  ]

  unfoldable pub execute_release_savepoint :
      String → QueryEngine C → Result (Unit {0}) EngineError × QueryEngine C
  unfolding find_savepoint
  execute_release_savepoint name e = elim (find_savepoint name e.savepoints) [
    | [] ↦ (err (not_found name), e)
    | s ∷ rest ↦ (ok tt, record e { savepoints = rest })
  ]

  -- `execute_inner` on what is no transaction control.
  unfoldable pub execute_inner :
      Command → Option ℕ → QueryEngine C → Result (Unit {0}) EngineError × QueryEngine C
  unfolding execute_statement execute_savepoint execute_rollback_to execute_release_savepoint
  execute_inner (statement sql) txn_id e = execute_statement sql txn_id e
  execute_inner (savepoint name) txn_id e = execute_savepoint name e
  execute_inner (rollback_to name) txn_id e = execute_rollback_to name e
  execute_inner (release name) txn_id e = execute_release_savepoint name e
  execute_inner _ txn_id e = (err statement_failed, e)

  unfoldable pub execute_begin : QueryEngine C → Result (Unit {0}) EngineError × QueryEngine C
  unfolding Manager.begin log Recovery.begin
  execute_begin e =
      let (result, m) = Manager.begin clone_catalog e.catalog e.txn_manager in
      elim result [
        | ok id ↦ (ok tt, log (Recovery.begin id) (record e { txn_manager = m }))
        | err message ↦ (err (txn_error message), e)
      ]

  unfoldable pub execute_commit : QueryEngine C → Result (Unit {0}) EngineError × QueryEngine C
  unfolding Manager.commit log Recovery.commit active_id
  execute_commit e =
      let txn_id = active_id e.txn_manager in
      let (result, m) = Manager.commit e.txn_manager in
      elim result [
        | ok committed ↦ (
          ok tt,
          log (Recovery.commit txn_id)
              (record e { catalog = committed; txn_manager = m; savepoints = [] }),
        )
        | err message ↦ (err (txn_error message), e)
      ]

  unfoldable pub execute_rollback : QueryEngine C → Result (Unit {0}) EngineError × QueryEngine C
  unfolding Manager.rollback log Recovery.rollback active_id
  execute_rollback e =
      let txn_id = active_id e.txn_manager in
      let (result, m) = Manager.rollback e.txn_manager in
      elim result [
        | ok _ ↦
            (ok tt, log (Recovery.rollback txn_id) (record e { txn_manager = m; savepoints = [] }))
        | err message ↦ (err (txn_error message), e)
      ]

  -- The two swaps: the snapshot stands in for the catalog while the transaction's command runs, with
  -- the transaction taken out of the manager.
  unfoldable pub execute_in_txn :
      Command → Transaction C → QueryEngine C → Result (Unit {0}) EngineError × QueryEngine C
  unfolding execute_inner
  execute_in_txn command txn e =
      let m = e.txn_manager in
      let inside = record e { catalog = txn.snapshot; txn_manager = record m { active = none } } in
      let (result, v) = execute_inner command (some txn.id) inside in
      let n = v.txn_manager in
      (
        result,
        record v {
          catalog = e.catalog;
          txn_manager = record n { active = some (record txn { snapshot = v.catalog }) };
        },
      )

  unfoldable pub execute : Command → QueryEngine C → Result (Unit {0}) EngineError × QueryEngine C
  unfolding execute_begin execute_commit execute_rollback execute_in_txn execute_inner
  execute begin e = execute_begin e
  execute commit e = execute_commit e
  execute rollback e = execute_rollback e
  execute command e = elim e.txn_manager.active [
    | some txn ↦ execute_in_txn command txn e
    | none ↦ execute_inner command none e
  ]

  -- Commands one after the other, whatever they return.
  unfoldable pub run : List Command → QueryEngine C → QueryEngine C
  unfolding execute
  run [] e = e
  run (c ∷ cs) e = run cs (execute c e).1
