-- ===== src/Engine/Replay/Inner.antt =====
-- Statements, savepoints and releases, outside and inside a transaction.
use Prim.Native.String.{String}
use tensorvault.Prelude.{List-cases, ◌≡◌, Option, none, some, List, [], ◌∷◌, arith, inl, inr}
use tensorvault.Storage.Recovery.{PhysicalChange}
use tensorvault.Txn.Manager.{Transaction}
use tensorvault.Engine.Session.{
  Command, begin, commit, rollback, statement, savepoint, rollback_to, release, QueryEngine,
  execute_in_txn, execute_inner, execute_savepoint, execute_release_savepoint, find_savepoint,
}
use tensorvault.Engine.Replay.Invariant.{IsDurable}
use tensorvault.Engine.Replay.Statements.{autocommit-Durable, savepoints-Durable, txn-Durable}

-- Everything but the rollback to a savepoint.
abbrev pub IsLogged : Command → Type 0
IsLogged (rollback_to name) = ⊥
IsLogged _ = Unit

module _ {C : Type 0} (clone_catalog : C → C) (execute_sql : String → C → Option C)
    (apply_physical_change : PhysicalChange → C → Option C) (start : C)
    (clone_same : (c : C) → clone_catalog c ≡ c)
    (empty_fails : (c : C) → execute_sql "" c ≡ none) where
  release_missing :
      (name : String) (e : QueryEngine C)
      → find_savepoint name e.savepoints ≡ []
      → (execute_release_savepoint clone_catalog execute_sql name e).1 ≡ e
  unfolding execute_release_savepoint
  release_missing name e h = ground arith

  release_found :
      (name : String) (e : QueryEngine C) (s : String × C) (rest : List (String × C))
      → find_savepoint name e.savepoints ≡ s ∷ rest
      → (execute_release_savepoint clone_catalog execute_sql name e).1
        ≡ record e { savepoints = rest }
  unfolding execute_release_savepoint
  release_found name e s rest h = ground arith

  pub free_command-Durable :
      (c : Command) (e : QueryEngine C)
      → IsLogged c
      → e.txn_manager.active ≡ none
      → IsDurable execute_sql apply_physical_change start e
      → IsDurable execute_sql apply_physical_change start
          (execute_inner clone_catalog execute_sql c none e).1
  unfolding execute_inner execute_savepoint execute_release_savepoint
  free_command-Durable (statement sql) e l idle h =
      autocommit-Durable clone_catalog execute_sql apply_physical_change start clone_same
        empty_fails sql e idle h
  free_command-Durable (savepoint name) e l idle h =
      savepoints-Durable clone_catalog execute_sql apply_physical_change start clone_same
        empty_fails e ((name, clone_catalog e.catalog) ∷ e.savepoints) h
  free_command-Durable (release name) e l idle h =
      elim (List-cases (find_savepoint name e.savepoints)) [
        | inl missing ↦ rw (release_missing name e missing) h
        | inr (s, rest, found) ↦ rw (release_found name e s rest found) (
            savepoints-Durable clone_catalog execute_sql apply_physical_change start clone_same
              empty_fails e rest h)
      ]
  free_command-Durable begin e l idle h = h
  free_command-Durable commit e l idle h = h
  free_command-Durable rollback e l idle h = h
  free_command-Durable (rollback_to name) e l idle h = absurd l

  execute_in_txn_savepoint :
      (name : String) (t : Transaction C) (e : QueryEngine C)
      → e.txn_manager.active ≡ some t
      → (execute_in_txn clone_catalog execute_sql (savepoint name) t e).1
        ≡ record e { savepoints = (name, clone_catalog t.snapshot) ∷ e.savepoints }
  unfolding execute_in_txn execute_savepoint
  execute_in_txn_savepoint name t e busy = ground arith

  txn_release_missing :
      (name : String) (t : Transaction C) (e : QueryEngine C)
      → e.txn_manager.active ≡ some t
      → find_savepoint name e.savepoints ≡ []
      → (execute_in_txn clone_catalog execute_sql (release name) t e).1 ≡ e
  unfolding execute_in_txn execute_release_savepoint
  txn_release_missing name t e busy h = ground arith

  txn_release_found :
      (name : String) (t : Transaction C) (e : QueryEngine C) (s : String × C)
      (rest : List (String × C))
      → e.txn_manager.active ≡ some t
      → find_savepoint name e.savepoints ≡ s ∷ rest
      → (execute_in_txn clone_catalog execute_sql (release name) t e).1
        ≡ record e { savepoints = rest }
  unfolding execute_in_txn execute_release_savepoint
  txn_release_found name t e s rest busy h = ground arith

  -- The transaction taken out and put back.
  abbrev put_back : QueryEngine C → Transaction C → QueryEngine C
  put_back e t = record e {
    txn_manager = record { next_id = e.txn_manager.next_id; active = some t };
  }

  put_back_same :
      (t : Transaction C) (e : QueryEngine C) → e.txn_manager.active ≡ some t → put_back e t ≡ e
  put_back_same t e busy = ground arith

  put_back-Durable :
      (t : Transaction C) (e : QueryEngine C)
      → e.txn_manager.active ≡ some t
      → IsDurable execute_sql apply_physical_change start e
      → IsDurable execute_sql apply_physical_change start (put_back e t)
  put_back-Durable t e busy h = rw (put_back_same t e busy) h

  pub txn_command-Durable :
      (c : Command) (t : Transaction C) (e : QueryEngine C)
      → IsLogged c
      → e.txn_manager.active ≡ some t
      → IsDurable execute_sql apply_physical_change start e
      → IsDurable execute_sql apply_physical_change start
          (execute_in_txn clone_catalog execute_sql c t e).1
  unfolding execute_in_txn execute_inner
  txn_command-Durable (statement sql) t e l busy h =
      txn-Durable clone_catalog execute_sql apply_physical_change start clone_same empty_fails sql t
        e busy h
  txn_command-Durable (savepoint name) t e l busy h = rw (execute_in_txn_savepoint name t e busy) (
      savepoints-Durable clone_catalog execute_sql apply_physical_change start clone_same
        empty_fails e ((name, clone_catalog t.snapshot) ∷ e.savepoints) h)
  txn_command-Durable (release name) t e l busy h =
      elim (List-cases (find_savepoint name e.savepoints)) [
        | inl missing ↦ rw (txn_release_missing name t e busy missing) h
        | inr (s, rest, found) ↦ rw (txn_release_found name t e s rest busy found) (
            savepoints-Durable clone_catalog execute_sql apply_physical_change start clone_same
              empty_fails e rest h)
      ]
  txn_command-Durable (rollback_to name) t e l busy h = absurd l
  txn_command-Durable begin t e l busy h = put_back-Durable t e busy h
  txn_command-Durable commit t e l busy h = put_back-Durable t e busy h
  txn_command-Durable rollback t e l busy h = put_back-Durable t e busy h
