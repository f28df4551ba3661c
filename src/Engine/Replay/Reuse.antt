-- ===== src/Engine/Replay/Reuse.antt =====
-- Logs whose replay differs from what the processes did.
use Prim.Native.String.{String}
use text.Mathlib.Text.{◌==◌ as str_eq}
use text.Mathlib.TextEquality.{eq_iff}
use tensorvault.Prelude.{◌≡◌, refl, false, Option, none, some, List, [], ◌∷◌, ◌++◌, arith}
use tensorvault.Storage.Recovery
use tensorvault.Storage.Recovery.{PhysicalChange, WalRecord}
use tensorvault.Engine.Session.{
  begin, commit, rollback, statement, savepoint, rollback_to, execute, execute_begin,
  execute_commit, execute_rollback, execute_in_txn, execute_inner, execute_statement,
  execute_savepoint, execute_rollback_to, find_savepoint, run, new_engine,
}
use tensorvault.Engine.Replay.{replay_wal}

module _ {C : Type 0} (clone_catalog : C → C) (execute_sql : String → C → Option C)
    (apply_physical_change : PhysicalChange → C → Option C) where
  not_empty :
      (sql : String) (c d : C)
      → ((c : C) → execute_sql "" c ≡ none)
      → execute_sql sql c ≡ some d
      → str_eq sql "" ≡ false
  not_empty sql c d fails h = grind (arith, eq_iff sql "", fails c)

  one_process :
      (s : String) (start c : C)
      → ((c : C) → clone_catalog c ≡ c)
      → execute_sql s start ≡ some c
      → run clone_catalog execute_sql (begin ∷ statement s ∷ commit ∷ []) (new_engine start [] [])
        ≡ record {
          catalog = c;
          txn_manager = record { next_id = 2; active = none };
          savepoints = [];
          wal = Recovery.begin 1 ∷ Recovery.txn_dml 1 s ∷ Recovery.commit 1 ∷ [];
          answers = [];
        }
  unfolding run execute new_engine execute_begin execute_commit execute_in_txn execute_inner
      execute_statement
  one_process s start c same h = ground (arith, same start)

  second_process :
      (s : String) (c d : C) (wal : List WalRecord)
      → ((c : C) → clone_catalog c ≡ c)
      → execute_sql s c ≡ some d
      → run clone_catalog execute_sql (begin ∷ statement s ∷ rollback ∷ []) (new_engine c wal [])
        ≡ record {
          catalog = c;
          txn_manager = record { next_id = 2; active = none };
          savepoints = [];
          wal =
              ((wal ++ Recovery.begin 1 ∷ []) ++ Recovery.txn_dml 1 s ∷ [])
              ++ Recovery.rollback 1 ∷ [];
          answers = [];
        }
  unfolding run execute new_engine execute_begin execute_rollback execute_in_txn execute_inner
      execute_statement
  second_process s c d wal same h = ground (arith, same c)

  replay_both :
      (s t : String) (start c d : C)
      → ((c : C) → execute_sql "" c ≡ none)
      → execute_sql s start ≡ some c
      → execute_sql t c ≡ some d
      → replay_wal execute_sql apply_physical_change
          (Recovery.begin 1
            ∷ Recovery.txn_dml 1 s
            ∷ Recovery.commit 1
            ∷ Recovery.begin 1
            ∷ Recovery.txn_dml 1 t
            ∷ Recovery.rollback 1
            ∷ [])
          start
        ≡ some d
  unfolding replay_wal Recovery.begin Recovery.txn_dml Recovery.commit Recovery.rollback
  replay_both s t start c d fails h k =
      ground (arith, not_empty s start c fails h, not_empty t c d fails k)

  -- One process commits a statement in a transaction, and the next one, started on the catalog and
  -- the log it left, runs a second statement in a transaction and rolls it back. The catalog is the
  -- one after the first statement, and the replay of the log, which ends without an error, has run
  -- the second one too: both transactions have the ID 1.
  -- All writes of the log succeed.
  pub rolled_back_is_replayed :
      (s t : String) (start c d : C)
      → ((c : C) → clone_catalog c ≡ c)
      → ((c : C) → execute_sql "" c ≡ none)
      → execute_sql s start ≡ some c
      → execute_sql t c ≡ some d
      → ((let first =
            run clone_catalog execute_sql
              (begin ∷ statement s ∷ commit ∷ [])
              (new_engine start [] []) in
          let second =
            run clone_catalog execute_sql
              (begin ∷ statement t ∷ rollback ∷ [])
              (new_engine first.catalog first.wal []) in
          (second.catalog ≡ c)
          × (replay_wal execute_sql apply_physical_change second.wal start ≡ some d)))
  rolled_back_is_replayed s t start c d same fails h k = rw (one_process s start c same h) (
      rw
        (second_process t c d (Recovery.begin 1 ∷ Recovery.txn_dml 1 s ∷ Recovery.commit 1 ∷ [])
          same k)
        (refl, replay_both s t start c d fails h k))

  undo_process :
      (name s : String) (start c : C)
      → ((c : C) → clone_catalog c ≡ c)
      → execute_sql s start ≡ some c
      → run clone_catalog execute_sql
          (begin ∷ savepoint name ∷ statement s ∷ rollback_to name ∷ commit ∷ [])
          (new_engine start [] [])
        ≡ record {
          catalog = start;
          txn_manager = record { next_id = 2; active = none };
          savepoints = [];
          wal = Recovery.begin 1 ∷ Recovery.txn_dml 1 s ∷ Recovery.commit 1 ∷ [];
          answers = [];
        }
  unfolding run execute new_engine execute_begin execute_commit execute_in_txn execute_inner
      execute_statement execute_savepoint execute_rollback_to find_savepoint
  undo_process name s start c same h = ground (arith, same start, eq_iff name name)

  replay_one :
      (s : String) (start c : C)
      → ((c : C) → execute_sql "" c ≡ none)
      → execute_sql s start ≡ some c
      → replay_wal execute_sql apply_physical_change
          (Recovery.begin 1 ∷ Recovery.txn_dml 1 s ∷ Recovery.commit 1 ∷ [])
          start
        ≡ some c
  unfolding replay_wal Recovery.begin Recovery.txn_dml Recovery.commit
  replay_one s start c fails h = ground (arith, not_empty s start c fails h)

  -- In a transaction, a statement that runs after a savepoint, a rollback to that savepoint, and a
  -- commit leave the catalog of the start. The replay of the log ends without an error in the
  -- catalog after the statement. All writes of the log succeed.
  pub undone_is_replayed :
      (name s : String) (start c : C)
      → ((c : C) → clone_catalog c ≡ c)
      → ((c : C) → execute_sql "" c ≡ none)
      → execute_sql s start ≡ some c
      → (let done =
            run clone_catalog execute_sql
              (begin ∷ savepoint name ∷ statement s ∷ rollback_to name ∷ commit ∷ [])
              (new_engine start [] []) in
          (done.catalog ≡ start)
          × (replay_wal execute_sql apply_physical_change done.wal start ≡ some c))
  undone_is_replayed name s start c same fails h =
      rw (undo_process name s start c same h) (refl, replay_one s start c fails h)
