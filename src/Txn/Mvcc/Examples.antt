-- ===== src/Txn/Mvcc/Examples.antt =====
-- Sessions of a few transactions.
use tensorvault.Prelude.{
  ◌+◌, ◌<◌, ◌≡◌, refl, true, false, some, List, [], ◌∷◌, length, arith, u64_mod,
}
use tensorvault.Prelude.HashMap
use tensorvault.Prelude.Eq.{nat_eq}
use tensorvault.Txn.RowVersion
use tensorvault.Txn.RowVersion.{RowVersion, committed, is_committed}
use tensorvault.Txn.Mvcc.{
  MvccTransaction, MvccTxnManager, Session, Op, do_begin, do_commit, do_rollback, other_begin,
  begin, commit, rollback, contains, is_visible, is_row_visible, cleanup_aborted, run, new,
  committed_ids, step, initial,
}
use tensorvault.Txn.Mvcc.Invariant.{IsConsistent, initial-IsConsistent, run-IsConsistent}
use tensorvault.Txn.Mvcc.Isolation.{row_test_agrees, cleanup_keeps_visibility}
use tensorvault.Txn.Mvcc.Outcome.{insert_outcome, delete_outcome}

-- Transaction 1 commits, 3 rolls back, 4 is active; 2 belongs to another connection.
abbrev ops : List Op
ops = do_begin ∷ do_commit ∷ other_begin ∷ do_begin ∷ do_rollback ∷ do_begin ∷ []

abbrev busy : Session
busy = run initial ops

abbrev fourth : MvccTransaction
fourth = record { id = 4; snapshot = 1 ∷ [] }

run-IsConsistent_example : IsConsistent (run initial ops)
run-IsConsistent_example = run-IsConsistent initial ops (omega arith) initial-IsConsistent

row_test_agrees_example :
    is_row_visible (run initial ops).manager (RowVersion.new 3)
    ≡ is_visible (run initial ops).manager 3
row_test_agrees_example = row_test_agrees ops 3 (omega arith) (omega arith)

cleanup_keeps_visibility_example :
    (is_visible (cleanup_aborted busy.manager).1 3 ≡ is_visible busy.manager 3)
    × (is_row_visible (cleanup_aborted busy.manager).1 (RowVersion.new 1)
        ≡ is_row_visible busy.manager (RowVersion.new 1))
    × ((cleanup_aborted busy.manager).0 + length (cleanup_aborted busy.manager).1.commit_state
        ≡ length busy.manager.commit_state)
cleanup_keeps_visibility_example =
    cleanup_keeps_visibility (run initial ops) 3 (RowVersion.new 1) run-IsConsistent_example

busy_active : busy.manager.active ≡ some fourth
unfolding run step begin rollback commit new committed_ids HashMap.insert is_committed
busy_active = refl

insert_outcome_example :
    (is_row_visible busy.manager (RowVersion.new 4) ≡ true)
    × (is_row_visible (commit busy.manager).1 (RowVersion.new 4) ≡ true)
    × (is_row_visible (rollback busy.manager).1 (RowVersion.new 4) ≡ false)
insert_outcome_example =
    insert_outcome (run initial ops) fourth run-IsConsistent_example busy_active

first_committed : HashMap.get busy.manager.commit_state 1 ≡ some committed
unfolding run HashMap.get step begin rollback commit new HashMap.insert
first_committed = refl

abbrev plain : RowVersion
plain = record { xmin = 1; xmax = 0 }

delete_outcome_example :
    (is_row_visible busy.manager (RowVersion.delete plain 4) ≡ false)
    × (is_row_visible (commit busy.manager).1 (RowVersion.delete plain 4) ≡ false)
    × (is_row_visible (rollback busy.manager).1 (RowVersion.delete plain 4) ≡ true)
delete_outcome_example =
    delete_outcome (run initial ops) fourth plain run-IsConsistent_example busy_active
      first_committed

counter_room : busy.next_txn_id + 1 < u64_mod
unfolding run step begin rollback commit new HashMap.insert
counter_room = omega arith

-- Transaction 2 committed after 4 began.
abbrev late : MvccTxnManager
late = record { commit_state = (2, committed) ∷ []; active = some fourth }

second_committed : HashMap.get late.commit_state 2 ≡ some committed
unfolding HashMap.get
second_committed = refl

not_seen : contains fourth.snapshot 2 ≡ false
unfolding contains
not_seen = refl
