-- ===== src/Txn/Mvcc/Outcome.antt =====
-- What `begin`, `commit` and `rollback` do to the versions that a transaction wrote.
use tensorvault.Prelude.{◌<◌, ◌+◌, ◌≡◌, ◌≢◌, true, false, none, some, arith, u64_mod, ◌⊎◌}
use tensorvault.Prelude.Results.{ok}
use tensorvault.Prelude.HashMap
use tensorvault.Prelude.HashMap.{get-insert}
use tensorvault.Prelude.Eq.{nat_eq}
use tensorvault.Txn.RowVersion
use tensorvault.Txn.RowVersion.{RowVersion, TxnState, committed, in_progress, aborted, is_committed}
use tensorvault.Txn.Mvcc.{MvccTransaction, Session, begin, commit, rollback, is_row_visible}
use tensorvault.Txn.Mvcc.Invariant.{IsConsistent}

-- In a consistent session with the active transaction a, a row that a inserted is visible to a, and
-- to its connection after `commit`, and no longer after `rollback`.
pub insert_outcome :
    (s : Session) (a : MvccTransaction)
    → IsConsistent s
    → s.manager.active ≡ some a
    → (is_row_visible s.manager (RowVersion.new a.id) ≡ true)
      × (is_row_visible (commit s.manager).1 (RowVersion.new a.id) ≡ true)
      × (is_row_visible (rollback s.manager).1 (RowVersion.new a.id) ≡ false)
unfolding is_row_visible RowVersion.is_visible RowVersion.new commit rollback is_committed
insert_outcome s a h e =
    let cs = s.manager.commit_state in
    let row = h.running a e in
    (
      ground (arith, e),
      ground (arith, e, get-insert cs a.id a.id committed),
      ground (arith, e, row, h.no_zero, get-insert cs a.id a.id aborted),
    )

-- In a consistent session with the active transaction a, the version of another, committed,
-- transaction that a deletes is invisible to a and after `commit`, and visible again after
-- `rollback`.
pub delete_outcome :
    (s : Session) (a : MvccTransaction) (v : RowVersion)
    → IsConsistent s
    → s.manager.active ≡ some a
    → HashMap.get s.manager.commit_state v.xmin ≡ some committed
    → (is_row_visible s.manager (RowVersion.delete v a.id) ≡ false)
      × (is_row_visible (commit s.manager).1 (RowVersion.delete v a.id) ≡ false)
      × (is_row_visible (rollback s.manager).1 (RowVersion.delete v a.id) ≡ true)
unfolding is_row_visible RowVersion.is_visible RowVersion.delete commit rollback is_committed
delete_outcome s a v h e c =
    let cs = s.manager.commit_state in
    let row = h.running a e in
    (
      ground (arith, e, row, h.no_zero),
      ground (
        arith,
        e,
        row,
        h.no_zero,
        get-insert cs a.id a.id committed,
        get-insert cs a.id v.xmin committed,
      ),
      ground (
        arith,
        e,
        row,
        h.no_zero,
        get-insert cs a.id a.id aborted,
        get-insert cs a.id v.xmin aborted,
      ),
    )

-- In a consistent session whose counter is not at its end, `begin` fails and changes nothing when
-- a transaction is active; else it returns the counter's value, an ID without a commit state
-- before, and the counter is one higher.
pub begin_outcome :
    (s : Session)
    → IsConsistent s
    → s.next_txn_id + 1 < u64_mod
    → ((s.manager.active ≡ none)
        × ((begin s.next_txn_id s.manager).0 ≡ ok s.next_txn_id)
        × (HashMap.get s.manager.commit_state s.next_txn_id ≡ none)
        × ((begin s.next_txn_id s.manager).2 ≡ s.next_txn_id + 1))
      ⊎ ((s.manager.active ≢ none)
          × ((begin s.next_txn_id s.manager).1 ≡ s.manager)
          × ((begin s.next_txn_id s.manager).2 ≡ s.next_txn_id)
          × ((begin s.next_txn_id s.manager).0 ≢ ok s.next_txn_id))
unfolding begin
begin_outcome s h bound = ground (arith, h.fresh s.next_txn_id)
