-- ===== src/Txn/Mvcc/Isolation.antt =====
-- What a transaction sees of the others.
use tensorvault.Prelude.{
  ℕ, ◌+◌, ◌<◌, ◌≡◌, ◌≢◌, true, false, some, arith, inl, inr, Option-cases, List, length, u64_mod,
}
use tensorvault.Prelude.HashMap
use tensorvault.Prelude.HashMap.{HashMap, get-retain, length-retain}
use tensorvault.Prelude.Eq.{nat_eq}
use tensorvault.Txn.RowVersion
use tensorvault.Txn.RowVersion.{RowVersion, TxnState, committed, in_progress, aborted, is_committed}
use tensorvault.Txn.Mvcc.{
  MvccTransaction, MvccTxnManager, Session, Op, contains, is_not_aborted, cleanup_aborted,
  is_visible, is_row_visible, run, initial,
}
use tensorvault.Txn.Mvcc.Snapshot.{is_committed-retain}
use tensorvault.Txn.Mvcc.Invariant.{IsConsistent, initial-IsConsistent, run-IsConsistent}

-- In a consistent session the two tests agree on a fresh row.
agree :
    (s : Session) (t : ℕ)
    → IsConsistent s
    → t ≢ 0
    → is_row_visible s.manager (RowVersion.new t) ≡ is_visible s.manager t
unfolding is_row_visible is_visible RowVersion.is_visible RowVersion.new
agree s t h n = elim (Option-cases s.manager.active) [
  | inl e ↦ ground (arith, e)
  | inr (a, e) ↦ ground (arith, e, h.seen a t e)
]

-- After any operations of a connection that cannot exhaust the 64-bit counter, a row that
-- transaction t (t is not 0) inserted and nobody deleted is visible to the connection exactly when
-- `is_visible` says that t is: the row test, which reads the commit states and no snapshot, agrees
-- with the snapshot test.
pub row_test_agrees :
    (ops : List Op) (t : ℕ)
    → 1 + length ops < u64_mod
    → t ≢ 0
    → is_row_visible (run initial ops).manager (RowVersion.new t)
      ≡ is_visible (run initial ops).manager t
row_test_agrees ops t bound n =
    agree (run initial ops) t (run-IsConsistent initial ops bound initial-IsConsistent) n

-- A transaction that is committed, is not the active one and is not in its snapshot is invisible
-- to `is_visible`, while a row that it inserted is visible to `is_row_visible`: the row test does
-- not look at the snapshot.
pub late_commit_tests_differ :
    (m : MvccTxnManager) (a : MvccTransaction) (t : ℕ)
    → m.active ≡ some a
    → HashMap.get m.commit_state t ≡ some committed
    → t ≢ a.id
    → contains a.snapshot t ≡ false
    → (is_visible m t ≡ false) × (is_row_visible m (RowVersion.new t) ≡ true)
unfolding is_row_visible is_visible RowVersion.is_visible RowVersion.new is_committed
late_commit_tests_differ m a t e c n o = (ground (arith, e), ground (arith, e))

-- In a consistent session `cleanup_aborted` changes neither visibility test, of any transaction or
-- of any row version, and returns by how many entries the commit states shrank.
pub cleanup_keeps_visibility :
    (s : Session) (t : ℕ) (v : RowVersion)
    → IsConsistent s
    → (is_visible (cleanup_aborted s.manager).1 t ≡ is_visible s.manager t)
      × (is_row_visible (cleanup_aborted s.manager).1 v ≡ is_row_visible s.manager v)
      × ((cleanup_aborted s.manager).0 + length (cleanup_aborted s.manager).1.commit_state
          ≡ length s.manager.commit_state)
unfolding is_row_visible is_visible RowVersion.is_visible cleanup_aborted
cleanup_keeps_visibility s t v h =
    let cs = s.manager.commit_state in
    (
      ground (arith, is_committed-retain cs t h.is_map),
      ground
          (arith, is_committed-retain cs v.xmin h.is_map, is_committed-retain cs v.xmax h.is_map),
      omega (arith, length-retain is_not_aborted cs),
    )
