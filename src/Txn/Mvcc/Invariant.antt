-- ===== src/Txn/Mvcc/Invariant.antt =====
-- The invariant of a connection's manager beside the global counter, kept by every operation.
use tensorvault.Prelude.{
  ℕ, ◌+◌, ◌≤◌, ◌<◌, ◌≡◌, refl, u64_mod, length, none, some, List, [], ◌∷◌, arith, inl, inr,
  Option-cases,
}
use tensorvault.Prelude.HashMap
use tensorvault.Prelude.HashMap.{IsMap, get-retain, get-insert, insert-IsMap, retain-IsMap}
use tensorvault.Prelude.Eq.{nat_eq}
use tensorvault.Txn.RowVersion.{TxnState, committed, in_progress, aborted, is_committed}
use tensorvault.Txn.Mvcc.{
  MvccTransaction, Session, Op, do_begin, do_commit, do_rollback, do_cleanup, other_begin, contains,
  is_not_aborted, begin, finish, commit, rollback, cleanup_aborted, viewer_id, step, run, initial,
  new,
}
use tensorvault.Txn.Mvcc.Snapshot.{contains-committed_ids, is_committed-retain}

pub record IsConsistent (s : Session) : Type 0 where
  pub is_map : IsMap s.manager.commit_state
  pub positive : 0 < s.next_txn_id
  pub no_zero : HashMap.get s.manager.commit_state 0 ≡ none
  -- IDs from the counter on are unused
  pub fresh : (t : ℕ) → s.next_txn_id ≤ t → HashMap.get s.manager.commit_state t ≡ none
  -- the only transaction in progress is the active one
  pub pending :
      (t : ℕ) → HashMap.get s.manager.commit_state t ≡ some in_progress → viewer_id s.manager ≡ t
  pub running :
      (a : MvccTransaction)
      → s.manager.active ≡ some a
      → HashMap.get s.manager.commit_state a.id ≡ some in_progress
  -- the snapshot is the set of the committed transactions
  pub seen :
      (a : MvccTransaction) (t : ℕ)
      → s.manager.active ≡ some a
      → contains a.snapshot t ≡ is_committed (HashMap.get s.manager.commit_state t)

pub initial-IsConsistent : IsConsistent initial
unfolding new HashMap.get
initial-IsConsistent = record {
  is_map = tt;
  positive = omega arith;
  no_zero = refl;
  fresh = λ t h. refl;
  pending = λ t h. cc;
  running = λ a h. cc;
  seen = λ a t h. cc;
}

begin-IsConsistent :
    (s : Session) → s.next_txn_id + 1 < u64_mod → IsConsistent s → IsConsistent (step s do_begin)
unfolding step begin viewer_id is_committed
begin-IsConsistent s bound h =
    let cs = s.manager.commit_state in
    let n = s.next_txn_id in
    record {
      is_map = ground (arith, h.is_map, insert-IsMap cs n in_progress h.is_map);
      positive = ground (arith, h.positive);
      no_zero = ground (arith, h.no_zero, h.positive, get-insert cs n 0 in_progress);
      fresh = λ t p. ground (arith, h.fresh t, get-insert cs n t in_progress);
      pending = λ t p. ground (arith, h.pending t, get-insert cs n t in_progress);
      running = λ a p. ground (arith, h.running a, get-insert cs n a.id in_progress);
      seen = λ a t p. ground (
        arith,
        h.seen a t,
        h.fresh t,
        get-insert cs n t in_progress,
        contains-committed_ids cs t h.is_map,
      );
    }

-- `outcome` is what `commit` or `rollback` records.
finish-IsConsistent :
    (s : Session) (outcome : TxnState)
    → (outcome ≡ in_progress → ⊥)
    → IsConsistent s
    → IsConsistent (record s { manager = (finish outcome s.manager).1 })
unfolding finish viewer_id
finish-IsConsistent s outcome decided h = elim (Option-cases s.manager.active) [
  | inl e ↦ rw (e, finish) h
  | inr (a, e) ↦
      let cs = s.manager.commit_state in
      let row = h.running a e in
      record {
        is_map = ground (arith, insert-IsMap cs a.id outcome h.is_map);
        positive = h.positive;
        no_zero = ground (arith, h.no_zero, row, get-insert cs a.id 0 outcome);
        fresh = λ t p. ground (arith, h.fresh t, row, get-insert cs a.id t outcome);
        pending = λ t p. ground (arith, h.pending t, row, get-insert cs a.id t outcome);
        running = λ b p. ground (arith);
        seen = λ b t p. ground (arith);
      }
]

cleanup-IsConsistent : (s : Session) → IsConsistent s → IsConsistent (step s do_cleanup)
unfolding step cleanup_aborted viewer_id
cleanup-IsConsistent s h =
    let cs = s.manager.commit_state in
    let kept = λ (t : ℕ). get-retain is_not_aborted cs t h.is_map in
    record {
      is_map = retain-IsMap is_not_aborted cs h.is_map;
      positive = h.positive;
      no_zero = ground (arith, kept 0, h.no_zero);
      fresh = λ t p. ground (arith, kept t, h.fresh t);
      pending = λ t p. unfold is_not_aborted in ground (arith, kept t, h.pending t);
      running = λ a p. unfold is_not_aborted in ground (arith, kept a.id, h.running a);
      seen = λ a t p. rw (is_committed-retain cs t h.is_map) (h.seen a t p);
    }

step-IsConsistent :
    (s : Session) (op : Op)
    → s.next_txn_id + 1 < u64_mod
    → IsConsistent s
    → IsConsistent (step s op)
unfolding step
step-IsConsistent s do_begin bound h = begin-IsConsistent s bound h
step-IsConsistent s do_commit bound h = unfold commit in finish-IsConsistent s committed (λ e. cc) h
step-IsConsistent s do_rollback bound h =
    unfold rollback in finish-IsConsistent s aborted (λ e. cc) h
step-IsConsistent s do_cleanup bound h = cleanup-IsConsistent s h
step-IsConsistent s other_begin bound h = record {
  is_map = h.is_map;
  positive = omega arith;
  no_zero = h.no_zero;
  fresh = λ t p. h.fresh t (omega arith);
  pending = h.pending;
  running = h.running;
  seen = h.seen;
}

-- One operation takes at most one ID.
next_txn_id-step : (s : Session) (op : Op) → (step s op).next_txn_id ≤ s.next_txn_id + 1
unfolding step begin
next_txn_id-step s do_begin = ground arith
next_txn_id-step s _ = omega arith

-- From a consistent session, any operations that cannot exhaust the 64-bit counter end in a
-- consistent session.
pub run-IsConsistent :
    (s : Session) (ops : List Op)
    → s.next_txn_id + length ops < u64_mod
    → IsConsistent s
    → IsConsistent (run s ops)
unfolding run
run-IsConsistent s [] bound h = h
run-IsConsistent s (op ∷ ops) bound h =
    run-IsConsistent (step s op) ops (omega (arith, next_txn_id-step s op))
      (step-IsConsistent s op (omega arith) h)
