-- ===== src/Engine/Replay/Durability.antt =====
-- The log of one process replays to the catalog that its commits left.
use Prim.Native.String.{String}
use tensorvault.Prelude.{
  ℕ, ◌+◌, ◌<◌, ◌≡◌, refl, ◌∙◌, Bool, true, Option, none, some, [], ◌∷◌, ◌++◌, arith, u64_mod,
  Option-cases, inl, inr,
}
use mathlib.Core.Path.{subst}
use tensorvault.Storage.Recovery
use tensorvault.Storage.Recovery.{WalRecord, PhysicalChange}
use tensorvault.Txn.Manager.{Transaction}
use tensorvault.Engine.Session.{QueryEngine, left, execute_begin, execute_commit, execute_rollback}
use tensorvault.Engine.Replay.{committed_txns, contains, replay_wal}
use tensorvault.Engine.Replay.Fold.{
  contains-committed_txns, SameOn-new, IdsBelow-append, replay_records_same,
}
use tensorvault.Engine.Replay.Invariant.{
  committed_txns-append_other, with_active, IsPending, IsDurable, AllSucceed, AllSucceed-left,
  replay_marker, replay_wal-append, pending-append, replay_wal-commit,
}

module _ {C : Type 0} (clone_catalog : C → C) (execute_sql : String → C → Option C)
    (apply_physical_change : PhysicalChange → C → Option C) (start : C)
    (clone_same : (c : C) → clone_catalog c ≡ c)
    (empty_fails : (c : C) → execute_sql "" c ≡ none) where
  abbrev pub Durable : QueryEngine C → Type 0
  Durable = IsDurable execute_sql apply_physical_change start

  begin_busy :
      (e : QueryEngine C) (t : Transaction C)
      → e.txn_manager.active ≡ some t
      → (execute_begin clone_catalog execute_sql e).1 ≡ e
  unfolding execute_begin
  begin_busy e t h = ground arith

  begin_fresh :
      (e : QueryEngine C)
      → e.txn_manager.active ≡ none
      → e.txn_manager.next_id + 1 < u64_mod
      → AllSucceed e.answers
      → (execute_begin clone_catalog execute_sql e).1 ≡ record e {
        txn_manager = record {
          next_id = e.txn_manager.next_id + 1;
          active =
              some (record { id = e.txn_manager.next_id; snapshot = e.catalog; active = true });
        };
        wal = e.wal ++ Recovery.begin e.txn_manager.next_id ∷ [];
        answers = left e.answers;
      }
  unfolding execute_begin
  begin_fresh e h l a = ground (arith, clone_same e.catalog)

  pub begin-Durable :
      (e : QueryEngine C)
      → e.txn_manager.next_id + 1 < u64_mod
      → Durable e
      → Durable (execute_begin clone_catalog execute_sql e).1
  begin-Durable e l h = elim (Option-cases e.txn_manager.active) [
    | inr (t, busy) ↦ rw (begin_busy e t busy) h
    | inl free ↦
        let n = e.txn_manager.next_id in
        let r = Recovery.begin n in
        let quiet = committed_txns-append_other e.wal r (unfold Recovery.begin in refl) in
        let skip = λ (k : ℕ → Bool).
          replay_marker execute_sql apply_physical_change start k r e.catalog
            (unfold Recovery.begin in refl) (unfold Recovery.begin in refl) in
        rw (begin_fresh e free l h.accepted) (record {
          positive = omega arith;
          below =
              IdsBelow-append n (n + 1) e.wal r (omega arith) h.below
                (unfold Recovery.begin in omega arith);
          settled =
              replay_wal-append execute_sql apply_physical_change start e.wal r e.catalog
                (unfold Recovery.begin in refl) h.settled
              ∙ skip (contains (committed_txns e.wal));
          accepted = AllSucceed-left e.answers h.accepted;
          pending = (
            h.positive,
            omega arith,
            rw quiet (contains-committed_txns e.wal n n h.below (omega arith)),
            pending-append execute_sql apply_physical_change start n e.wal r e.catalog
                  (unfold Recovery.begin in refl)
                  (replay_records_same execute_sql apply_physical_change
                      (with_active execute_sql apply_physical_change start n e.wal)
                      (contains (committed_txns e.wal)) e.wal start
                      (SameOn-new (contains (committed_txns e.wal)) n n e.wal h.below (omega arith))
                    ∙ unfold replay_wal in h.settled)
                ∙ skip (with_active execute_sql apply_physical_change start n e.wal),
          );
        })
  ]

  commit_idle :
      (e : QueryEngine C)
      → e.txn_manager.active ≡ none
      → (execute_commit clone_catalog execute_sql e).1 ≡ e
  unfolding execute_commit
  commit_idle e h = ground arith

  commit_active :
      (e : QueryEngine C) (t : Transaction C)
      → e.txn_manager.active ≡ some t
      → AllSucceed e.answers
      → (execute_commit clone_catalog execute_sql e).1 ≡ record {
        catalog = t.snapshot;
        txn_manager = record { next_id = e.txn_manager.next_id; active = none };
        savepoints = [];
        wal = e.wal ++ Recovery.commit t.id ∷ [];
        answers = left e.answers;
      }
  unfolding execute_commit
  commit_active e t h a = ground arith

  pub commit-Durable :
      (e : QueryEngine C) → Durable e → Durable (execute_commit clone_catalog execute_sql e).1
  commit-Durable e h = elim (Option-cases e.txn_manager.active) [
    | inl idle ↦ rw (commit_idle e idle) h
    | inr (t, busy) ↦
        let p =
          subst (IsPending execute_sql apply_physical_change start e.txn_manager.next_id e.wal) busy
            h.pending in
        rw (commit_active e t busy h.accepted) (record {
          positive = h.positive;
          below =
              IdsBelow-append e.txn_manager.next_id e.txn_manager.next_id e.wal
                (Recovery.commit t.id) (omega arith) h.below (unfold Recovery.commit in p.1);
          settled =
              replay_wal-commit execute_sql apply_physical_change start e.wal t.id t.snapshot p.0
                p.3;
          accepted = AllSucceed-left e.answers h.accepted;
          pending = tt;
        })
  ]

  rollback_idle :
      (e : QueryEngine C)
      → e.txn_manager.active ≡ none
      → (execute_rollback clone_catalog execute_sql e).1 ≡ e
  unfolding execute_rollback
  rollback_idle e h = ground arith

  rollback_active :
      (e : QueryEngine C) (t : Transaction C)
      → e.txn_manager.active ≡ some t
      → AllSucceed e.answers
      → (execute_rollback clone_catalog execute_sql e).1 ≡ record {
        catalog = e.catalog;
        txn_manager = record { next_id = e.txn_manager.next_id; active = none };
        savepoints = [];
        wal = e.wal ++ Recovery.rollback t.id ∷ [];
        answers = left e.answers;
      }
  unfolding execute_rollback
  rollback_active e t h a = ground arith

  pub rollback-Durable :
      (e : QueryEngine C) → Durable e → Durable (execute_rollback clone_catalog execute_sql e).1
  rollback-Durable e h = elim (Option-cases e.txn_manager.active) [
    | inl idle ↦ rw (rollback_idle e idle) h
    | inr (t, busy) ↦
        let p =
          subst (IsPending execute_sql apply_physical_change start e.txn_manager.next_id e.wal) busy
            h.pending in
        rw (rollback_active e t busy h.accepted) (record {
          positive = h.positive;
          below =
              IdsBelow-append e.txn_manager.next_id e.txn_manager.next_id e.wal
                (Recovery.rollback t.id) (omega arith) h.below (unfold Recovery.rollback in p.1);
          settled =
              replay_wal-append execute_sql apply_physical_change start e.wal
                (Recovery.rollback t.id) e.catalog (unfold Recovery.rollback in refl) h.settled
              ∙ replay_marker execute_sql apply_physical_change start
                  (contains (committed_txns e.wal)) (Recovery.rollback t.id) e.catalog
                  (unfold Recovery.rollback in refl) (unfold Recovery.rollback in refl);
          accepted = AllSucceed-left e.answers h.accepted;
          pending = tt;
        })
  ]
