-- ===== src/Engine/Replay/Statements.antt =====
-- Statements, by themselves and in a transaction, keep the log and the catalog together.
use Prim.Native.String.{String}
use text.Mathlib.Text.{◌==◌ as str_eq}
use text.Mathlib.TextEquality.{eq_iff}
use tensorvault.Prelude.{
  ℕ, ◌<◌, ◌≡◌, refl, ◌∙◌, Bool, true, false, Option, none, some, List, [], ◌∷◌, ◌++◌, arith,
  Option-cases, inl, inr,
}
use mathlib.Core.Path.{subst}
use tensorvault.Storage.Recovery
use tensorvault.Storage.Recovery.{WalRecord, PhysicalChange}
use tensorvault.Txn.Manager.{Transaction}
use tensorvault.Engine.Session.{
  statement, QueryEngine, left, execute_in_txn, execute_statement, statement_record, log,
}
use tensorvault.Engine.Replay.{committed_txns, contains, execute_or_keep, replay_record}
use tensorvault.Engine.Replay.Fold.{IdsBelow-append}
use tensorvault.Engine.Replay.Invariant.{
  committed_txns-append_other, with_active, IsPending, IsDurable, AllSucceed, AllSucceed-left,
  replay_wal-append, pending-append,
}

module _ {C : Type 0} (clone_catalog : C → C) (execute_sql : String → C → Option C)
    (apply_physical_change : PhysicalChange → C → Option C) (start : C)
    (clone_same : (c : C) → clone_catalog c ≡ c)
    (empty_fails : (c : C) → execute_sql "" c ≡ none) where
  statement_not_empty :
      (sql : String) (c d : C) → execute_sql sql c ≡ some d → str_eq sql "" ≡ false
  statement_not_empty sql c d h = grind (arith, eq_iff sql "", empty_fails c)

  -- A statement that ran runs again.
  replay_statement :
      (k : ℕ → Bool) (sql : String) (id : ℕ) (c d : C)
      → execute_sql sql c ≡ some d
      → k id ≡ true
      → replay_record execute_sql apply_physical_change k (Recovery.txn_dml id sql) c ≡ some d
  unfolding replay_record execute_or_keep Recovery.txn_dml
  replay_statement k sql id c d h i = ground (arith, statement_not_empty sql c d h)

  replay_autocommit :
      (k : ℕ → Bool) (sql : String) (c d : C)
      → execute_sql sql c ≡ some d
      → replay_record execute_sql apply_physical_change k (Recovery.autocommit sql) c ≡ some d
  unfolding replay_record execute_or_keep Recovery.autocommit
  replay_autocommit k sql c d h = ground (arith, statement_not_empty sql c d h)

  -- Without its commit it is passed over.
  skip_statement :
      (k : ℕ → Bool) (sql : String) (id : ℕ) (c : C)
      → 0 < id
      → k id ≡ false
      → replay_record execute_sql apply_physical_change k (Recovery.txn_dml id sql) c ≡ some c
  unfolding replay_record Recovery.txn_dml
  skip_statement k sql id c p i = ground arith

  statement_failed_same :
      (sql : String) (id : Option ℕ) (e : QueryEngine C)
      → execute_sql sql e.catalog ≡ none
      → (execute_statement clone_catalog execute_sql sql id e).1 ≡ e
  unfolding execute_statement
  statement_failed_same sql id e h = ground arith

  statement_done :
      (sql : String) (id : Option ℕ) (e : QueryEngine C) (d : C)
      → execute_sql sql e.catalog ≡ some d
      → AllSucceed e.answers
      → (execute_statement clone_catalog execute_sql sql id e).1 ≡ record e {
        catalog = d;
        wal = e.wal ++ statement_record clone_catalog execute_sql sql id ∷ [];
        answers = left e.answers;
      }
  unfolding execute_statement log
  statement_done sql id e d h a = ground arith

  pub autocommit-Durable :
      (sql : String) (e : QueryEngine C)
      → e.txn_manager.active ≡ none
      → IsDurable execute_sql apply_physical_change start e
      → IsDurable execute_sql apply_physical_change start
          (execute_statement clone_catalog execute_sql sql none e).1
  unfolding statement_record
  autocommit-Durable sql e idle h = elim (Option-cases (execute_sql sql e.catalog)) [
    | inl fails ↦ rw (statement_failed_same sql none e fails) h
    | inr (d, runs) ↦
        let r = Recovery.autocommit sql in
        rw (statement_done sql none e d runs h.accepted) (record {
          positive = h.positive;
          below =
              IdsBelow-append e.txn_manager.next_id e.txn_manager.next_id e.wal r (omega arith)
                h.below (unfold Recovery.autocommit in h.positive);
          settled =
              replay_wal-append execute_sql apply_physical_change start e.wal r e.catalog
                (unfold Recovery.autocommit in refl) h.settled
              ∙ replay_autocommit (contains (committed_txns e.wal)) sql e.catalog d runs;
          accepted = AllSucceed-left e.answers h.accepted;
          pending = rw idle tt;
        })
  ]

  pub savepoints-Durable :
      (e : QueryEngine C) (kept : List (String × C))
      → IsDurable execute_sql apply_physical_change start e
      → IsDurable execute_sql apply_physical_change start (record e { savepoints = kept })
  savepoints-Durable e kept h = record {
    positive = h.positive;
    below = h.below;
    settled = h.settled;
    accepted = h.accepted;
    pending = h.pending;
  }

  txn_failed_same :
      (sql : String) (t : Transaction C) (e : QueryEngine C)
      → e.txn_manager.active ≡ some t
      → execute_sql sql t.snapshot ≡ none
      → (execute_in_txn clone_catalog execute_sql (statement sql) t e).1 ≡ e
  unfolding execute_in_txn execute_statement
  txn_failed_same sql t e busy h = ground arith

  txn_done :
      (sql : String) (t : Transaction C) (e : QueryEngine C) (d : C)
      → execute_sql sql t.snapshot ≡ some d
      → AllSucceed e.answers
      → (execute_in_txn clone_catalog execute_sql (statement sql) t e).1 ≡ record e {
        txn_manager = record {
          next_id = e.txn_manager.next_id;
          active = some (record t { snapshot = d });
        };
        wal = e.wal ++ Recovery.txn_dml t.id sql ∷ [];
        answers = left e.answers;
      }
  unfolding execute_in_txn execute_statement log statement_record
  txn_done sql t e d h a = ground arith

  pub txn-Durable :
      (sql : String) (t : Transaction C) (e : QueryEngine C)
      → e.txn_manager.active ≡ some t
      → IsDurable execute_sql apply_physical_change start e
      → IsDurable execute_sql apply_physical_change start
          (execute_in_txn clone_catalog execute_sql (statement sql) t e).1
  txn-Durable sql t e busy h = elim (Option-cases (execute_sql sql t.snapshot)) [
    | inl fails ↦ rw (txn_failed_same sql t e busy fails) h
    | inr (d, runs) ↦
        let r = Recovery.txn_dml t.id sql in
        let n = e.txn_manager.next_id in
        let p = subst (IsPending execute_sql apply_physical_change start n e.wal) busy h.pending in
        let quiet = committed_txns-append_other e.wal r (unfold Recovery.txn_dml in refl) in
        rw (txn_done sql t e d runs h.accepted) (record {
          positive = h.positive;
          below =
              IdsBelow-append n n e.wal r (omega arith) h.below (unfold Recovery.txn_dml in p.1);
          settled =
              replay_wal-append execute_sql apply_physical_change start e.wal r e.catalog
                (unfold Recovery.txn_dml in refl) h.settled
              ∙ skip_statement (contains (committed_txns e.wal)) sql t.id e.catalog p.0 p.2;
          accepted = AllSucceed-left e.answers h.accepted;
          pending = (
            p.0,
            p.1,
            rw quiet p.2,
            pending-append execute_sql apply_physical_change start t.id e.wal r t.snapshot
                  (unfold Recovery.txn_dml in refl) p.3
                ∙ replay_statement (with_active execute_sql apply_physical_change start t.id e.wal)
                    sql t.id t.snapshot d runs (ground arith),
          );
        })
  ]
