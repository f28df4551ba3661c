-- ===== src/Engine/Replay/Sessions.antt =====
-- Whole sessions of commands.
use Prim.Native.String.{String}
use tensorvault.Prelude.{
  ◌+◌, ◌<◌, ◌≤◌, ◌≡◌, refl, Bool, Option, none, some, List, [], ◌∷◌, length, arith, u64_mod,
  Option-cases, inl, inr,
}
use tensorvault.Prelude.Forall.{All}
use tensorvault.Storage.Recovery.{PhysicalChange}
use tensorvault.Txn.Manager
use tensorvault.Txn.Manager.{Transaction, TxnManager}
use tensorvault.Engine.Session.{
  Command, begin, commit, rollback, statement, savepoint, rollback_to, release, QueryEngine,
  execute, execute_begin, execute_commit, execute_rollback, execute_in_txn, execute_inner,
  execute_statement, log, run, new_engine,
}
use tensorvault.Engine.Replay.{replay_records, replay_wal}
use tensorvault.Engine.Replay.Invariant.{IsDurable, AllSucceed}
use tensorvault.Engine.Replay.Durability.{begin-Durable, commit-Durable, rollback-Durable}
use tensorvault.Engine.Replay.Inner.{IsLogged, free_command-Durable, txn_command-Durable}
use tensorvault.Engine.Replay.Durability.{begin-Durable, commit-Durable, rollback-Durable}

-- What `execute_inner` handles.
abbrev pub IsInner : Command → Type 0
IsInner (statement sql) = Unit
IsInner (savepoint name) = Unit
IsInner (release name) = Unit
IsInner _ = ⊥

module _ {C : Type 0} (clone_catalog : C → C) (execute_sql : String → C → Option C)
    (apply_physical_change : PhysicalChange → C → Option C) (start : C)
    (clone_same : (c : C) → clone_catalog c ≡ c)
    (empty_fails : (c : C) → execute_sql "" c ≡ none) where
  execute_free :
      (c : Command) (e : QueryEngine C)
      → IsInner c
      → e.txn_manager.active ≡ none
      → execute clone_catalog execute_sql c e ≡ execute_inner clone_catalog execute_sql c none e
  unfolding execute
  execute_free (statement sql) e i idle = ground arith
  execute_free (savepoint name) e i idle = ground arith
  execute_free (release name) e i idle = ground arith
  execute_free begin e i idle = absurd i
  execute_free commit e i idle = absurd i
  execute_free rollback e i idle = absurd i
  execute_free (rollback_to name) e i idle = absurd i

  execute_active :
      (c : Command) (e : QueryEngine C) (t : Transaction C)
      → IsInner c
      → e.txn_manager.active ≡ some t
      → execute clone_catalog execute_sql c e ≡ execute_in_txn clone_catalog execute_sql c t e
  unfolding execute
  execute_active (statement sql) e t i busy = ground arith
  execute_active (savepoint name) e t i busy = ground arith
  execute_active (release name) e t i busy = ground arith
  execute_active begin e t i busy = absurd i
  execute_active commit e t i busy = absurd i
  execute_active rollback e t i busy = absurd i
  execute_active (rollback_to name) e t i busy = absurd i

  inner-Durable :
      (c : Command) (e : QueryEngine C)
      → IsLogged c
      → IsInner c
      → IsDurable execute_sql apply_physical_change start e
      → IsDurable execute_sql apply_physical_change start (execute clone_catalog execute_sql c e).1
  inner-Durable c e l i h = elim (Option-cases e.txn_manager.active) [
    | inl idle ↦ rw (execute_free c e i idle) (
        free_command-Durable clone_catalog execute_sql apply_physical_change start clone_same
          empty_fails c e l idle h)
    | inr (t, busy) ↦ rw (execute_active c e t i busy) (
        txn_command-Durable clone_catalog execute_sql apply_physical_change start clone_same
          empty_fails c t e l busy h)
  ]

  execute-Durable :
      (c : Command) (e : QueryEngine C)
      → IsLogged c
      → e.txn_manager.next_id + 1 < u64_mod
      → IsDurable execute_sql apply_physical_change start e
      → IsDurable execute_sql apply_physical_change start (execute clone_catalog execute_sql c e).1
  unfolding execute
  execute-Durable begin e l b h =
      begin-Durable clone_catalog execute_sql apply_physical_change start clone_same empty_fails e b
        h
  execute-Durable commit e l b h =
      commit-Durable clone_catalog execute_sql apply_physical_change start clone_same empty_fails e
        h
  execute-Durable rollback e l b h =
      rollback-Durable clone_catalog execute_sql apply_physical_change start clone_same empty_fails
        e h
  execute-Durable (statement sql) e l b h = inner-Durable (statement sql) e l tt h
  execute-Durable (savepoint name) e l b h = inner-Durable (savepoint name) e l tt h
  execute-Durable (release name) e l b h = inner-Durable (release name) e l tt h
  execute-Durable (rollback_to name) e l b h = absurd l

  execute-next_id :
      (c : Command) (e : QueryEngine C)
      → e.txn_manager.next_id + 1 < u64_mod
      → (execute clone_catalog execute_sql c e).1.txn_manager.next_id ≤ e.txn_manager.next_id + 1
  unfolding execute execute_begin execute_commit execute_rollback execute_in_txn execute_inner
      execute_statement log
  execute-next_id begin e b = ground arith
  execute-next_id commit e b = ground arith
  execute-next_id rollback e b = ground arith
  execute-next_id (statement sql) e b = ground arith
  execute-next_id (savepoint name) e b = ground arith
  execute-next_id (rollback_to name) e b = ground arith
  execute-next_id (release name) e b = ground arith

  run-Durable :
      (cs : List Command) (e : QueryEngine C)
      → All IsLogged cs
      → e.txn_manager.next_id + length cs < u64_mod
      → IsDurable execute_sql apply_physical_change start e
      → IsDurable execute_sql apply_physical_change start (run clone_catalog execute_sql cs e)
  unfolding run
  run-Durable [] e l b h = h
  run-Durable (c ∷ cs) e l b h =
      let n = execute-next_id c e (omega arith) in
      run-Durable cs (execute clone_catalog execute_sql c e).1 l.1 (omega arith)
        (execute-Durable c e l.0 (omega arith) h)

  new_engine-Durable :
      (answers : List Bool)
      → AllSucceed answers
      → IsDurable execute_sql apply_physical_change start (new_engine start [] answers)
  unfolding new_engine Manager.new replay_wal replay_records
  new_engine-Durable answers a = record {
    positive = omega arith;
    below = tt;
    settled = refl;
    accepted = a;
    pending = tt;
  }

-- After any session of fewer than 2 ^ 64 - 1 commands that starts from an empty log and has no
-- rollback to a savepoint, and in which no write of the log fails, the replay of its log, on the
-- catalog the session started from, ends without an error in the catalog that the session's process
-- has. The condition on `clone_catalog` is that a clone is the catalog again, that on `execute_sql`
-- that the empty text is no statement.
pub session_replays :
    {C : Type 0} (clone_catalog : C → C) (execute_sql : String → C → Option C)
    (apply_physical_change : PhysicalChange → C → Option C) (start : C)
    → ((c : C) → clone_catalog c ≡ c)
    → ((c : C) → execute_sql "" c ≡ none)
    → (cs : List Command) (answers : List Bool) → AllSucceed answers
    → All IsLogged cs
    → 1 + length cs < u64_mod
    → replay_wal execute_sql apply_physical_change
        (run clone_catalog execute_sql cs (new_engine start [] answers)).wal
        start
      ≡ some (run clone_catalog execute_sql cs (new_engine start [] answers)).catalog
unfolding new_engine Manager.new
session_replays clone_catalog execute_sql apply_physical_change start same fails cs answers a l b =
    (run-Durable clone_catalog execute_sql apply_physical_change start same fails cs
      (new_engine start [] answers) l b
      (new_engine-Durable clone_catalog execute_sql apply_physical_change start same fails answers
        a)).settled
