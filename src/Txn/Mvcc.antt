-- ===== src/Txn/Mvcc.antt =====
-- src/txn/mvcc.rs: the MVCC transaction manager. `NEXT_TXN_ID`, a global shared by the managers of
-- all connections, is passed to `begin` and comes back from it.
mod Snapshot
mod Invariant
pub mod Isolation
pub mod Outcome
mod Examples
use Prim.Native.String.{String}
use tensorvault.Prelude.{
  ℕ, ◌+◌, ◌-◌, ◌%◌, ◌==◌, u64_mod, if◌then◌else◌, length, Bool, true, false, ◌||◌, Option, none,
  some, List, [], ◌∷◌,
}
use tensorvault.Prelude.Results.{Result, ok, err}
use tensorvault.Prelude.HashMap
use tensorvault.Prelude.HashMap.{HashMap}
use tensorvault.Prelude.Eq.{nat_eq}
use tensorvault.Txn.RowVersion
use tensorvault.Txn.RowVersion.{RowVersion, TxnState, in_progress, committed, aborted, is_committed}

pub record MvccTransaction : Type 0 where
  pub id : ℕ
  pub snapshot : List ℕ

pub record MvccTxnManager : Type 0 where
  pub commit_state : HashMap ℕ TxnState
  pub active : Option MvccTransaction

unfoldable pub new : MvccTxnManager
new = record { commit_state = []; active = none }

-- The keys of the committed entries.
unfoldable pub committed_ids : HashMap ℕ TxnState → List ℕ
committed_ids [] = []
committed_ids ((t, s) ∷ m) =
    let rest = committed_ids m in if is_committed (some s) then t ∷ rest else rest

-- `HashSet::contains`
unfoldable pub contains : List ℕ → ℕ → Bool
contains [] t = false
contains (x ∷ xs) t = x == t || contains xs t

unfoldable pub begin : ℕ → MvccTxnManager → Result ℕ String × MvccTxnManager × ℕ
begin next m = elim m.active [
  | some _ ↦
      (err "a transaction is already active (use SAVEPOINT for nested transactions)", m, next)
  | none ↦ (
    ok next,
    record {
      commit_state = HashMap.insert m.commit_state next in_progress;
      active = some (record { id = next; snapshot = committed_ids m.commit_state });
    },
    (next + 1) % u64_mod,
  )
]

-- The common part of `commit` and `rollback`: take the active transaction and record its state.
unfoldable pub finish : TxnState → MvccTxnManager → Result ℕ String × MvccTxnManager
finish outcome m = elim m.active [
  | none ↦ (err "no active transaction", m)
  | some txn ↦ (
    ok txn.id,
    record { commit_state = HashMap.insert m.commit_state txn.id outcome; active = none },
  )
]

unfoldable pub commit : MvccTxnManager → Result ℕ String × MvccTxnManager
unfolding finish
commit m = finish committed m

unfoldable pub rollback : MvccTxnManager → Result ℕ String × MvccTxnManager
unfolding finish
rollback m = finish aborted m

unfoldable pub is_visible : MvccTxnManager → ℕ → Bool
is_visible m txn_id = elim m.active [
  | none ↦ is_committed (HashMap.get m.commit_state txn_id)
  | some active ↦
      if active.id == txn_id
      then true
      else if is_committed (HashMap.get m.commit_state txn_id)
      then contains active.snapshot txn_id
      else false
]

unfoldable pub active_id : MvccTxnManager → Option ℕ
active_id m = elim m.active [ none ↦ none | some t ↦ some t.id ]

unfoldable pub is_active : MvccTxnManager → Bool
is_active m = elim m.active [ none ↦ false | some _ ↦ true ]

unfoldable pub viewer_id : MvccTxnManager → ℕ
viewer_id m = elim m.active [ none ↦ 0 | some t ↦ t.id ]

unfoldable pub is_row_visible : MvccTxnManager → RowVersion → Bool
unfolding viewer_id
is_row_visible m version = RowVersion.is_visible version (viewer_id m) m.commit_state

unfoldable pub is_not_aborted : TxnState → Bool
is_not_aborted aborted = false
is_not_aborted in_progress = true
is_not_aborted committed = true

unfoldable pub cleanup_aborted : MvccTxnManager → ℕ × MvccTxnManager
cleanup_aborted m =
    let kept = HashMap.retain is_not_aborted m.commit_state in
    (length m.commit_state - length kept, record m { commit_state = kept })

-- The manager of one connection beside the global counter.
pub record Session : Type 0 where
  pub next_txn_id : ℕ
  pub manager : MvccTxnManager

pub data Op : Type 0 where
  do_begin do_commit do_rollback do_cleanup : Op
  -- another connection takes a transaction ID
  other_begin : Op

unfoldable pub step : Session → Op → Session
step s do_begin =
    let (r, m, next) = begin s.next_txn_id s.manager in record { next_txn_id = next; manager = m }
step s do_commit = record s { manager = (commit s.manager).1 }
step s do_rollback = record s { manager = (rollback s.manager).1 }
step s do_cleanup = record s { manager = (cleanup_aborted s.manager).1 }
step s other_begin = record s { next_txn_id = (s.next_txn_id + 1) % u64_mod }

unfoldable pub run : Session → List Op → Session
run s [] = s
run s (op ∷ ops) = run (step s op) ops

-- `NEXT_TXN_ID` starts at 1.
abbrev pub initial : Session
initial = record { next_txn_id = 1; manager = new }
