-- ===== src/Protocol/Raft.antt =====
-- src/protocol/raft.rs: the cross-rack coordinator with its simulated replication, which only logs
-- a message. The reading of the system clock is an argument.
use tensorvault.Prelude.{ℕ, ◌+◌, ◌/◌, Bool, true, false, if◌then◌else◌, Option, List}
use tensorvault.Prelude.Results.{Result, ok, err}
use tensorvault.Storage.Wal.Action.{Wal, WalError}
use tensorvault.Storage.Wal.Log.{append, sync}
use tensorvault.Protocol.Clock
use tensorvault.Protocol.Clock.{HlcClock, HlcTimestamp}
use tensorvault.Protocol.Cxl.{commit_record, with_wal}

pub record RaftCoordinator : Type 0 where
  pub cluster_size : ℕ
  pub node_id : ℕ
  pub clock : HlcClock
  pub wal : Option Wal
  pub is_leader : Bool

-- `Error::Protocol` with what its message says, or the error of the log.
pub data RaftError : Type 0 where
  not_leader : ℕ → ℕ → RaftError
  wal_failed : WalError → RaftError

unfoldable pub new : ℕ → ℕ → Option Wal → RaftCoordinator
new cluster_size node_id wal = record {
  cluster_size = cluster_size;
  node_id = node_id;
  clock = Clock.new;
  wal = wal;
  is_leader = false;
}

unfoldable pub new_as_leader : ℕ → ℕ → Option Wal → RaftCoordinator
unfolding new
new_as_leader cluster_size node_id wal = record (new cluster_size node_id wal) { is_leader = true }

unfoldable pub quorum : RaftCoordinator → ℕ
quorum r = r.cluster_size / 2 + 1

unfoldable pub become_leader : RaftCoordinator → RaftCoordinator
become_leader r = record r { is_leader = true }

unfoldable pub become_follower : RaftCoordinator → RaftCoordinator
become_follower r = record r { is_leader = false }

abbrev pub synced :
    HlcTimestamp
    → Result (Unit {0}) WalError × Option Wal
    → Result HlcTimestamp RaftError × Option Wal
synced ts (ok _, wal) = (ok ts, wal)
synced ts (err e, wal) = (err (wal_failed e), wal)

-- The append failed, or the log is synced next.
abbrev pub appended :
    HlcTimestamp
    → Result (Unit {0}) WalError × Option Wal
    → Result HlcTimestamp RaftError × Option Wal
appended ts (ok _, wal) = synced ts (with_wal sync wal)
appended ts (err e, wal) = (err (wal_failed e), wal)

module _ (xxh3_64 : List ℕ → ℕ) where
  unfoldable pub commit :
      Option ℕ → ℕ → RaftCoordinator → Result HlcTimestamp RaftError × RaftCoordinator
  unfolding with_wal
  commit reading txn_id r =
      let (ts, clock) = Clock.now reading r.clock in
      let (result, wal) = appended ts (with_wal (append xxh3_64 (commit_record txn_id ts)) r.wal) in
      if r.is_leader
      then (result, record r { clock = clock; wal = wal })
      else (err (not_leader r.node_id txn_id), r)
