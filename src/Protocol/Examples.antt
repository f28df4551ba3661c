-- ===== src/Protocol/Examples.antt =====
-- Commits over a small log, under a small hash.
use tensorvault.Prelude.{ℕ, ◌≡◌, refl, false, some, List, [], ◌++◌, length}
use tensorvault.Prelude.Results.{ok}
use tensorvault.Storage.Bytes.{to_le_bytes}
use tensorvault.Storage.Wal.Format.{encode, body}
use tensorvault.Storage.Wal.Action.{Wal, device}
use tensorvault.Storage.Wal.Log.{open_log, append, simulate_crash}
use tensorvault.Storage.Wal.Log.Contents.{contents}
use tensorvault.Protocol.Clock
use tensorvault.Protocol.Clock.{HlcTimestamp, Before, now, physical_now}
use tensorvault.Protocol.Cxl
use tensorvault.Protocol.Cxl.{CxlCoordinator, commit_record, with_wal}
use tensorvault.Protocol.Raft
use tensorvault.Protocol.Raft.{RaftCoordinator, quorum, wal_failed}
use tensorvault.Protocol.Commit.{cxl_commit_durable, as_raft, raft_commits_as_cxl}

abbrev length_hash : List ℕ → ℕ
length_hash bs = length bs

abbrev fresh_log : Wal
fresh_log = open_log false [] []

abbrev coordinator : CxlCoordinator
coordinator = Cxl.new false (some fresh_log)

abbrev leader : RaftCoordinator
leader = Raft.new_as_leader 5 2 (some fresh_log)

abbrev at : HlcTimestamp
at = record { physical_ns = 90; logical = 0 }

commits : (Cxl.commit length_hash (some 90) 7 coordinator).0 ≡ ok at
unfolding Cxl.commit Cxl.new append open_log to_le_bytes body commit_record device now Clock.new
    physical_now
commits = refl

cxl_commit_durable_example :
    (v : Wal) × ((Cxl.commit length_hash (some 90) 7 coordinator).1.wal ≡ some v)
    × (simulate_crash v
        ≡ []
          ++ encode length_hash
              (record { txn_id = 7; record_type = 0; payload = to_le_bytes 8 at.physical_ns }))
unfolding Cxl.new encode contents open_log
cxl_commit_durable_example =
    cxl_commit_durable length_hash (some 90) 7 coordinator fresh_log at refl refl commits

raft_commits_as_cxl_example :
    ((Raft.commit length_hash (some 90) 7 leader).0
      ≡ as_raft (Cxl.commit length_hash (some 90) 7 coordinator).0)
    × ((Raft.commit length_hash (some 90) 7 leader).1.clock
        ≡ (Cxl.commit length_hash (some 90) 7 coordinator).1.clock)
    × ((Raft.commit length_hash (some 90) 7 leader).1.wal
        ≡ (Cxl.commit length_hash (some 90) 7 coordinator).1.wal)
unfolding Raft.new_as_leader Cxl.new
raft_commits_as_cxl_example =
    raft_commits_as_cxl length_hash (some 90) 7 coordinator leader refl refl refl refl
