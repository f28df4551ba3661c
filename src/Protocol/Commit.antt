-- ===== src/Protocol/Commit.antt =====
-- What a commit promises, of both coordinators.
use tensorvault.Prelude.{
  ℕ, ◌+◌, ◌≤◌, ◌<◌, ◌≡◌, refl, true, false, Option, some, List, ◌++◌, arith, Option-cases, inl, inr,
  ap, ◌∙◌, u64_mod, ◌⊎◌,
}
use tensorvault.Prelude.Results.{Result, ok, err}
use tensorvault.Storage.Bytes.{to_le_bytes}
use tensorvault.Storage.Wal.Format.{WalRecord, encode}
use tensorvault.Storage.Wal.Action.{Wal, WalError, continue, ◌>>◌}
use tensorvault.Storage.Wal.Log.{append, sync, simulate_crash}
use tensorvault.Storage.Wal.Log.Contents.{contents}
use tensorvault.Storage.Wal.Log.Writes.{append-Writes, written}
use tensorvault.Storage.Wal.Log.Crash.{sync_durable}
use tensorvault.Protocol.Clock
use tensorvault.Protocol.Clock.{HlcClock, HlcTimestamp, Before}
use tensorvault.Protocol.Clock.Steps.{now_advances}
use tensorvault.Protocol.Cxl
use tensorvault.Protocol.Cxl.{CxlCoordinator, commit_record, with_wal}
use tensorvault.Protocol.Raft
use tensorvault.Protocol.Raft.{RaftCoordinator, RaftError, not_leader, wal_failed, quorum}

-- Two quorums are more than the cluster has, so they share a node; any number n of nodes with that
-- property is at least the quorum.
pub quorum_majority :
    (r : RaftCoordinator) (n : ℕ)
    → r.cluster_size < n + n
    → (r.cluster_size < quorum r + quorum r) × (quorum r ≤ n)
unfolding quorum
quorum_majority r n h = (omega arith, omega arith)

-- The errors of the log, as the Raft coordinator returns them.
abbrev pub as_raft : Result HlcTimestamp WalError → Result HlcTimestamp RaftError
as_raft (ok ts) = ok ts
as_raft (err e) = err (wal_failed e)

module _ (xxh3_64 : List ℕ → ℕ) where
  after_append :
      (result : Result (Unit {0}) WalError) (w : Wal) (before bytes : List ℕ)
      → (result ≡ ok tt → contents w ≡ before ++ written result bytes)
      → (continue result (λ _. sync) w).0 ≡ ok tt
      → simulate_crash (continue result (λ _. sync) w).1 ≡ before ++ bytes
  after_append (ok tt) w before bytes c h = sync_durable w h ∙ c refl
  after_append (err e) w before bytes c h = cc

  -- When the log accepts a commit record and its sync, the record is on disk behind the old bytes.
  append-sync_durable :
      (r : WalRecord) (w : Wal)
      → ((append xxh3_64 r >> sync) w).0 ≡ ok tt
      → simulate_crash ((append xxh3_64 r >> sync) w).1 ≡ contents w ++ encode xxh3_64 r
  append-sync_durable r w h =
      after_append (append xxh3_64 r w).0 (append xxh3_64 r w).1 (contents w) (encode xxh3_64 r)
        (λ e. append-Writes xxh3_64 r w (inr e)) h

  -- A commit that succeeds without CXL hardware has its record on disk behind the bytes that the
  -- log had. The record has the ID of the transaction, the type 0 of a commit, and as its payload
  -- the eight bytes of the physical time of the timestamp that the commit returns.
  pub cxl_commit_durable :
      (reading : Option ℕ) (txn_id : ℕ) (c : CxlCoordinator) (w : Wal) (ts : HlcTimestamp)
      → c.available ≡ false
      → c.wal ≡ some w
      → (Cxl.commit xxh3_64 reading txn_id c).0 ≡ ok ts
      → (v : Wal) × ((Cxl.commit xxh3_64 reading txn_id c).1.wal ≡ some v)
        × (simulate_crash v
            ≡ contents w
              ++ encode xxh3_64 (record {
                txn_id = txn_id;
                record_type = 0;
                payload = to_le_bytes 8 ts.physical_ns;
              }))
  unfolding Cxl.commit with_wal commit_record
  cxl_commit_durable reading txn_id c w ts a e h =
      let t = (Clock.now reading c.clock).0 in
      let m = append xxh3_64 (commit_record txn_id t) >> sync in
      (
        (m w).1,
        ground (arith, e),
        ground (arith, e, append-sync_durable (commit_record txn_id t) w),
      )

  two_calls :
      (ts : HlcTimestamp) (result : Result (Unit {0}) WalError) (w : Wal)
      → Raft.appended ts (result, some w) ≡ (
        as_raft (Cxl.returning ts (continue result (λ _. sync) w).0),
        some (continue result (λ _. sync) w).1,
      )
  unfolding with_wal
  two_calls ts (ok tt) w = ground arith
  two_calls ts (err e) w = refl

  -- A Raft leader and a CXL coordinator without the hardware, over the same clock and the same log,
  -- commit a transaction alike: the same timestamp or the same error of the log, the same clock and
  -- the same log afterwards.
  pub raft_commits_as_cxl :
      (reading : Option ℕ) (txn_id : ℕ) (c : CxlCoordinator) (r : RaftCoordinator)
      → c.available ≡ false
      → r.is_leader ≡ true
      → r.clock ≡ c.clock
      → r.wal ≡ c.wal
      → ((Raft.commit xxh3_64 reading txn_id r).0 ≡ as_raft (Cxl.commit xxh3_64 reading txn_id c).0)
        × ((Raft.commit xxh3_64 reading txn_id r).1.clock
            ≡ (Cxl.commit xxh3_64 reading txn_id c).1.clock)
        × ((Raft.commit xxh3_64 reading txn_id r).1.wal
            ≡ (Cxl.commit xxh3_64 reading txn_id c).1.wal)
  unfolding Raft.commit Cxl.commit with_wal
  raft_commits_as_cxl reading txn_id c r a l clocks wals = elim (Option-cases c.wal) [
    | inl e ↦ ground (arith, e)
    | inr (w, e) ↦
        let ts = (Clock.now reading c.clock).0 in
        let rec = commit_record txn_id ts in
        ground (arith, e, two_calls ts (append xxh3_64 rec w).0 (append xxh3_64 rec w).1)
  ]

  -- A commit on a follower fails with its node and transaction, and changes nothing.
  follower_commit :
      (reading : Option ℕ) (txn_id : ℕ) (r : RaftCoordinator)
      → r.is_leader ≡ false
      → Raft.commit xxh3_64 reading txn_id r ≡ (err (not_leader r.node_id txn_id), r)
  unfolding Raft.commit
  follower_commit reading txn_id r h = ground arith

  after_sync :
      (ts : HlcTimestamp) (result : Result (Unit {0}) WalError) (wal : Option Wal)
      → ((Raft.synced ts (result, wal)).0 ≡ ok ts)
        ⊎ ((e : WalError) × ((Raft.synced ts (result, wal)).0 ≡ err (wal_failed e)))
  after_sync ts (ok a) wal = inl refl
  after_sync ts (err e) wal = inr (e, refl)

  after_log :
      (ts : HlcTimestamp) (result : Result (Unit {0}) WalError) (wal : Option Wal)
      → ((Raft.appended ts (result, wal)).0 ≡ ok ts)
        ⊎ ((e : WalError) × ((Raft.appended ts (result, wal)).0 ≡ err (wal_failed e)))
  after_log ts (ok a) wal = after_sync ts (with_wal sync wal).0 (with_wal sync wal).1
  after_log ts (err e) wal = inr (e, refl)

  -- While the logical counter is not at its end, every commit of a leader, one that fails in the
  -- log too, moves the clock forward, and returns the clock's new timestamp or an error of the log.
  pub leader_commit_advances :
      (reading : Option ℕ) (txn_id : ℕ) (r : RaftCoordinator)
      → r.is_leader ≡ true
      → r.clock.last.logical + 1 < u64_mod
      → Before r.clock.last (Raft.commit xxh3_64 reading txn_id r).1.clock.last
        × (((Raft.commit xxh3_64 reading txn_id r).0
              ≡ ok (Raft.commit xxh3_64 reading txn_id r).1.clock.last)
            ⊎ ((e : WalError) × ((Raft.commit xxh3_64 reading txn_id r).0 ≡ err (wal_failed e))))
  leader_commit_advances reading txn_id r l h =
      let ts = (Clock.now reading r.clock).0 in
      let logged = with_wal (append xxh3_64 (commit_record txn_id ts)) r.wal in
      let (later, kept, physical) = now_advances r.clock reading h in
      let clock : (Raft.commit xxh3_64 reading txn_id r).1.clock ≡ (Clock.now reading r.clock).1 =
        unfold Raft.commit in ground arith in
      let last : (Raft.commit xxh3_64 reading txn_id r).1.clock.last ≡ ts =
        ap (λ (c : HlcClock). c.last) clock ∙ kept in
      let result : (Raft.commit xxh3_64 reading txn_id r).0 ≡ (Raft.appended ts logged).0 =
        unfold Raft.commit with_wal in ground arith in
      rw (last, result) (later, after_log ts logged.0 logged.1)
