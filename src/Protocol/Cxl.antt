-- ===== src/Protocol/Cxl.antt =====
-- src/protocol/cxl.rs: the single-rack coordinator. Whether `/sys/bus/cxl/` is there, and the
-- reading of the system clock, are arguments. The log, an `Arc<Wal>` in the source, has no other
-- user during a commit.
use tensorvault.Prelude.{ℕ, Bool, if◌then◌else◌, Option, none, some, List}
use tensorvault.Prelude.Results.{Result, ok, err}
use tensorvault.Storage.Bytes.{to_le_bytes}
use tensorvault.Storage.Wal.Format.{WalRecord}
use tensorvault.Storage.Wal.Action.{Wal, WalError, Action, ◌>>◌}
use tensorvault.Storage.Wal.Log.{append, sync}
use tensorvault.Protocol.Clock
use tensorvault.Protocol.Clock.{HlcClock, HlcTimestamp}

-- The tiers of src/memory/tier.rs.
pub data MemoryTier : Type 0 where
  l1_l2 l3 ddr5 hbm cxl nvme nvme_of network : MemoryTier

pub record CxlCoordinator : Type 0 where
  pub available : Bool
  pub clock : HlcClock
  pub wal : Option Wal

unfoldable pub new : Bool → Option Wal → CxlCoordinator
new cxl_available wal = record { available = cxl_available; clock = Clock.new; wal = wal }

unfoldable pub commit_tier : CxlCoordinator → MemoryTier
commit_tier c =
    if c.available
    then MemoryTier.cxl
    else elim c.wal [ some _ ↦ MemoryTier.nvme | none ↦ MemoryTier.ddr5 ]

-- `WAL_RECORD_TYPE_COMMIT` is 0; the payload is the physical time.
unfoldable pub commit_record : ℕ → HlcTimestamp → WalRecord
commit_record txn_id ts = record {
  txn_id = txn_id;
  record_type = 0;
  payload = to_le_bytes 8 ts.physical_ns;
}

-- A call of the log, if there is one, with `?` on what it returns.
unfoldable pub with_wal : Action (Unit {0}) → Option Wal → Result (Unit {0}) WalError × Option Wal
with_wal m wal = elim wal [ none ↦ (ok tt, none) | some w ↦ ((m w).0, some (m w).1) ]

abbrev pub returning : HlcTimestamp → Result (Unit {0}) WalError → Result HlcTimestamp WalError
returning ts (ok _) = ok ts
returning ts (err e) = err e

module _ (xxh3_64 : List ℕ → ℕ) where
  unfoldable pub commit :
      Option ℕ → ℕ → CxlCoordinator → Result HlcTimestamp WalError × CxlCoordinator
  unfolding with_wal
  commit reading txn_id c =
      let (ts, clock) = Clock.now reading c.clock in
      let (result, wal) = with_wal (append xxh3_64 (commit_record txn_id ts) >> sync) c.wal in
      if c.available
      then (ok ts, record c { clock = clock })
      else (returning ts result, record c { clock = clock; wal = wal })
