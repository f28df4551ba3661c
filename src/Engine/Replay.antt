-- ===== src/Engine/Replay.antt =====
-- src/engine/mod.rs: `replay_wal` of the engine. `apply_physical_change` is an argument, none for
-- its error, on which the replay stops. A failed statement is passed over.
mod Fold
mod Invariant
mod Durability
mod Statements
mod Inner
pub mod Sessions
pub mod Reuse
use Prim.Native.String.{String}
use text.Mathlib.Text.{◌==◌ as str_eq}
use tensorvault.Prelude.{
  ℕ, ◌==◌, if◌then◌else◌, Bool, true, false, not, ◌&&◌, ◌||◌, Option, none, some, List, [], ◌∷◌,
}
use tensorvault.Storage.Recovery.{WalRecord, PhysicalChange}

-- The IDs with a commit record, autocommit apart.
unfoldable pub committed_txns : List WalRecord → List ℕ
committed_txns [] = []
committed_txns (r ∷ rs) =
    let rest = committed_txns rs in
    if r.is_commit && not (r.txn_id == 0) then r.txn_id ∷ rest else rest

unfoldable pub contains : List ℕ → ℕ → Bool
contains [] n = false
contains (x ∷ xs) n = x == n || contains xs n

abbrev pub and_then : {C : Type 0} → Option C → (C → Option C) → Option C
and_then none f = none
and_then (some c) f = f c

module _ {C : Type 0} (execute_sql : String → C → Option C)
    (apply_physical_change : PhysicalChange → C → Option C) where
  unfoldable pub execute_or_keep : String → C → C
  execute_or_keep sql c = elim (execute_sql sql c) [ none ↦ c | some c' ↦ c' ]

  -- One round of the loop.
  unfoldable pub replay_record : (ℕ → Bool) → WalRecord → C → Option C
  unfolding execute_or_keep
  replay_record is_committed r c =
      if r.is_rollback
      then some c
      else if not (r.txn_id == 0) && not (is_committed r.txn_id)
      then some c
      else if str_eq r.sql ""
      then elim r.physical_change [ none ↦ some c | some change ↦ apply_physical_change change c ]
      else some (execute_or_keep r.sql c)

  unfoldable pub replay_records : (ℕ → Bool) → List WalRecord → C → Option C
  unfolding replay_record
  replay_records is_committed [] c = some c
  replay_records is_committed (r ∷ rs) c =
      and_then (replay_record is_committed r c) (replay_records is_committed rs)

  -- The catalog that a new process starts from, or none when the replay stops with an error.
  unfoldable pub replay_wal : List WalRecord → C → Option C
  unfolding replay_records committed_txns contains
  replay_wal records c = replay_records (contains (committed_txns records)) records c
