-- ===== src/Txn/Manager.antt =====
-- src/txn/mod.rs: the deep-clone transaction manager, over a type of catalogs and `clone_catalog`.
use Prim.Native.String.{String}
use tensorvault.Prelude.{ℕ, ◌+◌, ◌%◌, u64_mod, Bool, true, false, Option, none, some}
use tensorvault.Prelude.Results.{Result, ok, err}

pub record Transaction (C : Type 0) : Type 0 where
  pub id : ℕ
  pub snapshot : C
  pub active : Bool

pub record TxnManager (C : Type 0) : Type 0 where
  pub next_id : ℕ
  pub active : Option (Transaction C)

module _ {C : Type 0} where
  unfoldable pub new : TxnManager C
  new = record { next_id = 1; active = none }

  unfoldable pub begin : (C → C) → C → TxnManager C → Result ℕ String × TxnManager C
  begin clone_catalog catalog m = elim m.active [
    | some _ ↦ (err "a transaction is already active (nested transactions not supported)", m)
    | none ↦ (
      ok m.next_id,
      record {
        next_id = (m.next_id + 1) % u64_mod;
        active = some (record { id = m.next_id; snapshot = clone_catalog catalog; active = true });
      },
    )
  ]

  unfoldable pub commit : TxnManager C → Result C String × TxnManager C
  commit m = elim m.active [
    | none ↦ (err "no active transaction to commit", m)
    | some txn ↦ (ok txn.snapshot, record m { active = none })
  ]

  unfoldable pub rollback : TxnManager C → Result (Unit {0}) String × TxnManager C
  rollback m = elim m.active [
    | none ↦ (err "no active transaction to rollback", m)
    | some txn ↦ (ok tt, record m { active = none })
  ]

  unfoldable pub is_active : TxnManager C → Bool
  is_active m = elim m.active [ none ↦ false | some _ ↦ true ]
