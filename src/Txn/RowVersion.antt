-- ===== src/Txn/RowVersion.antt =====
-- src/txn/mvcc.rs: `TxnState`, `RowVersion` and its methods.
use tensorvault.Prelude.{ℕ, ◌==◌, if◌then◌else◌, Bool, true, false, not, ◌||◌, Option, none, some}
use tensorvault.Prelude.HashMap
use tensorvault.Prelude.HashMap.{HashMap}
use tensorvault.Prelude.Eq.{nat_eq}

pub data TxnState : Type 0 where
  in_progress committed aborted : TxnState

pub record RowVersion : Type 0 where
  pub xmin : ℕ
  pub xmax : ℕ

unfoldable pub new : ℕ → RowVersion
new txn_id = record { xmin = txn_id; xmax = 0 }

unfoldable pub delete : RowVersion → ℕ → RowVersion
delete v txn_id = record v { xmax = txn_id }

-- `state == TxnState::Committed` on `unwrap_or(InProgress)`
unfoldable pub is_committed : Option TxnState → Bool
is_committed none = false
is_committed (some TxnState.committed) = true
is_committed (some TxnState.in_progress) = false
is_committed (some TxnState.aborted) = false

unfoldable pub is_visible : RowVersion → ℕ → HashMap ℕ TxnState → Bool
is_visible v viewer commit_state =
    let xmin_visible = v.xmin == viewer || is_committed (HashMap.get commit_state v.xmin) in
    let xmax_visible = v.xmax == viewer || is_committed (HashMap.get commit_state v.xmax) in
    if not xmin_visible then false else if v.xmax == 0 then true else not xmax_visible
