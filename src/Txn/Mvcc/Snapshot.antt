-- ===== src/Txn/Mvcc/Snapshot.antt =====
-- `committed_ids` is the set of the committed transactions.
use tensorvault.Prelude.{ℕ, ◌≡◌, refl, [], ◌∷◌, arith}
use tensorvault.Prelude.HashMap
use tensorvault.Prelude.HashMap.{HashMap, IsMap, get-retain, get-insert, insert-IsMap, retain-IsMap}
use tensorvault.Prelude.Eq.{nat_eq}
use tensorvault.Txn.RowVersion.{TxnState, committed, in_progress, aborted, is_committed}
use tensorvault.Txn.Mvcc.{committed_ids, contains, is_not_aborted}

pub contains-committed_ids :
    (m : HashMap ℕ TxnState) (t : ℕ)
    → IsMap m
    → contains (committed_ids m) t ≡ is_committed (HashMap.get m t)
unfolding contains committed_ids HashMap.get is_committed
contains-committed_ids [] t h = refl
contains-committed_ids ((j, in_progress) ∷ m) t h = ground (arith, contains-committed_ids m t h.1)
contains-committed_ids ((j, committed) ∷ m) t h = ground (arith, contains-committed_ids m t h.1)
contains-committed_ids ((j, aborted) ∷ m) t h = ground (arith, contains-committed_ids m t h.1)

-- Forgetting the aborted transactions changes no answer about commitment.
pub is_committed-retain :
    (m : HashMap ℕ TxnState) (t : ℕ)
    → IsMap m
    → is_committed (HashMap.get (HashMap.retain is_not_aborted m) t)
      ≡ is_committed (HashMap.get m t)
unfolding is_committed is_not_aborted
is_committed-retain m t h = ground (arith, get-retain is_not_aborted m t h)
