-- ===== src/Engine/Replay/Fold.antt =====
-- Replay of a longer log, and under another set of committed transactions.
use Prim.Native.String.{String}
use tensorvault.Prelude.{
  ℕ, ◌<◌, ◌≤◌, ◌==◌, ◌≡◌, refl, Bool, false, ◌||◌, Option, none, some, List, [], ◌∷◌, ◌++◌, arith,
}
use tensorvault.Prelude.Forall.{All, All-append}
use tensorvault.Storage.Recovery.{WalRecord, PhysicalChange}
use tensorvault.Engine.Replay.{committed_txns, contains, replay_record, replay_records, and_then}

pub committed_txns-append :
    (rs ts : List WalRecord) → committed_txns (rs ++ ts) ≡ committed_txns rs ++ committed_txns ts
unfolding committed_txns
committed_txns-append [] ts = refl
committed_txns-append (r ∷ rs) ts = ground (arith, committed_txns-append rs ts)

pub contains-append_one :
    (xs : List ℕ) (t n : ℕ) → contains (xs ++ t ∷ []) n ≡ (t == n || contains xs n)
unfolding contains
contains-append_one [] t n = ground arith
contains-append_one (x ∷ xs) t n = ground (arith, contains-append_one xs t n)

-- No record of a transaction from `n` on.
abbrev pub IdsBelow : ℕ → List WalRecord → Type 0
IdsBelow n rs = All (λ r. r.txn_id < n) rs

pub contains-committed_txns :
    (rs : List WalRecord) (n t : ℕ) → IdsBelow n rs → n ≤ t → contains (committed_txns rs) t ≡ false
unfolding contains committed_txns
contains-committed_txns [] n t h l = refl
contains-committed_txns (r ∷ rs) n t h l = ground (arith, contains-committed_txns rs n t h.1)

and_then-append :
    {C : Type 0} (o : Option C) (f g h : C → Option C)
    → ((c : C) → f c ≡ and_then (g c) h)
    → and_then o f ≡ and_then (and_then o g) h
and_then-append none f g h e = refl
and_then-append (some c) f g h e = e c

-- The two sets agree on the transactions of the records.
abbrev pub SameOn : (ℕ → Bool) → (ℕ → Bool) → List WalRecord → Type 0
SameOn k l rs = All (λ r. k r.txn_id ≡ l r.txn_id) rs

pub SameOn-new :
    (k : ℕ → Bool) (n t : ℕ) (rs : List WalRecord)
    → IdsBelow n rs
    → n ≤ t
    → SameOn (λ i. t == i || k i) k rs
SameOn-new k n t [] h l = tt
SameOn-new k n t (r ∷ rs) h l = (ground arith, SameOn-new k n t rs h.1 l)

pub IdsBelow-weaken : (n m : ℕ) (rs : List WalRecord) → n ≤ m → IdsBelow n rs → IdsBelow m rs
IdsBelow-weaken n m [] l h = tt
IdsBelow-weaken n m (r ∷ rs) l h = (omega arith, IdsBelow-weaken n m rs l h.1)

pub IdsBelow-append :
    (n m : ℕ) (rs : List WalRecord) (r : WalRecord)
    → n ≤ m
    → IdsBelow n rs
    → r.txn_id < m
    → IdsBelow m (rs ++ r ∷ [])
IdsBelow-append n m rs r l h k =
    All-append (λ (q : WalRecord). q.txn_id < m) rs (r ∷ []) (IdsBelow-weaken n m rs l h) (k, tt)

module _ {C : Type 0} (execute_sql : String → C → Option C)
    (apply_physical_change : PhysicalChange → C → Option C) where
  pub replay_records-append :
      (k : ℕ → Bool) (rs : List WalRecord) (r : WalRecord) (c : C)
      → replay_records execute_sql apply_physical_change k (rs ++ r ∷ []) c
        ≡ and_then
            (replay_records execute_sql apply_physical_change k rs c)
            (replay_record execute_sql apply_physical_change k r)
  unfolding replay_records
  replay_records-append k [] r c = ground arith
  replay_records-append k (q ∷ rs) r c =
      and_then-append (replay_record execute_sql apply_physical_change k q c)
        (replay_records execute_sql apply_physical_change k (rs ++ r ∷ []))
        (replay_records execute_sql apply_physical_change k rs)
        (replay_record execute_sql apply_physical_change k r) (replay_records-append k rs r)

  replay_record_same :
      (k l : ℕ → Bool) (r : WalRecord) (c : C)
      → k r.txn_id ≡ l r.txn_id
      → replay_record execute_sql apply_physical_change k r c
        ≡ replay_record execute_sql apply_physical_change l r c
  unfolding replay_record
  replay_record_same k l r c h = rw h

  and_then_same :
      (o : Option C) (f g : C → Option C) → ((c : C) → f c ≡ g c) → and_then o f ≡ and_then o g
  and_then_same none f g h = refl
  and_then_same (some c) f g h = h c

  pub replay_records_same :
      (k l : ℕ → Bool) (rs : List WalRecord) (c : C)
      → SameOn k l rs
      → replay_records execute_sql apply_physical_change k rs c
        ≡ replay_records execute_sql apply_physical_change l rs c
  unfolding replay_records
  replay_records_same k l [] c h = refl
  replay_records_same k l (r ∷ rs) c h = rw (replay_record_same k l r c h.0) (
      and_then_same (replay_record execute_sql apply_physical_change l r c)
        (replay_records execute_sql apply_physical_change k rs)
        (replay_records execute_sql apply_physical_change l rs)
        (λ d. replay_records_same k l rs d h.1))
