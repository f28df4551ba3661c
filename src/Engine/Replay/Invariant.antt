-- ===== src/Engine/Replay/Invariant.antt =====
-- What the durability of an engine state means, and one more record at the end of the log.
use Prim.Native.String.{String}
use text.Mathlib.TextEquality.{eq_iff}
use mathlib.Core.List.{append-nil}
use tensorvault.Prelude.{
  ℕ, ◌<◌, ◌==◌, ◌≡◌, refl, ap, ◌∙◌, Bool, true, false, ◌||◌, Option, none, some, List, [], ◌∷◌,
  ◌++◌, arith,
}
use mathlib.Core.Path.{fun_ext}
use tensorvault.Prelude.Forall.{All}
use tensorvault.Storage.Recovery
use tensorvault.Storage.Recovery.{WalRecord, PhysicalChange}
use tensorvault.Txn.Manager.{Transaction}
use tensorvault.Engine.Session.{QueryEngine, left}
use tensorvault.Engine.Replay.{committed_txns, contains, replay_record, replay_records, replay_wal}
use tensorvault.Engine.Replay.Fold.{
  committed_txns-append, contains-append_one, IdsBelow, replay_records-append,
}

committed_txns_other : (r : WalRecord) → r.is_commit ≡ false → committed_txns (r ∷ []) ≡ []
unfolding committed_txns
committed_txns_other r h = ground arith

committed_txns-commit : (t : ℕ) → 0 < t → committed_txns (Recovery.commit t ∷ []) ≡ t ∷ []
unfolding committed_txns Recovery.commit
committed_txns-commit t h = ground arith

pub committed_txns-append_other :
    (rs : List WalRecord) (r : WalRecord)
    → r.is_commit ≡ false
    → committed_txns (rs ++ r ∷ []) ≡ committed_txns rs
committed_txns-append_other rs r h =
    committed_txns-append rs (r ∷ [])
    ∙ (ap (λ (t : List ℕ). committed_txns rs ++ t) (committed_txns_other r h)
        ∙ append-nil (committed_txns rs))

-- No write of the log fails.
abbrev pub AllSucceed : List Bool → Type 0
AllSucceed answers = All (λ b. b ≡ true) answers

pub AllSucceed-left : (answers : List Bool) → AllSucceed answers → AllSucceed (left answers)
AllSucceed-left [] h = h
AllSucceed-left (b ∷ answers) h = h.1

module _ {C : Type 0} (execute_sql : String → C → Option C)
    (apply_physical_change : PhysicalChange → C → Option C) (start : C) where
  abbrev pub with_active : ℕ → List WalRecord → ℕ → Bool
  with_active t wal i = t == i || contains (committed_txns wal) i

  abbrev pub IsPending : ℕ → List WalRecord → Option (Transaction C) → Type 0
  IsPending next wal none = Unit
  IsPending next wal (some t) =
      (0 < t.id)
      × (t.id < next)
      × (contains (committed_txns wal) t.id ≡ false)
      × (replay_records execute_sql apply_physical_change (with_active t.id wal) wal start
          ≡ some t.snapshot)

  -- The log replays to the catalog, and with the active transaction committed to its snapshot.
  pub record IsDurable (e : QueryEngine C) : Type 0 where
    pub positive : 0 < e.txn_manager.next_id
    pub below : IdsBelow e.txn_manager.next_id e.wal
    pub settled : replay_wal execute_sql apply_physical_change e.wal start ≡ some e.catalog
    pub accepted : AllSucceed e.answers
    pub pending : IsPending e.txn_manager.next_id e.wal e.txn_manager.active

  -- A marker is passed over.
  pub replay_marker :
      (k : ℕ → Bool) (r : WalRecord) (c : C)
      → r.sql ≡ ""
      → r.physical_change ≡ none
      → replay_record execute_sql apply_physical_change k r c ≡ some c
  unfolding replay_record
  replay_marker k r c s p = ground (arith, eq_iff r.sql "")

  -- Another record than a commit at the end of the log.
  pub replay_wal-append :
      (rs : List WalRecord) (r : WalRecord) (c : C)
      → r.is_commit ≡ false
      → replay_wal execute_sql apply_physical_change rs start ≡ some c
      → replay_wal execute_sql apply_physical_change (rs ++ r ∷ []) start
        ≡ replay_record execute_sql apply_physical_change (contains (committed_txns rs)) r c
  unfolding replay_wal
  replay_wal-append rs r c h e = rw (committed_txns-append_other rs r h) (
      replay_records-append execute_sql apply_physical_change (contains (committed_txns rs)) rs r
        start
      ∙ rw e)

  pub pending-append :
      (t : ℕ) (rs : List WalRecord) (r : WalRecord) (c : C)
      → r.is_commit ≡ false
      → replay_records execute_sql apply_physical_change (with_active t rs) rs start ≡ some c
      → replay_records execute_sql apply_physical_change
          (with_active t (rs ++ r ∷ []))
          (rs ++ r ∷ [])
          start
        ≡ replay_record execute_sql apply_physical_change (with_active t rs) r c
  pending-append t rs r c h e =
      ap
        (λ (l : List ℕ).
          replay_records execute_sql apply_physical_change (λ i. t == i || contains l i)
            (rs ++ r ∷ []) start)
        (committed_txns-append_other rs r h)
      ∙ (replay_records-append execute_sql apply_physical_change (with_active t rs) rs r start
          ∙ rw e)

  -- A commit record makes the pending replay the settled one.
  pub replay_wal-commit :
      (rs : List WalRecord) (t : ℕ) (c : C)
      → 0 < t
      → replay_records execute_sql apply_physical_change (with_active t rs) rs start ≡ some c
      → replay_wal execute_sql apply_physical_change (rs ++ Recovery.commit t ∷ []) start ≡ some c
  unfolding replay_wal
  replay_wal-commit rs t c p e =
      let k : contains (committed_txns (rs ++ Recovery.commit t ∷ [])) ≡ with_active t rs =
        fun_ext λ i. rw (committed_txns-append rs (Recovery.commit t ∷ [])) (
          ap (λ (l : List ℕ). contains (committed_txns rs ++ l) i) (committed_txns-commit t p)
          ∙ contains-append_one (committed_txns rs) t i) in
      rw k (
        replay_records-append execute_sql apply_physical_change (with_active t rs) rs
          (Recovery.commit t) start
        ∙ (rw e (
            replay_marker (with_active t rs) (Recovery.commit t) c (unfold Recovery.commit in refl)
              (unfold Recovery.commit in refl))))
