-- ===== src/Storage/BufferPool/Syncs.antt =====
-- `flush_all` and the entries of the page table.
use mathlib.Core.Path.{subst}
use tensorvault.Prelude.{
  ℕ, ◌≡◌, refl, sym, ap, ◌∙◌, false, Bool-cases, Option-cases, inl, inr, if◌then◌else◌, none, some,
  [], ◌∷◌, arith,
}
use tensorvault.Prelude.Results.{Result, ok, err}
use tensorvault.Prelude.Forall.{All, All-imp}
use tensorvault.Prelude.HashMap
use tensorvault.Prelude.HashMap.{HashMap}
use tensorvault.Storage.BufferPool.{
  PageId, page_id_eq, BufferPool, PoolError, flush_frame, flush_entries, flush_all,
}
use tensorvault.Storage.BufferPool.Coherence.{
  look, cached, table, IsPool, current, not_none, same_id,
}
use tensorvault.Storage.BufferPool.Flushes.{IsKept, IsFlushed, same-IsKept, flush_frame-IsFlushed}

-- The entries of a map are what `get` finds.
found_behind :
    (j k : PageId) (v i : ℕ) (m : HashMap PageId ℕ)
    → HashMap.get m j ≡ none
    → HashMap.get m k ≡ some i
    → HashMap.get ((j, v) ∷ m) k ≡ some i
unfolding HashMap.get
found_behind j k v i m n h = elim (Bool-cases (page_id_eq.beq j k)) [
  | inl b ↦ absurd (not_none (ap (HashMap.get m) (same_id j k b) ∙ h) n)
  | inr b ↦ rw b h
]

found_first : (j : PageId) (v : ℕ) (m : HashMap PageId ℕ) → HashMap.get ((j, v) ∷ m) j ≡ some v
unfolding HashMap.get
found_first j v m = rw ((page_id_eq.beq_iff j j).1 refl) refl

entries_found :
    (m : HashMap PageId ℕ)
    → HashMap.IsMap m
    → All (λ (x : PageId × ℕ). HashMap.get m x.0 ≡ some x.1) m
entries_found [] h = tt
entries_found ((j, v) ∷ m) h =
    (found_first j v m, All-imp (λ x k. found_behind j x.0 v x.1 m h.0 k) m (entries_found m h.1))

-- A key that is found has an entry.
found_entry :
    (C : PageId → Type 0) (m : HashMap PageId ℕ) (q : PageId) (i : ℕ)
    → All (λ (x : PageId × ℕ). C x.0) m
    → HashMap.get m q ≡ some i
    → C q
unfolding HashMap.get
found_entry C [] q i a h = ground (arith, h)
found_entry C ((j, v) ∷ m) q i a h = elim (Bool-cases (page_id_eq.beq j q)) [
  | inl b ↦ subst C (same_id j q b) a.0
  | inr b ↦ found_entry C m q i a.1 (sym (unfound b) ∙ h)
]
  where
    unfound :
        page_id_eq.beq j q ≡ false
        → (if page_id_eq.beq j q then some v else HashMap.get m q) ≡ HashMap.get m q
    unfound n = rw n refl

module _ {P : Type 0} where
  IsKept-trans : (p v x : BufferPool P) → IsKept p v → IsKept v x → IsKept p x
  unfolding IsKept
  IsKept-trans p v x h g =
      (g.0, g.1 ∙ h.1, λ q. g.2 q ∙ h.2 q, λ q k. g.3 q (h.3 q k ∙ sym (h.2 q)) ∙ h.2 q)

  -- What `flush_entries` leaves.
  AreFlushed : HashMap PageId ℕ → BufferPool P → Result (Unit {0}) PoolError × BufferPool P → Type 0
  AreFlushed es p (ok a, v) = IsKept p v × All (λ (x : PageId × ℕ). v.disk x.0 ≡ current p x.0) es
  AreFlushed es p (err e, v) = IsKept p v

  abbrev Named : BufferPool P → HashMap PageId ℕ → Type 0
  Named p es = All (λ (x : PageId × ℕ). table p x.0 ≡ some x.1) es

  Named-same :
      (es : HashMap PageId ℕ) (p v : BufferPool P)
      → v.page_table ≡ p.page_table
      → Named p es
      → Named v es
  Named-same es p v h n = All-imp (λ x k. ap (λ m. HashMap.get m x.0) h ∙ k) es n

  entry_lem :
      (id : PageId) (idx : ℕ) (es : HashMap PageId ℕ) (p : BufferPool P)
      (r s : Result (Unit {0}) PoolError × BufferPool P)
      → IsFlushed id p r
      → AreFlushed es r.1 s
      → AreFlushed ((id, idx) ∷ es) p (elim r.0 [ err e ↦ (err e, r.1) | ok a ↦ s ])
  unfolding AreFlushed IsFlushed IsKept
  entry_lem id idx es p (err e, v) s h g = h
  entry_lem id idx es p (ok a, v) (err e, x) h g = unfold IsKept in IsKept-trans p v x h.0 g
  entry_lem id idx es p (ok a, v) (ok b, x) h g = (
    IsKept-trans p v x h.0 g.0,
    (g.0.3 id (h.1 ∙ sym (h.0.2 id)) ∙ h.0.2 id, All-imp (λ y k. k ∙ h.0.2 y.0) es g.1),
  )

  IsKept-pool :
      (id : PageId) (p : BufferPool P) (r : Result (Unit {0}) PoolError × BufferPool P)
      → IsFlushed id p r
      → IsKept p r.1
  unfolding IsFlushed
  IsKept-pool id p (ok a, v) h = h.0
  IsKept-pool id p (err e, v) h = h

  flush_entries-AreFlushed :
      (es : HashMap PageId ℕ) (p : BufferPool P)
      → IsPool p
      → Named p es
      → AreFlushed es p (flush_entries es p)
  unfolding flush_entries
  flush_entries-AreFlushed [] p w n =
      unfold AreFlushed in (same-IsKept p p w (λ j. refl, refl, refl), tt)
  flush_entries-AreFlushed ((id, idx) ∷ es) p w n =
      let h = flush_frame-IsFlushed id idx p w n.0 in
      let r = flush_frame id idx p in
      let kept = IsKept-pool id p r h in
      entry_lem id idx es p r (flush_entries es r.1) h (
        flush_entries-AreFlushed es r.1 (unfold IsKept in kept.0)
          (Named-same es p r.1 (unfold IsKept in kept.1) n.1))

  -- What `flush_all` leaves.
  pub IsSynced : BufferPool P → Result (Unit {0}) PoolError × BufferPool P → Type 0
  IsSynced p (ok a, v) = IsKept p v × ((q : PageId) → v.disk q ≡ current p q)
  IsSynced p (err e, v) = IsKept p v

  synced :
      (p : BufferPool P) (r : Result (Unit {0}) PoolError × BufferPool P)
      → AreFlushed p.page_table p r
      → IsSynced p r
  unfolding AreFlushed IsSynced IsKept
  synced p (err e, v) h = h
  synced p (ok a, v) h = (
    h.0,
    λ q. elim (Option-cases (table p q)) [
      | inl n ↦ h.0.3 q (sym (ap (λ x. cached (look p.frames) x (p.disk q)) n))
      | inr (i, n) ↦ found_entry (λ q. v.disk q ≡ current p q) p.page_table q i h.1 n
    ],
  )

  -- Readers see every page as before, whether `flush_all` succeeds or fails, and the pool stays
  -- coherent. When it succeeds, the file has every page as readers see it. The page table has no page
  -- twice.
  pub flush_all-IsSynced :
      (p : BufferPool P) → IsPool p → HashMap.IsMap p.page_table → IsSynced p (flush_all p)
  unfolding flush_all
  flush_all-IsSynced p w m =
      synced p (flush_entries p.page_table p)
        (flush_entries-AreFlushed p.page_table p w (entries_found p.page_table m))
