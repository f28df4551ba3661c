-- ===== src/Storage/BufferPool/Sessions.antt =====
-- Sessions of reads and writes, on a pool and on a map from page IDs to pages.
use mathlib.Core.Path.{subst}
use tensorvault.Prelude.{
  ℕ, ◌≡◌, refl, sym, ap, ◌∙◌, Bool, true, false, Bool-cases, inl, inr, if◌then◌else◌, Option, none,
  some, List, [], ◌∷◌, ◌++◌, zero, suc, replicate, arith,
}
use tensorvault.Prelude.HashMap
use tensorvault.Prelude.Results.{Result, ok, err}
use tensorvault.Storage.BufferPool.{
  PageId, page_id_eq, Frame, new, BufferPool, PoolError, fetch_page, get_page, get_page_mut,
  unpin_page,
}
use tensorvault.Storage.BufferPool.Coherence.{
  View, view, look, IsPool, current, same_id, same_some, not_none, differs,
}
use tensorvault.Storage.BufferPool.Views.{SameViews-IsPool, SameViews-current}
use tensorvault.Storage.BufferPool.Fetches.{fetch_page-IsFetched}
use tensorvault.Storage.BufferPool.Loads.{IsFetched}
use tensorvault.Storage.BufferPool.Writes.{unpin_page-SameViews, get_page_mut-IsWritten}

-- A caller of the pool reads a page or writes one.
pub data Call (P : Type 0) : Type 0 where
  read : PageId → Call P
  write : PageId → P → Call P

module _ {P : Type 0} where
  -- The calls of the pool: `fetch_page`, the page, and `unpin_page`. A read returns its page.
  abbrev behind_read : PageId → Option P → BufferPool P → Result (List P) PoolError × BufferPool P
  behind_read id none v = (err PoolError.exhausted, v)
  behind_read id (some page) v = (ok (page ∷ []), unpin_page id false v)

  abbrev behind_write :
      PageId → Option (BufferPool P) → BufferPool P → Result (List P) PoolError × BufferPool P
  behind_write id none v = (err PoolError.exhausted, v)
  behind_write id (some u) v = (ok [], unpin_page id true u)

  abbrev behind_fetch :
      Call P → Result ℕ PoolError × BufferPool P → Result (List P) PoolError × BufferPool P
  behind_fetch c (err e, v) = (err e, v)
  behind_fetch (read id) (ok idx, v) = behind_read id (get_page idx v) v
  behind_fetch (write id x) (ok idx, v) = behind_write id (get_page_mut idx x v) v

  abbrev target : Call P → PageId
  target (read id) = id
  target (write id x) = id

  abbrev pub call : Call P → BufferPool P → Result (List P) PoolError × BufferPool P
  call c p = behind_fetch c (fetch_page (target c) p)

  -- The same calls on a map.
  abbrev pub map_reads : Call P → (PageId → P) → List P
  map_reads (read id) s = s id ∷ []
  map_reads (write id x) s = []

  abbrev pub map_after : Call P → (PageId → P) → PageId → P
  map_after (read id) s q = s q
  map_after (write id x) s q = if page_id_eq.beq id q then x else s q

  -- A call that succeeds returns what the map has and leaves what the map becomes, and one that fails
  -- leaves what readers see.
  unfoldable pub IsAnswered :
      Call P → BufferPool P → Result (List P) PoolError × BufferPool P → Type 0
  IsAnswered c p (ok pages, v) =
      IsPool v
      × (pages ≡ map_reads c (current p))
      × ((q : PageId) → current v q ≡ map_after c (current p) q)
  IsAnswered c p (err e, v) = (q : PageId) → current v q ≡ current p q

  answered :
      (c : Call P) (p : BufferPool P) (r : Result ℕ PoolError × BufferPool P)
      → IsFetched (target c) p r
      → IsAnswered c p (behind_fetch c r)
  unfolding IsFetched IsAnswered
  answered c p (err e, v) h = h
  answered (read id) p (ok idx, v) h =
      let same = unpin_page-SameViews id idx v h.0 h.1 in
      subst (λ g. IsAnswered (read id) p (behind_read id g v)) (sym h.2)
        (unfold IsAnswered in
          (
            SameViews-IsPool (unpin_page id false v) v same h.0,
            refl,
            λ q. SameViews-current (unpin_page id false v) v same q ∙ h.3 q,
          ))
  answered (write id x) p (ok idx, v) h =
      let u = get_page_mut-IsWritten id idx x v h.0 h.1 in
      subst (λ g. IsAnswered (write id x) p (behind_write id g v)) (sym u.1)
        (unfold IsAnswered in
          (
            u.2.0,
            refl,
            λ q. elim (Bool-cases (page_id_eq.beq id q)) [
              | inl b ↦ rw b (ap (current (unpin_page id true u.0)) (sym (same_id id q b)) ∙ u.2.1)
              | inr b ↦ rw b (u.2.2 q (differs id q b) ∙ h.3 q)
            ],
          ))

  -- One call of a coherent pool is the same call on the map of the pages that readers see.
  pub call-IsAnswered : (c : Call P) (p : BufferPool P) → IsPool p → IsAnswered c p (call c p)
  call-IsAnswered c p w =
      answered c p (fetch_page (target c) p) (fetch_page-IsFetched (target c) p w)

  -- A session ends with the first call that fails.
  abbrev behind_call :
      Result (List P) PoolError × BufferPool P
      → Result (List P) PoolError × BufferPool P
      → Result (List P) PoolError × BufferPool P
  behind_call (err e, v) rest = (err e, v)
  behind_call (ok pages, v) (err e, u) = (err e, u)
  behind_call (ok pages, v) (ok more, u) = (ok (pages ++ more), u)

  abbrev pub run : List (Call P) → BufferPool P → Result (List P) PoolError × BufferPool P
  run [] p = (ok [], p)
  run (c ∷ cs) p = behind_call (call c p) (run cs (call c p).1)

  abbrev pub map_run : List (Call P) → (PageId → P) → List P
  map_run [] s = []
  map_run (c ∷ cs) s = map_reads c s ++ map_run cs (map_after c s)

  abbrev pub map_end : List (Call P) → (PageId → P) → PageId → P
  map_end [] s = s
  map_end (c ∷ cs) s = map_end cs (map_after c s)

  -- A session that ends returns what the calls return on the map and leaves what they leave. One that
  -- fails fails with some call of its own: the calls before that one end, what they return is what
  -- they return on the map, the call fails on the pool that they leave, and what readers see behind
  -- the failure is what those calls leave on the map.
  pub IsRun : List (Call P) → BufferPool P → Result (List P) PoolError × BufferPool P → Type 0
  IsRun cs p (ok pages, v) =
      IsPool v × (pages ≡ map_run cs (current p)) × (current v ≡ map_end cs (current p))
  IsRun cs p (err e, v) =
      (before after : List (Call P)) × (c : Call P) × (u : BufferPool P) × (pages : List P) × (cs
        ≡ before ++ c ∷ after)
      × (run before p ≡ (ok pages, u))
      × (call c u ≡ (err e, v))
      × (pages ≡ map_run before (current p))
      × (current v ≡ map_end before (current p))

  IsRun-step :
      (c : Call P) (cs : List (Call P)) (p : BufferPool P)
      (r t : Result (List P) PoolError × BufferPool P)
      → call c p ≡ r
      → IsAnswered c p r
      → (IsPool r.1 → IsRun cs r.1 t)
      → IsRun (c ∷ cs) p (behind_call r t)
  unfolding IsAnswered IsRun
  IsRun-step c cs p (err e, v) t made h g = ([], cs, c, p, [], refl, refl, made, refl, λ i q. h q i)
  IsRun-step c cs p (ok pages, v) (err e, u) made h g =
      let after_c : current v ≡ map_after c (current p) = λ i q. h.2 q i in
      let (before, after, d, w, more, split, ran, failed, reads, ends) = g h.0 in
      (
        c ∷ before,
        after,
        d,
        w,
        pages ++ more,
        ap (λ t. c ∷ t) split,
        ap (λ t. behind_call t (run before t.1)) made ∙ ap (behind_call (ok pages, v)) ran,
        failed,
        ap (λ t. t ++ more) h.1
            ∙ ap (λ t. map_reads c (current p) ++ t) (reads ∙ ap (map_run before) after_c),
        ends ∙ ap (map_end before) after_c,
      )
  IsRun-step c cs p (ok pages, v) (ok more, u) made h g =
      let after : current v ≡ map_after c (current p) = λ i q. h.2 q i in
      let rest = g h.0 in
      (
        rest.0,
        ap (λ t. t ++ more) h.1
            ∙ ap (λ t. map_reads c (current p) ++ t) (rest.1 ∙ ap (map_run cs) after),
        rest.2 ∙ ap (map_end cs) after,
      )

  -- Sessions of reads and writes on a coherent pool, through whatever evictions and failures of the
  -- device, are the same sessions on the map of the pages that readers see. A session that ends
  -- returns what it returns on the map, and readers then see the map that it leaves. One that fails
  -- does so at a call on the pool that the calls before it leave: those calls end and return what
  -- they return on the map, and readers see, behind the failure, the map that they leave.
  pub run-IsRun : (cs : List (Call P)) (p : BufferPool P) → IsPool p → IsRun cs p (run cs p)
  run-IsRun [] p w = unfold IsRun in (w, refl, refl)
  run-IsRun (c ∷ cs) p w =
      IsRun-step c cs p (call c p) (run cs (call c p).1) refl (call-IsAnswered c p w)
        (λ u. run-IsRun cs (call c p).1 u)

  unowned :
      (n idx : ℕ) (f : Frame P) (v : View P)
      → f.page_id ≡ none
      → look (replicate n f) idx ≡ some v
      → v.page_id ≡ none
  unowned zero idx f v h e = ground (arith, e)
  unowned (suc n) zero f v h e =
      let same : view f ≡ v = same_some e in sym (ap (λ (x : View P). x.page_id) same) ∙ h
  unowned (suc n) (suc idx) f v h e = unowned n idx f v h e

  -- A new pool is coherent.
  pub new-IsPool :
      (empty_page : P) (capacity : ℕ) (disk : PageId → P) (outcomes : List Bool)
      → IsPool (new empty_page capacity disk outcomes)
  unfolding new HashMap.get
  new-IsPool empty_page capacity disk outcomes =
      let f : Frame P = record {
        page = empty_page;
        pin_count = 0;
        dirty = false;
        referenced = false;
        page_id = none;
      } in
      (
        λ id idx h. ground (arith, h),
        λ id idx v h k. absurd (not_none k (unowned capacity idx f v refl h)),
        λ id idx v h k c. absurd (not_none k (unowned capacity idx f v refl h)),
      )
