-- ===== src/Storage/BufferPool/Fetches.antt =====
-- `fetch_page`, of a page that the pool has and of one that it loads.
use mathlib.Core.Path.{subst}
use tensorvault.Prelude.{
  ℕ, ◌+◌, ◌%◌, ◌^◌, ◌≡◌, refl, sym, ap, ◌∙◌, ◌==◌, ==_iff, true, Bool-cases, Option-cases, inl, inr,
  Option, none, some, List, get_elem?, set, arith,
}
use tensorvault.Prelude.Results.{Result, ok, err}
use tensorvault.Prelude.HashMap
use tensorvault.Prelude.HashMap.{get-insert, get-remove}
use tensorvault.Storage.BufferPool.{
  PageId, page_id_eq, Frame, BufferPool, PoolError, find_victim, load, pin, load_victim, fetch_page,
}
use tensorvault.Storage.BufferPool.Clock.{get_elem?-set, find_victim_lem}
use tensorvault.Storage.BufferPool.Coherence.{
  view, look, held, cached, table, IsPool, current, look-get_elem?, look-set,
}
use tensorvault.Storage.BufferPool.Views.{
  SameViews, same_views, SameViews-IsPool, SameViews-current,
}
use tensorvault.Storage.BufferPool.Loads.{IsFetched, got_page, load-IsFetched}

module _ {P : Type 0} where
  pin_missing :
      (idx : ℕ) (p : BufferPool P)
      → get_elem? p.frames idx ≡ none
      → pin idx p ≡ (err PoolError.exhausted, p)
  unfolding pin
  pin_missing idx p n = ground (arith, n)

  abbrev pinned : ℕ → Frame P → BufferPool P → BufferPool P
  pinned idx f p = record p {
    frames =
        set p.frames idx (record f { pin_count = (f.pin_count + 1) % 2 ^ 32; referenced = true });
  }

  pin_found :
      (idx : ℕ) (f : Frame P) (p : BufferPool P)
      → get_elem? p.frames idx ≡ some f
      → pin idx p ≡ (ok idx, pinned idx f p)
  unfolding pin
  pin_found idx f p n = ground (arith, n)

  fetch_cached :
      (id : PageId) (idx : ℕ) (p : BufferPool P)
      → table p id ≡ some idx
      → fetch_page id p ≡ pin idx p
  unfolding fetch_page
  fetch_cached id idx p n = ground (arith, n)

  fetch_uncached :
      (id : PageId) (p : BufferPool P)
      → table p id ≡ none
      → fetch_page id p ≡ load_victim id (find_victim p)
  unfolding fetch_page
  fetch_uncached id p n = ground (arith, n)

  victim_missing :
      (id : PageId) (idx : ℕ) (v : BufferPool P)
      → get_elem? v.frames idx ≡ none
      → load_victim id (some idx, v) ≡ (err PoolError.exhausted, v)
  unfolding load_victim
  victim_missing id idx v n = ground (arith, n)

  victim_found :
      (id : PageId) (idx : ℕ) (f : Frame P) (v : BufferPool P)
      → get_elem? v.frames idx ≡ some f
      → load_victim id (some idx, v) ≡ load id idx f v
  unfolding load_victim
  victim_found id idx f v n = ground (arith, n)

  -- A frame that is written with what it holds, but for its pins and its clock bit.
  pub look_unchanged :
      (fs : List (Frame P)) (i j : ℕ) (f g : Frame P)
      → get_elem? fs i ≡ some f
      → view g ≡ view f
      → look (set fs i g) j ≡ look fs j
  look_unchanged fs i j f g e h = elim (Bool-cases (i == j)) [
    | inr n ↦ look-set fs i j f g e ∙ rw n refl
    | inl b ↦
        let same : i ≡ j = (==_iff i j).0 b in
        look-set fs i j f g e
        ∙ rw b (ap (λ t. some t) h ∙ sym (look-get_elem? fs i f e))
        ∙ ap (look fs) same
  ]

  -- A page that the pool has.
  pin-IsFetched :
      (id : PageId) (idx : ℕ) (p : BufferPool P)
      → IsPool p
      → table p id ≡ some idx
      → IsFetched id p (pin idx p)
  pin-IsFetched id idx p w h = elim (Option-cases (get_elem? p.frames idx)) [
    | inl n ↦ subst (IsFetched id p) (sym (pin_missing idx p n)) (unfold IsFetched in (λ q. refl))
    | inr (f, n) ↦
        let g : Frame P = record f { pin_count = (f.pin_count + 1) % 2 ^ 32; referenced = true } in
        let same : SameViews (pinned idx f p) p =
          (λ j. look_unchanged p.frames idx j f g n refl, refl, refl) in
        let page : f.page ≡ current p id = sym (
          ap (λ x. cached (look p.frames) x (p.disk id)) h
          ∙ ap (λ l. held l (p.disk id)) (look-get_elem? p.frames idx f n)) in
        subst (IsFetched id p) (sym (pin_found idx f p n)) (
          unfold IsFetched in
          (
            SameViews-IsPool (pinned idx f p) p same w,
            h,
            got_page idx (pinned idx f p) g (get_elem?-set p.frames idx f g n)
                ∙ ap (λ t. some t) page,
            SameViews-current (pinned idx f p) p same,
          ))
  ]

  IsFetched-same :
      (id : PageId) (v p : BufferPool P) (r : Result ℕ PoolError × BufferPool P)
      → SameViews v p
      → IsFetched id v r
      → IsFetched id p r
  unfolding IsFetched
  IsFetched-same id v p (ok idx, x) s h = (
    h.0,
    h.1,
    h.2 ∙ ap (λ t. some t) (SameViews-current v p s id),
    λ q. h.3 q ∙ SameViews-current v p s q,
  )
  IsFetched-same id v p (err e, x) s h = λ q. h q ∙ SameViews-current v p s q

  no_victim :
      (id : PageId) (v : BufferPool P) → load_victim id (none, v) ≡ (err PoolError.exhausted, v)
  unfolding load_victim
  no_victim id v = refl

  victim-IsFetched :
      (id : PageId) (p : BufferPool P) (r : Option ℕ × BufferPool P)
      → IsPool p
      → table p id ≡ none
      → SameViews r.1 p
      → IsFetched id p (load_victim id r)
  victim-IsFetched id p (none, v) w out s =
      subst (IsFetched id p) (sym (no_victim id v)) (unfold IsFetched in (SameViews-current v p s))
  victim-IsFetched id p (some idx, v) w out s = elim (Option-cases (get_elem? v.frames idx)) [
    | inl n ↦
        subst (IsFetched id p) (sym (victim_missing id idx v n))
          (unfold IsFetched in (SameViews-current v p s))
    | inr (f, n) ↦ subst (IsFetched id p) (sym (victim_found id idx f v n)) (
        IsFetched-same id v p (load id idx f v) s (
          load-IsFetched id idx f v (SameViews-IsPool v p s w) n
            (ap (λ m. HashMap.get m id) s.1 ∙ out)))
  ]

  -- Readers see every page as before, whether `fetch_page` succeeds or fails. When it succeeds, the
  -- pool is coherent again, the table names the frame for the page, and the frame has the page.
  pub fetch_page-IsFetched :
      (id : PageId) (p : BufferPool P) → IsPool p → IsFetched id p (fetch_page id p)
  fetch_page-IsFetched id p w = elim (Option-cases (table p id)) [
    | inl n ↦ subst (IsFetched id p) (sym (fetch_uncached id p n)) (
        victim-IsFetched id p (find_victim p) w n
          (same_views (find_victim p).1 p (find_victim_lem p).1))
    | inr (idx, n) ↦
        subst (IsFetched id p) (sym (fetch_cached id idx p n)) (pin-IsFetched id idx p w n)
  ]
