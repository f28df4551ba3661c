-- ===== src/Storage/BufferPool/Loads.antt =====
-- What `load` leaves: a victim that is saved, and the page in its frame.
use mathlib.Core.Path.{subst}
use tensorvault.Prelude.{
  ℕ, ◌≡◌, refl, sym, ap, ◌∙◌, ◌==◌, true, false, Bool-cases, ◌⊎◌, inl, inr, if◌then◌else◌, Option,
  none, some, get_elem?, set, arith,
}
use tensorvault.Prelude.Results.{Result, ok, err}
use tensorvault.Prelude.HashMap
use tensorvault.Prelude.HashMap.{get-insert, get-remove}
use tensorvault.Storage.BufferPool.{
  PageId, page_id_eq, Frame, BufferPool, PoolError, device, read_page_from_disk, write_back,
  forget_page, load, get_page,
}
use tensorvault.Storage.BufferPool.Clock.{get_elem?-set}
use tensorvault.Storage.BufferPool.Coherence.{
  view, look, held, cached, table, IsPool, current, look-get_elem?, look-set, dropped, saved,
  saved_other, saved_same, dropped_other, dropped_same, same_some, differs, same_id,
}
use tensorvault.Storage.BufferPool.Replaced.{read, named, shown_same, replaced-IsCoherent}
use tensorvault.Storage.BufferPool.Views.{same_frames, SameViews-current}
use tensorvault.Storage.BufferPool.Saves.{IsSaved, write_back-IsSaved, forget_page_lem, device_same}

owner-cases : (o : Option PageId) (q : PageId) → (o ≡ some q) ⊎ (o ≡ some q → ⊥)
owner-cases none q = inr (λ h. ground (arith, h))
owner-cases (some o) q = elim (Bool-cases (page_id_eq.beq o q)) [
  | inl e ↦ inl (ap (λ t. some t) (same_id o q e))
  | inr n ↦ inr (λ h. differs o q n (same_some h))
]

module _ {P : Type 0} where
  -- Any call keeps what readers see. One that succeeds keeps the pool coherent, and the frame that it
  -- returns has the page.
  unfoldable pub IsFetched : PageId → BufferPool P → Result ℕ PoolError × BufferPool P → Type 0
  IsFetched id p (ok idx, v) =
      IsPool v
      × (table v id ≡ some idx)
      × (get_page idx v ≡ some (current p id))
      × ((q : PageId) → current v q ≡ current p q)
  IsFetched id p (err e, v) = (q : PageId) → current v q ≡ current p q

  abbrev taken_frame : PageId → P → Frame P
  taken_frame id page = record {
    page = page;
    pin_count = 1;
    dirty = false;
    referenced = true;
    page_id = some id;
  }

  pub got_page :
      (idx : ℕ) (p : BufferPool P) (f : Frame P)
      → get_elem? p.frames idx ≡ some f
      → get_page idx p ≡ some f.page
  unfolding get_page
  got_page idx p f e = ground (arith, e)

  -- What `load` makes of the pool when it has read the page.
  abbrev taken : PageId → ℕ → P → BufferPool P → Result ℕ PoolError × BufferPool P
  taken id idx page v = (
    ok idx,
    record v {
      frames = set v.frames idx (record {
        page = page;
        pin_count = 1;
        dirty = false;
        referenced = true;
        page_id = some id;
      });
      page_table = HashMap.insert v.page_table id idx;
    },
  )

  -- A pool without the victim's page, which is saved.
  evicted_same :
      (idx : ℕ) (f : Frame P) (p v : BufferPool P)
      → IsPool p
      → look p.frames idx ≡ some (view f)
      → v.frames ≡ p.frames
      → ((q : PageId) → table v q ≡ dropped f.page_id q (table p q))
      → ((q : PageId) → v.disk q ≡ saved f.page_id q f.page (p.disk q))
      → (q : PageId) → current v q ≡ current p q
  evicted_same idx f p v w at fr names saves q =
      let show_p = λ (x : Option ℕ). cached (look p.frames) x (p.disk q) in
      let show_v = λ (x : Option ℕ). cached (look v.frames) x (v.disk q) in
      elim (owner-cases f.page_id q) [
        | inl k ↦
            ap show_v (names q ∙ dropped_same f.page_id q (table p q) k)
            ∙ saves q
            ∙ saved_same f.page_id q f.page (p.disk q) k
            ∙ sym (ap show_p (w.1 q idx (view f) at k) ∙ ap (λ l. held l (p.disk q)) at)
        | inr n ↦
            ap show_v (names q ∙ dropped_other f.page_id q (table p q) n)
            ∙ ap (λ fs. cached (look fs) (table p q) (v.disk q)) fr
            ∙ ap (cached (look p.frames) (table p q))
                (saves q ∙ saved_other f.page_id q f.page (p.disk q) n)
      ]

  taken-IsFetched :
      (id : PageId) (idx : ℕ) (f : Frame P) (p v : BufferPool P)
      → IsPool p
      → get_elem? p.frames idx ≡ some f
      → table p id ≡ none
      → v.frames ≡ p.frames
      → ((q : PageId) → table v q ≡ dropped f.page_id q (table p q))
      → ((q : PageId) → v.disk q ≡ saved f.page_id q f.page (p.disk q))
      → IsFetched id p (taken id idx (v.disk id) v)
  unfolding IsFetched
  taken-IsFetched id idx f p v w at out fr names saves =
      let new = taken_frame id (v.disk id) in
      let frames = set v.frames idx new in
      let here = look-get_elem? p.frames idx f at in
      let looks : (j : ℕ)
          → look frames j ≡ (if idx == j then some (view new) else look p.frames j) =
        λ j. ap (λ fs. look (set fs idx new) j) fr ∙ look-set p.frames idx j f new at in
      let u : PageId → Option ℕ = λ q. HashMap.get (HashMap.insert v.page_table id idx) q in
      let tables : (q : PageId)
          → u q ≡ (if page_id_eq.beq id q then some idx else dropped f.page_id q (table p q)) =
        λ q.
          get-insert v.page_table id q idx
          ∙ ap (λ (x : Option ℕ). if page_id_eq.beq id q then some idx else x) (names q) in
      let page : v.disk id ≡ current p id =
        read (look p.frames) (look frames) (table p) u p.disk v.disk w id idx (view f) here out
          saves looks tables
        ∙ sym (ap (λ x. cached (look p.frames) x (p.disk id)) out) in
      (
        replaced-IsCoherent (look p.frames) (look frames) (table p) u p.disk v.disk w id idx
            (view f) here out saves looks tables,
        named (look p.frames) (look frames) (table p) u p.disk v.disk w id idx (view f) here out
            saves looks tables,
        got_page idx (record v { frames = frames; page_table = HashMap.insert v.page_table id idx })
              new (get_elem?-set v.frames idx f new (ap (λ fs. get_elem? fs idx) fr ∙ at))
            ∙ ap (λ t. some t) page,
        shown_same (look p.frames) (look frames) (table p) u p.disk v.disk w id idx (view f) here
            out saves looks tables,
      )

  -- What `read_page_from_disk` leaves.
  IsRead : PageId → BufferPool P → Result P PoolError × BufferPool P → Type 0
  IsRead id p (ok page, v) =
      (v.frames ≡ p.frames) × (v.page_table ≡ p.page_table) × (v.disk ≡ p.disk) × (page ≡ v.disk id)
  IsRead id p (err e, v) = (v.frames ≡ p.frames) × (v.page_table ≡ p.page_table) × (v.disk ≡ p.disk)

  read_page_from_disk-IsRead :
      (id : PageId) (p : BufferPool P) → IsRead id p (read_page_from_disk id p)
  unfolding IsRead read_page_from_disk
  read_page_from_disk-IsRead id p =
      let same = device_same p in
      elim (Bool-cases (device p).0) [
        | inl t ↦ rw t (same.0, same.1, same.2, refl)
        | inr n ↦ rw n same
      ]

  -- `load` behind its two calls of the device.
  loaded : PageId → ℕ → Result P PoolError × BufferPool P → Result ℕ PoolError × BufferPool P
  loaded id idx (err e, v) = (err e, v)
  loaded id idx (ok page, v) = taken id idx page v

  saved_loaded :
      PageId
      → ℕ
      → Frame P
      → Result (Unit {0}) PoolError × BufferPool P
      → Result ℕ PoolError × BufferPool P
  saved_loaded id idx f (err e, v) = (err e, v)
  saved_loaded id idx f (ok a, v) = loaded id idx (read_page_from_disk id (forget_page f v))

  loaded_lem :
      (id : PageId) (idx : ℕ) (r : Result P PoolError × BufferPool P)
      → elim r.0 [ err e ↦ (err e, r.1) | ok page ↦ taken id idx page r.1 ] ≡ loaded id idx r
  unfolding loaded
  loaded_lem id idx (ok page, v) = refl
  loaded_lem id idx (err e, v) = refl

  saved_loaded_lem :
      (id : PageId) (idx : ℕ) (f : Frame P) (r : Result (Unit {0}) PoolError × BufferPool P)
      → elim r.0 [
        | err e ↦ (err e, r.1)
        | ok a ↦
            let x = read_page_from_disk id (forget_page f r.1) in
            elim x.0 [ err e ↦ (err e, x.1) | ok page ↦ taken id idx page x.1 ]
      ]
        ≡ saved_loaded id idx f r
  unfolding saved_loaded
  saved_loaded_lem id idx f (err e, v) = refl
  saved_loaded_lem id idx f (ok a, v) = loaded_lem id idx (read_page_from_disk id (forget_page f v))

  load_lem :
      (id : PageId) (idx : ℕ) (f : Frame P) (p : BufferPool P)
      → load id idx f p ≡ saved_loaded id idx f (write_back f p)
  unfolding load
  load_lem id idx f p = saved_loaded_lem id idx f (write_back f p)

  read-IsFetched :
      (id : PageId) (idx : ℕ) (f : Frame P) (p v : BufferPool P)
      (r : Result P PoolError × BufferPool P)
      → IsPool p
      → get_elem? p.frames idx ≡ some f
      → table p id ≡ none
      → v.frames ≡ p.frames
      → ((q : PageId) → table v q ≡ dropped f.page_id q (table p q))
      → ((q : PageId) → v.disk q ≡ saved f.page_id q f.page (p.disk q))
      → IsRead id v r
      → IsFetched id p (loaded id idx r)
  unfolding IsRead loaded
  read-IsFetched id idx f p v (err e, x) w at out fr names saves h =
      unfold IsFetched in
      evicted_same idx f p x w (look-get_elem? p.frames idx f at) (h.0 ∙ fr)
        (λ q. ap (λ m. HashMap.get m q) h.1 ∙ names q)
        (λ q. ap (λ (d : PageId → P). d q) h.2 ∙ saves q)
  read-IsFetched id idx f p v (ok page, x) w at out fr names saves h =
      subst (λ g. IsFetched id p (taken id idx g x)) (sym h.3)
        (taken-IsFetched id idx f p x w at out (h.0 ∙ fr)
          (λ q. ap (λ m. HashMap.get m q) h.1 ∙ names q)
          (λ q. ap (λ (d : PageId → P). d q) h.2 ∙ saves q))

  saved-IsFetched :
      (id : PageId) (idx : ℕ) (f : Frame P) (p : BufferPool P)
      (r : Result (Unit {0}) PoolError × BufferPool P)
      → IsPool p
      → get_elem? p.frames idx ≡ some f
      → table p id ≡ none
      → IsSaved f p r
      → IsFetched id p (saved_loaded id idx f r)
  unfolding IsSaved saved_loaded
  saved-IsFetched id idx f p (err e, v) w at out h =
      unfold IsFetched in SameViews-current v p (same_frames v p h.0, h.1, h.2)
  saved-IsFetched id idx f p (ok a, v) w at out h =
      let left = forget_page_lem f v in
      read-IsFetched id idx f p (forget_page f v) _ w at out (left.0 ∙ h.0)
        (λ q. left.2 q ∙ ap (λ m. dropped f.page_id q (HashMap.get m q)) h.1)
        (λ q. ap (λ (d : PageId → P). d q) left.1 ∙ h.2 q)
        (read_page_from_disk-IsRead id (forget_page f v))

  pub load-IsFetched :
      (id : PageId) (idx : ℕ) (f : Frame P) (p : BufferPool P)
      → IsPool p
      → get_elem? p.frames idx ≡ some f
      → table p id ≡ none
      → IsFetched id p (load id idx f p)
  load-IsFetched id idx f p w at out = subst (IsFetched id p) (sym (load_lem id idx f p)) (
      saved-IsFetched id idx f p (write_back f p) w at out
        (write_back-IsSaved idx f p w (look-get_elem? p.frames idx f at)))
