-- ===== src/Storage/BufferPool/Writes.antt =====
-- A page is written through its frame and unpinned.
use mathlib.Core.Path.{subst}
use tensorvault.Prelude.{
  ℕ, zero, suc, ◌≡◌, refl, sym, ap, ◌∙◌, ◌==◌, Bool, true, false, if◌then◌else◌, some, List, [],
  ◌∷◌, get_elem?, arith,
}
use tensorvault.Storage.BufferPool.{
  PageId, Frame, BufferPool, set_frame, unpin_frame, unpin_page, get_page_mut,
}
use tensorvault.Storage.BufferPool.Clock.{get_elem?-set, set-set}
use tensorvault.Storage.BufferPool.Coherence.{
  View, view, look, table, IsPool, current, look-get_elem?, look-set, same_some, clash,
}
use tensorvault.Storage.BufferPool.Rewritten.{shown_new, shown_other, rewritten-IsCoherent}
use tensorvault.Storage.BufferPool.Fetches.{look_unchanged}
use tensorvault.Storage.BufferPool.Views.{SameViews}

module _ {P : Type 0} where
  unpinned :
      (id : PageId) (idx : ℕ) (dirty : Bool) (f : Frame P) (p : BufferPool P)
      → table p id ≡ some idx
      → get_elem? p.frames idx ≡ some f
      → unpin_page id dirty p ≡ set_frame idx (unpin_frame dirty f) p
  unfolding unpin_page
  unpinned id idx dirty f p t e = ground (arith, t, e)

  written :
      (idx : ℕ) (x : P) (f : Frame P) (p : BufferPool P)
      → get_elem? p.frames idx ≡ some f
      → get_page_mut idx x p ≡ some (set_frame idx (record f { page = x }) p)
  unfolding get_page_mut
  written idx x f p e = ground (arith, e)

  -- The frame behind a view.
  pub frame_at :
      (fs : List (Frame P)) (i : ℕ) (v : View P)
      → look fs i ≡ some v
      → (f : Frame P) × (get_elem? fs i ≡ some f) × (view f ≡ v)
  frame_at [] i v h = ground (arith, h)
  frame_at (f ∷ fs) zero v h = (f, refl, same_some h)
  frame_at (f ∷ fs) (suc i) v h = frame_at fs i v h

  -- The frame of a page that the table names.
  pub frame_of :
      (id : PageId) (idx : ℕ) (p : BufferPool P)
      → IsPool p
      → table p id ≡ some idx
      → (f : Frame P) × (get_elem? p.frames idx ≡ some f) × (f.page_id ≡ some id)
  frame_of id idx p w t =
      let held_there = w.0 id idx t in
      let f = frame_at p.frames idx held_there.0 held_there.1 in
      (f.0, f.1, ap (λ (v : View P). v.page_id) f.2 ∙ held_there.2)

  named_after :
      (idx : ℕ) (g : Frame P) (p : BufferPool P) (id : PageId) (j : ℕ)
      → table p id ≡ some j
      → table (set_frame idx g p) id ≡ some j
  unfolding set_frame
  named_after idx g p id j t = t

  -- A page that was only read is unpinned.
  pub unpin_page-SameViews :
      (id : PageId) (idx : ℕ) (p : BufferPool P)
      → IsPool p
      → table p id ≡ some idx
      → SameViews (unpin_page id false p) p
  unfolding set_frame unpin_frame
  unpin_page-SameViews id idx p w t =
      let f = frame_of id idx p w t in
      subst (λ v. SameViews v p) (sym (unpinned id idx false f.0 p t f.1))
        (λ j. look_unchanged p.frames idx j f.0 (unpin_frame false f.0) f.1 refl, refl, refl)

  rewritten : ℕ → P → Frame P → BufferPool P → BufferPool P
  rewritten idx x f p =
      set_frame idx (unpin_frame true (record f { page = x }))
        (set_frame idx (record f { page = x }) p)

  abbrev rewritten_view : PageId → P → View P
  rewritten_view id x = record { page = x; dirty = true; page_id = some id }

  look-rewritten :
      (id : PageId) (idx : ℕ) (x : P) (f : Frame P) (p : BufferPool P)
      → get_elem? p.frames idx ≡ some f
      → f.page_id ≡ some id
      → (j : ℕ)
      → look (rewritten idx x f p).frames j
        ≡ (if idx == j then some (rewritten_view id x) else look p.frames j)
  unfolding rewritten set_frame unpin_frame
  look-rewritten id idx x f p e k j =
      let g : Frame P = record f { page = x } in
      ap (λ fs. look fs j) (set-set p.frames idx g (unpin_frame true g))
      ∙ look-set p.frames idx j f (unpin_frame true g) e
      ∙ ap
          (λ o.
            if idx == j
            then some (record { page = x; dirty = true; page_id = o })
            else look p.frames j)
          k

  -- What a write of `x` to the page `id` leaves.
  abbrev pub IsWritten : PageId → P → BufferPool P → BufferPool P → Type 0
  IsWritten id x p v =
      IsPool v × (current v id ≡ x) × ((q : PageId) → (id ≡ q → ⊥) → current v q ≡ current p q)

  rewritten-IsWritten :
      (id : PageId) (idx : ℕ) (x : P) (f : Frame P) (p : BufferPool P)
      → IsPool p
      → get_elem? p.frames idx ≡ some f
      → f.page_id ≡ some id
      → IsWritten id x p (rewritten idx x f p)
  unfolding rewritten set_frame
  rewritten-IsWritten id idx x f p w e k =
      let m = look (rewritten idx x f p).frames in
      let at = look-get_elem? p.frames idx f e in
      let looks = look-rewritten id idx x f p e k in
      let never : true ≡ false → x ≡ p.disk id = λ h. absurd (clash refl h) in
      let new = rewritten_view id x in
      (
        rewritten-IsCoherent (look p.frames) m (table p) p.disk p.disk w id idx (view f) new at k
            refl looks (λ q n. refl) never,
        shown_new (look p.frames) m (table p) p.disk p.disk w id idx (view f) new at k refl looks
            (λ q n. refl) never,
        shown_other (look p.frames) m (table p) p.disk p.disk w id idx (view f) new at k refl looks
            (λ q n. refl) never,
      )

  -- A write through `get_page_mut` to the frame of a page, and the `unpin_page` that says so, change
  -- what readers see of this page to what was written, and of no other page.
  pub get_page_mut-IsWritten :
      (id : PageId) (idx : ℕ) (x : P) (p : BufferPool P)
      → IsPool p
      → table p id ≡ some idx
      → (v : BufferPool P) × (get_page_mut idx x p ≡ some v)
        × IsWritten id x p (unpin_page id true v)
  get_page_mut-IsWritten id idx x p w t =
      let f = frame_of id idx p w t in
      let g : Frame P = record f.0 { page = x } in
      (
        set_frame idx g p,
        written idx x f.0 p f.1,
        subst (IsWritten id x p)
            (sym (
              unpinned id idx true g (set_frame idx g p) (named_after idx g p id idx t)
                (unfold set_frame in get_elem?-set p.frames idx f.0 g f.1)))
            (unfold rewritten in rewritten-IsWritten id idx x f.0 p w f.1 f.2),
      )
