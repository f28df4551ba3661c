-- ===== src/Storage/BufferPool/Flushes.antt =====
-- `flush_frame`: one round of the loops of `flush_all` and `flush_table`.
use mathlib.Core.Path.{subst}
use tensorvault.Prelude.{
  ℕ, ◌≡◌, refl, sym, ap, ◌∙◌, ◌==◌, true, false, Bool-cases, inl, inr, if◌then◌else◌, some,
  get_elem?, set, arith,
}
use tensorvault.Prelude.Results.{Result, ok, err}
use tensorvault.Storage.BufferPool.{
  PageId, page_id_eq, Frame, BufferPool, PoolError, device, write_page_to_disk, set_frame,
  flush_frame,
}
use tensorvault.Storage.BufferPool.Coherence.{
  view, look, held, cached, shown, table, IsPool, current, look-get_elem?, look-set, same_id,
  differs,
}
use tensorvault.Storage.BufferPool.Rewritten.{shown_new, shown_other, rewritten-IsCoherent}
use tensorvault.Storage.BufferPool.Views.{SameViews, SameViews-IsPool, SameViews-current}
use tensorvault.Storage.BufferPool.Saves.{device_same}
use tensorvault.Storage.BufferPool.Writes.{frame_of}

module _ {P : Type 0} where
  -- A coherent pool with the same readers, whose files have at least what they had of what these see.
  unfoldable pub IsKept : BufferPool P → BufferPool P → Type 0
  IsKept p v =
      IsPool v
      × (v.page_table ≡ p.page_table)
      × ((q : PageId) → current v q ≡ current p q)
      × ((q : PageId) → p.disk q ≡ current p q → v.disk q ≡ current p q)

  unfoldable pub IsFlushed :
      PageId → BufferPool P → Result (Unit {0}) PoolError × BufferPool P → Type 0
  IsFlushed id p (ok a, v) = IsKept p v × (v.disk id ≡ current p id)
  IsFlushed id p (err e, v) = IsKept p v

  pub same-IsKept : (p v : BufferPool P) → IsPool p → SameViews v p → IsKept p v
  unfolding IsKept
  same-IsKept p v w s = (
    SameViews-IsPool v p s w,
    s.1,
    SameViews-current v p s,
    λ q h. ap (λ (d : PageId → P). d q) s.2 ∙ h,
  )

  -- The pool behind a write of the frame `idx`.
  abbrev cleaned : PageId → ℕ → Frame P → BufferPool P → BufferPool P
  cleaned id idx f p =
      set_frame idx (record f { dirty = false })
        (record (device p).1 {
          disk = λ q. if page_id_eq.beq q id then f.page else (device p).1.disk q;
        })

  frame_clean :
      (id : PageId) (idx : ℕ) (f : Frame P) (p : BufferPool P)
      → get_elem? p.frames idx ≡ some f
      → f.dirty ≡ false
      → flush_frame id idx p ≡ (ok tt, p)
  unfolding flush_frame
  frame_clean id idx f p e c = ground (arith, e, c)

  frame_failed :
      (id : PageId) (idx : ℕ) (f : Frame P) (p : BufferPool P)
      → get_elem? p.frames idx ≡ some f
      → f.dirty ≡ true
      → (device p).0 ≡ false
      → flush_frame id idx p ≡ (err PoolError.io, (device p).1)
  unfolding flush_frame write_page_to_disk
  frame_failed id idx f p e c d = ground (arith, e, c, d)

  frame_written :
      (id : PageId) (idx : ℕ) (f : Frame P) (p : BufferPool P)
      → get_elem? p.frames idx ≡ some f
      → f.dirty ≡ true
      → (device p).0 ≡ true
      → flush_frame id idx p ≡ (ok tt, cleaned id idx f p)
  unfolding flush_frame write_page_to_disk
  frame_written id idx f p e c d = ground (arith, e, c, d)

  -- A write of the page of a frame, relative to the pool behind the call of the device.
  abbrev saved_frame : PageId → ℕ → Frame P → BufferPool P → BufferPool P
  saved_frame id idx f p =
      set_frame idx (record f { dirty = false })
        (record p { disk = λ q. if page_id_eq.beq q id then f.page else p.disk q })

  saved-IsFlushed :
      (id : PageId) (idx : ℕ) (f : Frame P) (p : BufferPool P)
      → IsPool p
      → get_elem? p.frames idx ≡ some f
      → f.page_id ≡ some id
      → IsFlushed id p (ok tt, saved_frame id idx f p)
  unfolding IsFlushed IsKept set_frame
  saved-IsFlushed id idx f p w e k =
      let g : Frame P = record f { dirty = false } in
      let at = look-get_elem? p.frames idx f e in
      let m = look (set p.frames idx g) in
      let d : PageId → P = λ q. if page_id_eq.beq q id then f.page else p.disk q in
      let looks : (j : ℕ) → m j ≡ (if idx == j then some (view g) else look p.frames j) =
        λ j. look-set p.frames idx j f g e in
      let files : (q : PageId) → (id ≡ q → ⊥) → d q ≡ p.disk q = λ q n.
        elim (Bool-cases (page_id_eq.beq q id)) [
          | inl b ↦ absurd (n (sym (same_id q id b)))
          | inr b ↦ rw b refl
        ] in
      let here : d id ≡ f.page = rw ((page_id_eq.beq_iff id id).1 refl) refl in
      let clean : false ≡ false → f.page ≡ d id = λ h. sym here in
      let seen : current p id ≡ f.page =
        ap (λ x. cached (look p.frames) x (p.disk id)) (w.1 id idx (view f) at k)
        ∙ ap (λ l. held l (p.disk id)) at in
      let new_page =
        shown_new (look p.frames) m (table p) p.disk d w id idx (view f) (view g) at k k looks files
          clean in
      (
        (
          rewritten-IsCoherent (look p.frames) m (table p) p.disk d w id idx (view f) (view g) at k
              k looks files clean,
          refl,
          λ q. elim (Bool-cases (page_id_eq.beq id q)) [
            | inl b ↦
                subst (λ q. shown m (table p) d q ≡ current p q) (same_id id q b)
                  (new_page ∙ sym seen)
            | inr b ↦
                shown_other (look p.frames) m (table p) p.disk d w id idx (view f) (view g) at k k
                  looks files clean q (differs id q b)
          ],
          λ q h. elim (Bool-cases (page_id_eq.beq q id)) [
            | inl b ↦ subst (λ q. d q ≡ current p q) (sym (same_id q id b)) (here ∙ sym seen)
            | inr b ↦ files q (λ n. differs q id b (sym n)) ∙ h
          ],
        ),
        here ∙ sym seen,
      )

  IsKept-same : (p x v : BufferPool P) → SameViews x p → IsKept x v → IsKept p v
  unfolding IsKept
  IsKept-same p x v s h =
      let seen = SameViews-current x p s in
      (
        h.0,
        h.1 ∙ s.1,
        λ q. h.2 q ∙ seen q,
        λ q g. h.3 q (ap (λ (d : PageId → P). d q) s.2 ∙ g ∙ sym (seen q)) ∙ seen q,
      )

  cleaned-IsFlushed :
      (id : PageId) (idx : ℕ) (f : Frame P) (p : BufferPool P)
      → IsPool p
      → get_elem? p.frames idx ≡ some f
      → f.page_id ≡ some id
      → IsFlushed id p (ok tt, cleaned id idx f p)
  unfolding IsFlushed
  cleaned-IsFlushed id idx f p w e k =
      let x = (device p).1 in
      let same = device_same p in
      let views : SameViews x p = (λ j. ap (λ fs. look fs j) same.0, same.1, same.2) in
      let h =
        saved-IsFlushed id idx f x (SameViews-IsPool x p views w)
          (ap (λ fs. get_elem? fs idx) same.0 ∙ e) k in
      (IsKept-same p x (cleaned id idx f p) views h.0, h.1 ∙ SameViews-current x p views id)

  pub flush_frame-IsFlushed :
      (id : PageId) (idx : ℕ) (p : BufferPool P)
      → IsPool p
      → table p id ≡ some idx
      → IsFlushed id p (flush_frame id idx p)
  flush_frame-IsFlushed id idx p w t =
      let f = frame_of id idx p w t in
      let seen : current p id ≡ f.0.page =
        ap (λ x. cached (look p.frames) x (p.disk id)) t
        ∙ ap (λ l. held l (p.disk id)) (look-get_elem? p.frames idx f.0 f.1) in
      let kept = same-IsKept p p w (λ j. refl, refl, refl) in
      elim (Bool-cases f.0.dirty) [
        | inr c ↦ subst (IsFlushed id p) (sym (frame_clean id idx f.0 p f.1 c)) (
            unfold IsFlushed in
            (
              kept,
              sym (w.2 id idx (view f.0) (look-get_elem? p.frames idx f.0 f.1) f.2 c) ∙ sym seen,
            ))
        | inl c ↦ elim (Bool-cases (device p).0) [
          | inl d ↦
              subst (IsFlushed id p) (sym (frame_written id idx f.0 p f.1 c d))
                (cleaned-IsFlushed id idx f.0 p w f.1 f.2)
          | inr d ↦
              let same = device_same p in
              subst (IsFlushed id p) (sym (frame_failed id idx f.0 p f.1 c d)) (
                unfold IsFlushed in
                same-IsKept p (device p).1 w (λ j. ap (λ fs. look fs j) same.0, same.1, same.2))
        ]
      ]
