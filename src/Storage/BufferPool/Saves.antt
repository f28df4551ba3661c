-- ===== src/Storage/BufferPool/Saves.antt =====
-- What `write_back` and `forget_page` leave.
use mathlib.Core.Path.{subst}
use tensorvault.Prelude.{
  ℕ, ◌≡◌, refl, sym, ap, ◌∙◌, true, false, Bool-cases, Option-cases, List-cases, inl, inr,
  if◌then◌else◌, none, some, arith,
}
use tensorvault.Prelude.Results.{Result, ok, err}
use tensorvault.Prelude.HashMap.{get-remove}
use tensorvault.Storage.BufferPool.{
  PageId, page_id_eq, Frame, BufferPool, PoolError, device, write_page_to_disk, write_back,
  forget_page,
}
use tensorvault.Storage.BufferPool.Coherence.{
  view, look, table, IsPool, dropped, saved, saved_same, same_id,
}

module _ {P : Type 0} where
  -- What `write_back` leaves.
  unfoldable pub IsSaved :
      Frame P → BufferPool P → Result (Unit {0}) PoolError × BufferPool P → Type 0
  IsSaved f p (ok a, v) =
      (v.frames ≡ p.frames)
      × (v.page_table ≡ p.page_table)
      × ((q : PageId) → v.disk q ≡ saved f.page_id q f.page (p.disk q))
  IsSaved f p (err e, v) = (v.frames ≡ p.frames) × (v.page_table ≡ p.page_table) × (v.disk ≡ p.disk)

  pub device_same :
      (p : BufferPool P)
      → ((device p).1.frames ≡ p.frames)
        × ((device p).1.page_table ≡ p.page_table)
        × ((device p).1.disk ≡ p.disk)
  unfolding device
  device_same p = elim (List-cases p.outcomes) [
    | inl e ↦ rw e (refl, refl, refl)
    | inr (o, rest, e) ↦ rw e (refl, refl, refl)
  ]

  write_page_to_disk-IsSaved :
      (id : PageId) (f : Frame P) (p : BufferPool P)
      → f.page_id ≡ some id
      → IsSaved f p (write_page_to_disk id f.page p)
  unfolding IsSaved write_page_to_disk
  write_page_to_disk-IsSaved id f p h =
      let same = device_same p in
      elim (Bool-cases (device p).0) [
        | inl t ↦ rw t (
          same.0,
          same.1,
          λ q.
              ap (λ (d : PageId → P). if page_id_eq.beq q id then f.page else d q) same.2
              ∙ sym (ap (λ o. saved o q f.page (p.disk q)) h),
        )
        | inr n ↦ rw n same
      ]

  -- A clean page is in the file already.
  saved_clean :
      (idx : ℕ) (f : Frame P) (p : BufferPool P)
      → IsPool p
      → look p.frames idx ≡ some (view f)
      → f.dirty ≡ false
      → (q : PageId) → p.disk q ≡ saved f.page_id q f.page (p.disk q)
  saved_clean idx f p w at c q = elim (Option-cases f.page_id) [
    | inl n ↦ rw n refl
    | inr (o, n) ↦ elim (Bool-cases (page_id_eq.beq q o)) [
      | inl b ↦
          let g : f.page_id ≡ some q = n ∙ ap (λ t. some t) (sym (same_id q o b)) in
          sym (w.2 q idx (view f) at g c) ∙ sym (saved_same f.page_id q f.page (p.disk q) g)
      | inr b ↦ rw (n, b) refl
    ]
  ]

  back_clean : (f : Frame P) (p : BufferPool P) → f.dirty ≡ false → write_back f p ≡ (ok tt, p)
  unfolding write_back
  back_clean f p c = ground (arith, c)

  back_unowned : (f : Frame P) (p : BufferPool P) → f.page_id ≡ none → write_back f p ≡ (ok tt, p)
  unfolding write_back
  back_unowned f p n = ground (arith, n)

  back_dirty :
      (id : PageId) (f : Frame P) (p : BufferPool P)
      → f.dirty ≡ true
      → f.page_id ≡ some id
      → write_back f p ≡ write_page_to_disk id f.page p
  unfolding write_back
  back_dirty id f p d n = rw (d, n) refl

  pub write_back-IsSaved :
      (idx : ℕ) (f : Frame P) (p : BufferPool P)
      → IsPool p
      → look p.frames idx ≡ some (view f)
      → IsSaved f p (write_back f p)
  write_back-IsSaved idx f p w at = elim (Bool-cases f.dirty) [
    | inr c ↦
        subst (IsSaved f p) (sym (back_clean f p c))
          (unfold IsSaved in (refl, refl, saved_clean idx f p w at c))
    | inl d ↦ elim (Option-cases f.page_id) [
      | inl n ↦
          subst (IsSaved f p) (sym (back_unowned f p n))
            (unfold IsSaved in (refl, refl, λ q. sym (ap (λ o. saved o q f.page (p.disk q)) n)))
      | inr (id, n) ↦
          subst (IsSaved f p) (sym (back_dirty id f p d n)) (write_page_to_disk-IsSaved id f p n)
    ]
  ]

  pub forget_page_lem :
      (f : Frame P) (p : BufferPool P)
      → ((forget_page f p).frames ≡ p.frames)
        × ((forget_page f p).disk ≡ p.disk)
        × ((q : PageId) → table (forget_page f p) q ≡ dropped f.page_id q (table p q))
  unfolding forget_page
  forget_page_lem f p = elim (Option-cases f.page_id) [
    | inl n ↦ rw n (refl, refl, λ q. refl)
    | inr (id, n) ↦ rw n (refl, refl, λ q. get-remove p.page_table id q)
  ]
