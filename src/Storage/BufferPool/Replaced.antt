-- ===== src/Storage/BufferPool/Replaced.antt =====
-- A page takes the frame of another one, whose page has been saved.
use mathlib.Core.Path.{subst}
use tensorvault.Prelude.{
  ℕ, ◌≡◌, refl, sym, ap, ◌∙◌, ◌==◌, ==_iff, true, false, Bool-cases, Option-cases, ◌⊎◌, inl, inr,
  if◌then◌else◌, Option, none, some,
}
use tensorvault.Storage.BufferPool.{PageId, page_id_eq}
use tensorvault.Storage.BufferPool.Coherence.{
  View, held, shown, IsCoherent, dropped, saved, clash, same_id, same_some, not_none, differs,
  dropped_other, saved_other, dropped_same, saved_same,
}

module _ {P : Type 0} where
  -- A page `id` takes the frame `idx` of another one, whose page has been saved.
  module _ (l m : ℕ → Option (View P)) (t u : PageId → Option ℕ) (d e : PageId → P)
      (w : IsCoherent l t d) (id : PageId) (idx : ℕ) (old : View P) (at : l idx ≡ some old)
      (out : t id ≡ none) (saves : (q : PageId) → e q ≡ saved old.page_id q old.page (d q))
      (looks : (j : ℕ)
        → m j ≡ (
            if idx == j
            then some (record { page = e id; dirty = false; page_id = some id })
            else l j))
      (names : (q : PageId)
        → u q ≡ (if page_id_eq.beq id q then some idx else dropped old.page_id q (t q))) where
    -- Only the page that left is in the table under the frame.
    owner : (q : PageId) → t q ≡ some idx → old.page_id ≡ some q
    owner q h =
        let held = w.0 q idx h in
        let same : held.0 ≡ old = same_some (sym held.1 ∙ at) in
        subst (λ (v : View P). v.page_id ≡ some q) same held.2

    elsewhere :
        (j : ℕ)
        → (idx ≡ j → ⊥)
        → (if idx == j
            then some (record { page = e id; dirty = false; page_id = some id })
            else l j)
          ≡ l j
    elsewhere j h = elim (Bool-cases (idx == j)) [
      | inl b ↦ absurd (h ((==_iff idx j).0 b))
      | inr b ↦ rw b refl
    ]

    abbrev Untouched : PageId → Type 0
    Untouched q = (u q ≡ t q) × (e q ≡ d q) × ((j : ℕ) → t q ≡ some j → m j ≡ l j)

    untouched :
        (q : PageId) → page_id_eq.beq id q ≡ false → (old.page_id ≡ some q → ⊥) → Untouched q
    untouched q n h = (
      names q ∙ rw n (dropped_other old.page_id q (t q) h),
      saves q ∙ saved_other old.page_id q old.page (d q) h,
      λ j k. looks j ∙ elsewhere j (λ g. h (owner q (k ∙ ap (λ t. some t) (sym g)))),
    )

    kinds : (q : PageId) → (id ≡ q) ⊎ (old.page_id ≡ some q) ⊎ Untouched q
    kinds q = elim (Bool-cases (page_id_eq.beq id q)) [
      | inl n ↦ inl (same_id id q n)
      | inr n ↦ elim (Option-cases old.page_id) [
        | inl k ↦ inr (inr (untouched q n (λ h. not_none h k)))
        | inr (o, k) ↦ elim (Bool-cases (page_id_eq.beq o q)) [
          | inl b ↦ inr (inl (k ∙ ap (λ t. some t) (same_id o q b)))
          | inr b ↦ inr (inr (untouched q n (λ h. differs o q b (same_some (sym k ∙ h)))))
        ]
      ]
    ]

    t_id : (idx == idx) ≡ true
    t_id = (==_iff idx idx).1 refl

    pub named : u id ≡ some idx
    named = names id ∙ rw ((page_id_eq.beq_iff id id).1 refl) refl

    taken : m idx ≡ some (record { page = e id; dirty = false; page_id = some id })
    taken = looks idx ∙ rw t_id refl

    unowned : old.page_id ≡ some id → ⊥
    unowned h = not_none (w.1 id idx old at h) out

    pub read : e id ≡ d id
    read = saves id ∙ saved_other old.page_id id old.page (d id) unowned

    -- The page that left.
    module _ (q : PageId) (k : old.page_id ≡ some q) where
      was_named : t q ≡ some idx
      was_named = w.1 q idx old at k

      apart : page_id_eq.beq id q ≡ false
      apart = elim (Bool-cases (page_id_eq.beq id q)) [
        | inr n ↦ n
        | inl n ↦ absurd (unowned (k ∙ ap (λ t. some t) (sym (same_id id q n))))
      ]

      unnamed : u q ≡ none
      unnamed = names q ∙ rw apart (dropped_same old.page_id q (t q) k)

      saved_page : e q ≡ old.page
      saved_page = saves q ∙ saved_same old.page_id q old.page (d q) k

    same_kept : (q : PageId) → Untouched q → shown m u e q ≡ shown l t d q
    same_kept q h = elim (Option-cases (t q)) [
      | inl n ↦ rw (h.0, n) h.1
      | inr (j, n) ↦ rw (h.0, n, h.2 j n) (ap (held (l j)) h.1)
    ]

    same_id_shown : shown m u e id ≡ shown l t d id
    same_id_shown = rw (named, taken, out) read

    -- A reader sees for every page what it saw.
    pub shown_same : (q : PageId) → shown m u e q ≡ shown l t d q
    shown_same q = elim (kinds q) [
      | inl g ↦ subst (λ q. shown m u e q ≡ shown l t d q) g same_id_shown
      | inr (inl k) ↦ rw (unnamed q k, was_named q k, at) (saved_page q k)
      | inr (inr h) ↦ same_kept q h
    ]

    -- A frame other than the one that was taken.
    kept_elsewhere :
        (q : PageId) (j : ℕ) (v : View P)
        → (idx ≡ j → ⊥)
        → l j ≡ some v
        → v.page_id ≡ some q
        → (u q ≡ t q) × (e q ≡ d q)
    kept_elsewhere q j v n h k =
        let there : t q ≡ some j = w.1 q j v h k in
        elim (kinds q) [
          | inl g ↦ absurd (not_none there (subst (λ q. t q ≡ none) g out))
          | inr (inl o) ↦ absurd (n (same_some (sym (was_named q o) ∙ there)))
          | inr (inr c) ↦ (c.0, c.1)
        ]

    Frame-cases :
        (j : ℕ) (v : View P)
        → m j ≡ some v
        → ((idx ≡ j) × (record { page = e id; dirty = false; page_id = some id } ≡ v))
          ⊎ ((idx ≡ j → ⊥) × (l j ≡ some v))
    Frame-cases j v h = elim (Bool-cases (idx == j)) [
      | inl b ↦ let g : idx ≡ j = (==_iff idx j).0 b in inl (g, same_some (sym taken ∙ ap m g ∙ h))
      | inr b ↦
          let n : idx ≡ j → ⊥ = λ g. clash ((==_iff idx j).1 g) b in
          inr (n, sym (looks j ∙ elsewhere j n) ∙ h)
    ]

    names_frames :
        (q : PageId) (j : ℕ) → u q ≡ some j → (v : View P) × (m j ≡ some v) × (v.page_id ≡ some q)
    names_frames q j h = elim (kinds q) [
      | inl g ↦
          let same : idx ≡ j = same_some (sym named ∙ ap u g ∙ h) in
          (
            record { page = e id; dirty = false; page_id = some id },
            sym (ap m same) ∙ taken,
            ap (λ t. some t) g,
          )
      | inr (inl k) ↦ absurd (not_none h (unnamed q k))
      | inr (inr c) ↦
          let n : t q ≡ some j = sym c.0 ∙ h in
          let held_there = w.0 q j n in (held_there.0, c.2 j n ∙ held_there.1, held_there.2)
    ]

    frames_named :
        (q : PageId) (j : ℕ) (v : View P) → m j ≡ some v → v.page_id ≡ some q → u q ≡ some j
    frames_named q j v h k = elim (Frame-cases j v h) [
      | inl (g, f) ↦
          let same : id ≡ q = same_some (ap (λ (x : View P). x.page_id) f ∙ k) in
          sym (ap u same) ∙ named ∙ ap (λ t. some t) g
      | inr (n, f) ↦ (kept_elsewhere q j v n f k).0 ∙ w.1 q j v f k
    ]

    clean_frames :
        (q : PageId) (j : ℕ) (v : View P)
        → m j ≡ some v
        → v.page_id ≡ some q
        → v.dirty ≡ false
        → v.page ≡ e q
    clean_frames q j v h k c = elim (Frame-cases j v h) [
      | inl (g, f) ↦
          let same : id ≡ q = same_some (ap (λ (x : View P). x.page_id) f ∙ k) in
          sym (ap (λ (x : View P). x.page) f) ∙ ap e same
      | inr (n, f) ↦ w.2 q j v f k c ∙ sym (kept_elsewhere q j v n f k).1
    ]

    pub replaced-IsCoherent : IsCoherent m u e
    replaced-IsCoherent = (names_frames, frames_named, clean_frames)
