-- ===== src/Storage/BufferPool/Rewritten.antt =====
-- The frame of a page is written, or its page is written to the file.
use mathlib.Core.Path.{subst}
use tensorvault.Prelude.{
  ℕ, ◌≡◌, refl, sym, ap, ◌∙◌, ◌==◌, ==_iff, false, Bool-cases, Option-cases, ◌⊎◌, inl, inr,
  if◌then◌else◌, Option, some,
}
use tensorvault.Storage.BufferPool.{PageId}
use tensorvault.Storage.BufferPool.Coherence.{View, held, shown, IsCoherent, clash, same_some}

module _ {P : Type 0} where
  module _ (l m : ℕ → Option (View P)) (t : PageId → Option ℕ) (d e : PageId → P)
      (w : IsCoherent l t d) (id : PageId) (idx : ℕ) (old new : View P) (at : l idx ≡ some old)
      (owns : old.page_id ≡ some id) (keeps : new.page_id ≡ some id)
      (looks : (j : ℕ) → m j ≡ (if idx == j then some new else l j))
      (files : (q : PageId) → (id ≡ q → ⊥) → e q ≡ d q)
      (clean : new.dirty ≡ false → new.page ≡ e id) where
    named : t id ≡ some idx
    named = w.1 id idx old at owns

    there : m idx ≡ some new
    there = looks idx ∙ rw ((==_iff idx idx).1 refl) refl

    elsewhere : (j : ℕ) → (idx ≡ j → ⊥) → m j ≡ l j
    elsewhere j h = elim (Bool-cases (idx == j)) [
      | inl b ↦ absurd (h ((==_iff idx j).0 b))
      | inr b ↦ looks j ∙ rw b refl
    ]

    Index-cases : (j : ℕ) → (idx ≡ j) ⊎ (idx ≡ j → ⊥)
    Index-cases j = elim (Bool-cases (idx == j)) [
      | inl b ↦ inl ((==_iff idx j).0 b)
      | inr b ↦ inr (λ g. clash ((==_iff idx j).1 g) b)
    ]

    owner : (q : PageId) (j : ℕ) → t q ≡ some j → idx ≡ j → id ≡ q
    owner q j h g =
        let held_there = w.0 q j h in
        let same : held_there.0 ≡ old = same_some (sym held_there.1 ∙ ap l (sym g) ∙ at) in
        same_some (sym owns ∙ subst (λ (v : View P). v.page_id ≡ some q) same held_there.2)

    -- The reader sees the new page, and every other page as before.
    pub shown_new : shown m t e id ≡ new.page
    shown_new = rw (named, there) refl

    pub shown_other : (q : PageId) → (id ≡ q → ⊥) → shown m t e q ≡ shown l t d q
    shown_other q n = elim (Option-cases (t q)) [
      | inl h ↦ rw h (files q n)
      | inr (j, h) ↦ rw (h, elsewhere j (λ g. n (owner q j h g))) (ap (held (l j)) (files q n))
    ]

    names_frames :
        (q : PageId) (j : ℕ) → t q ≡ some j → (v : View P) × (m j ≡ some v) × (v.page_id ≡ some q)
    names_frames q j h = elim (Index-cases j) [
      | inl g ↦ (new, ap m (sym g) ∙ there, keeps ∙ ap (λ t. some t) (owner q j h g))
      | inr g ↦
          let held_there = w.0 q j h in (held_there.0, elsewhere j g ∙ held_there.1, held_there.2)
    ]

    -- The page of the frame that is written.
    new_owner :
        (q : PageId) (j : ℕ) (v : View P)
        → m j ≡ some v
        → v.page_id ≡ some q
        → idx ≡ j
        → (new ≡ v) × (id ≡ q)
    new_owner q j v h k g =
        let same : new ≡ v = same_some (sym there ∙ ap m g ∙ h) in
        (same, same_some (sym keeps ∙ ap (λ (x : View P). x.page_id) same ∙ k))

    frames_named :
        (q : PageId) (j : ℕ) (v : View P) → m j ≡ some v → v.page_id ≡ some q → t q ≡ some j
    frames_named q j v h k = elim (Index-cases j) [
      | inl g ↦ sym (ap t (new_owner q j v h k g).1) ∙ named ∙ ap (λ t. some t) g
      | inr g ↦ w.1 q j v (sym (elsewhere j g) ∙ h) k
    ]

    clean_frames :
        (q : PageId) (j : ℕ) (v : View P)
        → m j ≡ some v
        → v.page_id ≡ some q
        → v.dirty ≡ false
        → v.page ≡ e q
    clean_frames q j v h k c = elim (Index-cases j) [
      | inl g ↦
          let o = new_owner q j v h k g in
          sym (ap (λ (x : View P). x.page) o.0)
          ∙ clean (ap (λ (x : View P). x.dirty) o.0 ∙ c)
          ∙ ap e o.1
      | inr g ↦
          let before : l j ≡ some v = sym (elsewhere j g) ∙ h in
          let apart : id ≡ q → ⊥ = λ i. g (same_some (sym named ∙ ap t i ∙ w.1 q j v before k)) in
          w.2 q j v before k c ∙ sym (files q apart)
    ]

    pub rewritten-IsCoherent : IsCoherent m t e
    rewritten-IsCoherent = (names_frames, frames_named, clean_frames)
