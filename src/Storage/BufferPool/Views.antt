-- ===== src/Storage/BufferPool/Views.antt =====
-- Pools that look the same.
use mathlib.Core.Path.{subst}
use tensorvault.Prelude.{ℕ, zero, suc, ◌≡◌, refl, sym, ap, ◌∙◌, List, [], ◌∷◌}
use tensorvault.Prelude.HashMap
use tensorvault.Prelude.HashMap.{get-insert, get-remove}
use tensorvault.Storage.BufferPool.{PageId, page_id_eq, Frame, BufferPool}
use tensorvault.Storage.BufferPool.Clock.{without_bits, SameButClock}
use tensorvault.Storage.BufferPool.Coherence.{look, shown, IsCoherent, table, IsPool, current}

module _ {P : Type 0} where
  look-without_bits : (fs : List (Frame P)) (j : ℕ) → look (without_bits fs) j ≡ look fs j
  look-without_bits [] j = refl
  look-without_bits (f ∷ fs) zero = refl
  look-without_bits (f ∷ fs) (suc j) = look-without_bits fs j

  -- Pools whose frames, table and files look the same.
  abbrev pub SameViews : BufferPool P → BufferPool P → Type 0
  SameViews v p =
      ((j : ℕ) → look v.frames j ≡ look p.frames j)
      × (v.page_table ≡ p.page_table)
      × (v.disk ≡ p.disk)

  pub same_views : (v p : BufferPool P) → SameButClock v p → SameViews v p
  same_views v p h = (
    λ j. sym (look-without_bits v.frames j) ∙ ap (λ t. look t j) h.0 ∙ look-without_bits p.frames j,
    h.1,
    h.2,
  )

  pub SameViews-IsPool : (v p : BufferPool P) → SameViews v p → IsPool p → IsPool v
  SameViews-IsPool v p h w =
      let l : look v.frames ≡ look p.frames = λ i j. h.0 j i in
      let t : table v ≡ table p = ap (λ m id. HashMap.get m id) h.1 in
      subst (λ x. IsCoherent x (table v) v.disk) (sym l)
        (subst (λ x. IsCoherent (look p.frames) x v.disk) (sym t)
          (subst (λ x. IsCoherent (look p.frames) (table p) x) (sym h.2) w))

  pub SameViews-current :
      (v p : BufferPool P) → SameViews v p → (q : PageId) → current v q ≡ current p q
  SameViews-current v p h q =
      let l : look v.frames ≡ look p.frames = λ i j. h.0 j i in
      let t : table v ≡ table p = ap (λ m id. HashMap.get m id) h.1 in
      ap (λ x. shown x (table v) v.disk q) l
      ∙ ap (λ x. shown (look p.frames) x v.disk q) t
      ∙ ap (λ x. shown (look p.frames) (table p) x q) h.2

  pub same_frames :
      (v p : BufferPool P) → v.frames ≡ p.frames → (j : ℕ) → look v.frames j ≡ look p.frames j
  same_frames v p h j = ap (λ fs. look fs j) h
