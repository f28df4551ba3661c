-- ===== src/Storage/Tablet/Slots.antt =====
-- One slot of a tablet, read after a write, and the slots that are filled.
use tensorvault.Prelude.{
  ℕ, zero, suc, ◌+◌, ◌*◌, ◌<◌, ◌≡◌, refl, ap, ◌∙◌, ◌==◌, ltb, ltb→lt, lt→ltb, ◌&&◌, Bool, true,
  false, Bool-cases, inl, inr, if◌then◌else◌, Option, none, some, List, [], ◌∷◌, length, get_elem?,
  set, arith,
}
use tensorvault.Storage.Tablet.{
  Tablet, tablet_regions, region_size, flatten, filled, put_region, get_region, filled_count,
  bytes_used,
}

-- A slot filled, of which one is counted more unless it was filled before
module _ {A : Type 0} where
  flatten-set :
      (slots : List (Option A)) (i j : ℕ) (a : A)
      → i < length slots
      → flatten (get_elem? (set slots i (some a)) j)
        ≡ (if i == j then some a else flatten (get_elem? slots j))
  flatten-set [] i j a h = absurd (omega arith)
  flatten-set (s ∷ slots) zero zero a h = refl
  flatten-set (s ∷ slots) zero (suc j) a h = ground arith
  flatten-set (s ∷ slots) (suc i) zero a h = ground arith
  flatten-set (s ∷ slots) (suc i) (suc j) a h =
      ground (arith, flatten-set slots i j a (omega arith))

  filled-set :
      (slots : List (Option A)) (i : ℕ) (a : A)
      → i < length slots
      → filled (set slots i (some a))
        ≡ filled slots + (elim (flatten (get_elem? slots i)) [ none ↦ 1 | some b ↦ 0 ])
  unfolding filled
  filled-set [] i a h = absurd (omega arith)
  filled-set (none ∷ slots) zero a h = omega arith
  filled-set (some b ∷ slots) zero a h = omega arith
  filled-set (none ∷ slots) (suc i) a h = filled-set slots i a (omega arith)
  filled-set (some b ∷ slots) (suc i) a h = omega (arith, filled-set slots i a (omega arith))

with_true : {A : Type 0} (x y : A) (p : Bool) → (if p then x else y) ≡ (if p && true then x else y)
with_true x y true = refl
with_true x y false = refl

with_false : {A : Type 0} (x y : A) (p : Bool) → y ≡ (if p && false then x else y)
with_false x y true = refl
with_false x y false = refl

more_used : (a b : ℕ) → a ≡ b + 1 → a * region_size ≡ b * region_size + region_size
more_used a b e = omega arith

-- In a tablet of 1024 slots, `put_region` puts the region in its slot, and changes nothing for a slot
-- beyond them; the other slots keep theirs. A slot that was empty adds a region to `bytes_used`.
pub put_region_lem :
    {Region Tier : Type 0} (t : Tablet Region Tier) (slot j : ℕ) (r : Region)
    → length t.regions ≡ tablet_regions
    → (get_region j (put_region slot r t)
        ≡ (if (slot == j) && ltb slot tablet_regions then some r else get_region j t))
      × (slot < tablet_regions
          → get_region slot t ≡ none
          → bytes_used (put_region slot r t) ≡ bytes_used t + region_size)
unfolding get_region put_region bytes_used filled_count
put_region_lem t slot j r h = (
  elim (Bool-cases (ltb slot tablet_regions)) [
    | inl here ↦ rw here (
        flatten-set t.regions slot j r (omega (arith, ltb→lt slot tablet_regions here, h))
        ∙ with_true (some r) (get_region j t) (slot == j))
    | inr n ↦ rw n (with_false (some r) (get_region j t) (slot == j))
  ],
  λ inside empty. rw (lt→ltb slot tablet_regions inside) (
      more_used (filled (set t.regions slot (some r))) (filled t.regions) (
        filled-set t.regions slot r (omega (arith, h, inside))
        ∙ ap (λ found. filled t.regions + (elim found as (λ x. ℕ) [ none ↦ 1 | some b ↦ 0 ]))
            empty)),
)
