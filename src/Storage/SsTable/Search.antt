-- ===== src/Storage/SsTable/Search.antt =====
-- The rounds of `binary_search`.
use tensorvault.Prelude.{
  ℕ, zero, suc, ◌+◌, ◌-◌, ◌/◌, ◌%◌, ◌^◌, ◌≤◌, ◌<◌, ◌≡◌, u64_mod, length, ◌&&◌, refl, sym, ap, ◌∙◌,
  ltb, leb, ◌==◌, if◌then◌else◌, Bool, true, false, Option, none, some, List, ◌⊎◌, arith, inl, inr,
  Bool-cases, lt→ltb,
}
use mathlib.Core.Path.{subst}
use native.Mathlib.Nat.{pow-suc}
use tensorvault.Prelude.Digits.{pow_below}
use tensorvault.Prelude.Results.{Result, ok, err, ◌>>=◌}
use tensorvault.Storage.Page.{header_size}
use tensorvault.Storage.SsTable.Range.{
  search_range, order_cases, search_range_done, search_from-search_range,
}
use tensorvault.Storage.SsTable.{
  slice, page_offset, cell_at, SsTableReader, TableError, first_cell, search_from, binary_search,
  one_less,
}

pub middle : ℕ → ℕ → ℕ
middle lo stop = (lo + (stop - 1)) / 2

-- A search that did not run out of fuel.
pub IsEnded {ℓ} : {A : Type ℓ} → Result A TableError → Type 0
IsEnded (ok a) = Unit
IsEnded (err e) = e ≡ TableError.panicked

bind-IsEnded {ℓ κ} :
    {A : Type ℓ} {B : Type κ} (a : Result A TableError) (f : A → B)
    → IsEnded a
    → IsEnded (a >>= λ x. ok (f x))
unfolding IsEnded
bind-IsEnded (ok a) f h = tt
bind-IsEnded (err e) f h = h

slice-IsEnded : (start k : ℕ) (mmap : List ℕ) → IsEnded (slice start k mmap)
unfolding slice IsEnded
slice-IsEnded start k mmap =
    elim (Bool-cases
      (leb start ((start + k) % u64_mod) && leb ((start + k) % u64_mod) (length mmap))) [
        | inl t ↦ rw t tt
        | inr f ↦ rw f refl
      ]

cell_at-IsEnded : (r : SsTableReader) (found : Result ℕ TableError) → IsEnded (cell_at r found)
unfolding cell_at
cell_at-IsEnded r (ok offset) =
    let pos = (offset + header_size) % u64_mod in
    elim (Bool-cases (ltb (length r.mmap) ((pos + 8) % u64_mod))) [
      | inl t ↦ rw t (unfold IsEnded in tt)
      | inr f ↦ rw f (bind-IsEnded (slice pos 8 r.mmap) _ (slice-IsEnded pos 8 r.mmap))
    ]
cell_at-IsEnded r (err TableError.panicked) = unfold IsEnded in refl
cell_at-IsEnded r (err e) = unfold IsEnded in tt

first_cell-IsEnded : (i : ℕ) (r : SsTableReader) → IsEnded (first_cell i r)
unfolding first_cell
first_cell-IsEnded i r = cell_at-IsEnded r (page_offset i r)

Cell-cases :
    (x : Result (Option ℕ) TableError)
    → (x ≡ ok none) ⊎ ((c : ℕ) × (x ≡ ok (some c))) ⊎ ((e : TableError) × (x ≡ err e))
Cell-cases (ok none) = inl refl
Cell-cases (ok (some c)) = inr (inl (c, refl))
Cell-cases (err e) = inr (inr (e, refl))

choice_true {ℓ} : {A : Type ℓ} (b : Bool) (x y : A) → b ≡ true → (if b then x else y) ≡ x
choice_true b x y h = rw h refl

choice_false {ℓ} : {A : Type ℓ} (b : Bool) (x y : A) → b ≡ false → (if b then x else y) ≡ y
choice_false b x y h = rw h refl

no_pages : (n : ℕ) → n ≤ 0 → (n == 0) ≡ true
no_pages n h = ground arith

pages : (n : ℕ) → 0 < n → (n == 0) ≡ false
pages n h = ground arith

sixty_two : (k : ℕ) → k ≤ 62 → 62 ≤ k → k ≡ 62
sixty_two k h g = omega arith

pub beyond : (c key : ℕ) → leb c key ≡ false → key < c
beyond c key h = ground arith

module _ (r : SsTableReader) (key : ℕ) where
  round_missing :
      (fuel lo stop : ℕ) (result : Option ℕ)
      → lo < stop
      → first_cell (middle lo stop) r ≡ ok none
      → search_range (suc fuel) key lo stop result r ≡ ok result
  unfolding search_range middle
  round_missing fuel lo stop result h e = rw (lt→ltb lo stop h, e) refl

  round_failed :
      (fuel lo stop : ℕ) (result : Option ℕ) (e : TableError)
      → lo < stop
      → first_cell (middle lo stop) r ≡ err e
      → search_range (suc fuel) key lo stop result r ≡ err e
  unfolding search_range middle
  round_failed fuel lo stop result e h q = rw (lt→ltb lo stop h, q) refl

  pub round_upper :
      (fuel lo stop c : ℕ) (result : Option ℕ)
      → lo < stop
      → first_cell (middle lo stop) r ≡ ok (some c)
      → leb c key ≡ true
      → search_range (suc fuel) key lo stop result r
        ≡ search_range fuel key (suc (middle lo stop)) stop (some (middle lo stop)) r
  unfolding search_range middle
  round_upper fuel lo stop c result h e l = rw (lt→ltb lo stop h, e, l) refl

  pub round_lower :
      (fuel lo stop c : ℕ) (result : Option ℕ)
      → lo < stop
      → first_cell (middle lo stop) r ≡ ok (some c)
      → leb c key ≡ false
      → search_range (suc fuel) key lo stop result r
        ≡ search_range fuel key lo (middle lo stop) result r
  unfolding search_range middle
  round_lower fuel lo stop c result h e l = rw (lt→ltb lo stop h, e, l) refl

  pub middle-bounds : (lo stop : ℕ) → lo < stop → (lo ≤ middle lo stop) × (middle lo stop < stop)
  unfolding middle
  middle-bounds lo stop h = (omega arith, omega arith)

  pub upper_half :
      (k lo stop : ℕ) → lo < stop → stop < lo + 2 ^ suc k → stop < suc (middle lo stop) + 2 ^ k
  unfolding middle
  upper_half k lo stop l h = omega (arith, pow-suc 2 k)

  pub lower_half : (k lo stop : ℕ) → lo < stop → stop < lo + 2 ^ suc k → middle lo stop < lo + 2 ^ k
  unfolding middle
  lower_half k lo stop l h = omega (arith, pow-suc 2 k)

  -- In `k` rounds a range of less than 2 ^ k pages is searched.
  search_range-IsEnded :
      (k lo stop : ℕ) (result : Option ℕ)
      → stop < lo + 2 ^ k
      → IsEnded (search_range k key lo stop result r)
  search_range-IsEnded zero lo stop result h =
      rw (search_range_done zero key lo stop result r (omega arith)) (unfold IsEnded in tt)
  search_range-IsEnded (suc k) lo stop result h = elim (order_cases lo stop) [
    | inr g ↦ rw (search_range_done (suc k) key lo stop result r g) (unfold IsEnded in tt)
    | inl l ↦ elim (Cell-cases (first_cell (middle lo stop) r)) [
      | inl e ↦ rw (round_missing k lo stop result l e) (unfold IsEnded in tt)
      | inr (inr (e, q)) ↦
          rw (round_failed k lo stop result e l q)
            (subst IsEnded q (first_cell-IsEnded (middle lo stop) r))
      | inr (inl (c, e)) ↦ elim (Bool-cases (leb c key)) [
        | inl u ↦ rw (round_upper k lo stop c result l e u) (
            search_range-IsEnded k (suc (middle lo stop)) stop (some (middle lo stop))
              (upper_half k lo stop l h))
        | inr d ↦
            rw (round_lower k lo stop c result l e d)
              (search_range-IsEnded k lo (middle lo stop) result (lower_half k lo stop l h))
      ]
    ]
  ]

  -- More rounds than that change nothing.
  search_range_more :
      (k m lo stop : ℕ) (result : Option ℕ)
      → stop < lo + 2 ^ k
      → k ≤ m
      → search_range m key lo stop result r ≡ search_range k key lo stop result r
  search_range_more zero m lo stop result h g =
      search_range_done m key lo stop result r (omega arith)
      ∙ sym (search_range_done zero key lo stop result r (omega arith))
  search_range_more (suc k) zero lo stop result h g = absurd (omega arith)
  search_range_more (suc k) (suc m) lo stop result h g = elim (order_cases lo stop) [
    | inr d ↦
        search_range_done (suc m) key lo stop result r d
        ∙ sym (search_range_done (suc k) key lo stop result r d)
    | inl l ↦ elim (Cell-cases (first_cell (middle lo stop) r)) [
      | inl e ↦ round_missing m lo stop result l e ∙ sym (round_missing k lo stop result l e)
      | inr (inr (e, q)) ↦
          round_failed m lo stop result e l q ∙ sym (round_failed k lo stop result e l q)
      | inr (inl (c, e)) ↦ elim (Bool-cases (leb c key)) [
        | inl u ↦
            round_upper m lo stop c result l e u
            ∙ search_range_more k m (suc (middle lo stop)) stop (some (middle lo stop))
                (upper_half k lo stop l h) (omega arith)
            ∙ sym (round_upper k lo stop c result l e u)
        | inr d ↦
            round_lower m lo stop c result l e d
            ∙ search_range_more k m lo (middle lo stop) result (lower_half k lo stop l h)
                (omega arith)
            ∙ sym (round_lower k lo stop c result l e d)
      ]
    ]
  ]

  pub binary_search-search_range :
      (k : ℕ)
      → r.page_count < 2 ^ k
      → k ≤ 64
      → r.page_count ≤ 2 ^ 62
      → binary_search key r ≡ search_range k key 0 r.page_count none r
  unfolding binary_search
  binary_search-search_range k h g b = elim (order_cases 0 r.page_count) [
    | inr n ↦
        choice_true (r.page_count == 0) (ok none) _ (no_pages r.page_count n)
        ∙ sym (search_range_done k key 0 r.page_count none r n)
    | inl l ↦
        choice_false (r.page_count == 0) (ok none) _ (pages r.page_count l)
        ∙ search_from-search_range 64 key 0 r.page_count none r (omega arith) b
        ∙ search_range_more k 64 0 r.page_count none (omega arith) g
  ]

  -- `binary_search` ends: on a table of less than 2 ^ k pages, where k is at most 62, it is the
  -- search of at most `k` rounds, also when the index is damaged.
  pub binary_search-IsEnded :
      (k : ℕ)
      → r.page_count < 2 ^ k
      → k ≤ 62
      → (binary_search key r ≡ search_from k key 0 (one_less r.page_count) none r)
        × IsEnded (binary_search key r)
  binary_search-IsEnded k h g =
      let b : r.page_count ≤ 2 ^ 62 = elim (order_cases k 62) [
        | inl l ↦ omega (arith, h, pow_below 62 k l)
        | inr e ↦ omega (arith, h, ap (λ (n : ℕ). 2 ^ n) (sixty_two k g e))
      ] in
      let same = binary_search-search_range k h (omega arith) b in
      (
        same ∙ sym (search_from-search_range k key 0 r.page_count none r (omega arith) b),
        rw same (search_range-IsEnded k 0 r.page_count none (omega arith)),
      )
