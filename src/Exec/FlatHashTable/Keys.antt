-- ===== src/Exec/FlatHashTable/Keys.antt =====
-- What a walk of the probe loop does to the set of keys and to the shape of the table.
use mathlib.Core.Path.{subst}
use native.Mathlib.Decide.{ℕ_discrete}
use tensorvault.Prelude.{
  ℕ, zero, suc, ◌+◌, ◌-◌, ◌^◌, ◌<◌, ◌≤◌, ◌≡◌, ◌≢◌, refl, sym, ◌∙◌, ◌⊎◌, inl, inr, ◌↔◌, Bool, true,
  false, List, [], ◌∷◌, get_or, set, length, length-set, get_or-set, get_or-set_other, arith,
}
use tensorvault.Exec.FlatHashTable.{FlatHashTable, place}
use tensorvault.Exec.FlatHashTable.Probe.{Walk, free, found, displaces, passes, found_free, next-lt}

-- The occupied slots
abbrev pub occupied_count : List Bool → ℕ
occupied_count [] = 0
occupied_count (true ∷ bs) = suc (occupied_count bs)
occupied_count (false ∷ bs) = occupied_count bs

-- A table of 2 ^ k slots, with its number of occupied ones
pub record IsTable (k : ℕ) (t : FlatHashTable) : Type 0 where
  pub slots : t.capacity ≡ 2 ^ k
  pub masked : t.mask ≡ 2 ^ k - 1
  pub all_keys : length t.keys ≡ 2 ^ k
  pub all_occupied : length t.occupied ≡ 2 ^ k
  pub all_states : length t.states ≡ 2 ^ k
  pub counted : t.len ≡ occupied_count t.occupied

abbrev pub HasKey : ℕ → FlatHashTable → Type 0
HasKey q t = (i : ℕ) × (get_or t.occupied i false ≡ true) × (get_or t.keys i 0 ≡ q)

in_range : (bs : List Bool) (i : ℕ) → get_or bs i false ≡ true → i < length bs
in_range [] i e = absurd cc
in_range (b ∷ bs) zero e = omega arith
in_range (b ∷ bs) (suc i) e = omega (arith, in_range bs i e)

-- The keys with `key` written at `idx`: those of the other slots, and `key`
module _ (t : FlatHashTable) (idx key dist : ℕ) (inside : idx < length t.keys) where
  placed :
      (q : ℕ)
      → get_or t.occupied idx false ≡ true
      → HasKey q (place idx dist key t)
      → HasKey q t ⊎ (q ≡ key)
  unfolding place
  placed q o (i, oi, e) = elim (ℕ_discrete idx i) [
    | yes same ↦ inr (
        sym (
          sym (get_or-set t.keys idx key 0 inside)
          ∙ subst (λ j. get_or (set t.keys idx key) j 0 ≡ q) (sym same) e))
    | no other ↦ inl (i, oi, sym (get_or-set_other t.keys idx i key 0 other) ∙ e)
  ]

  place_keeps : (q : ℕ) → HasKey q t → HasKey q (place idx dist key t) ⊎ (q ≡ get_or t.keys idx 0)
  unfolding place
  place_keeps q (i, oi, e) = elim (ℕ_discrete idx i) [
    | yes same ↦ inr (sym (subst (λ j. get_or t.keys j 0 ≡ q) (sym same) e))
    | no other ↦ inl (i, oi, get_or-set_other t.keys idx i key 0 other ∙ e)
  ]

  taken :
      (q : ℕ)
      → idx < length t.occupied
      → get_or t.occupied idx false ≡ false
      → HasKey q (found_free idx dist key t) ↔ (HasKey q t ⊎ (q ≡ key))
  unfolding place
  taken q room o = (
    (λ (i, oi, e). elim (ℕ_discrete idx i) [
      | yes same ↦ inr (
          sym (
            sym (get_or-set t.keys idx key 0 inside)
            ∙ subst (λ j. get_or (set t.keys idx key) j 0 ≡ q) (sym same) e))
      | no other ↦ inl (
        i,
        sym (get_or-set_other t.occupied idx i true false other) ∙ oi,
        sym (get_or-set_other t.keys idx i key 0 other) ∙ e,
      )
    ]),
    λ w. elim w [
      | inl (i, oi, e) ↦
          let other : idx ≢ i = λ same. cc in
          (
            i,
            get_or-set_other t.occupied idx i true false other ∙ oi,
            get_or-set_other t.keys idx i key 0 other ∙ e,
          )
      | inr e ↦ (
        idx,
        get_or-set t.occupied idx true false room,
        get_or-set t.keys idx key 0 inside ∙ sym e,
      )
    ],
  )

count_taken :
    (bs : List Bool) (i : ℕ)
    → i < length bs
    → get_or bs i false ≡ false
    → occupied_count (set bs i true) ≡ occupied_count bs + 1
count_taken [] i h e = absurd (omega arith)
count_taken (true ∷ bs) zero h e = absurd cc
count_taken (false ∷ bs) zero h e = omega arith
count_taken (true ∷ bs) (suc i) h e = omega (arith, count_taken bs i (omega arith) e)
count_taken (false ∷ bs) (suc i) h e = count_taken bs i (omega arith) e

module _ {k : ℕ} {t : FlatHashTable} (w : IsTable k t) (idx dist key : ℕ) where
  place-IsTable : IsTable k (place idx dist key t)
  unfolding place
  place-IsTable = record {
    slots = w.slots;
    masked = w.masked;
    all_keys = length-set t.keys idx key ∙ w.all_keys;
    all_occupied = w.all_occupied;
    all_states = w.all_states;
    counted = w.counted;
  }

  found_free-IsTable :
      idx < 2 ^ k → get_or t.occupied idx false ≡ false → IsTable k (found_free idx dist key t)
  unfolding place
  found_free-IsTable h o = record {
    slots = w.slots;
    masked = w.masked;
    all_keys = length-set t.keys idx key ∙ w.all_keys;
    all_occupied = length-set t.occupied idx true ∙ w.all_occupied;
    all_states = w.all_states;
    counted =
        omega (arith, w.counted, count_taken t.occupied idx (omega (arith, w.all_occupied)) o);
  }

-- What a walk leaves behind: a table of the same size, at most one key longer, with the same states
-- in the slots; it holds just the keys of before and the one carried.
pub record Added (k key : ℕ) (t u : FlatHashTable) : Type 0 where
  pub table : IsTable k u
  pub states_kept : u.states ≡ t.states
  pub longer : u.len ≤ t.len + 1
  pub holds : (q : ℕ) → HasKey q u ↔ (HasKey q t ⊎ (q ≡ key))

module _ {k : ℕ} {t : FlatHashTable} (w : IsTable k t) (idx dist key : ℕ) (h : idx < 2 ^ k) where
  inside : idx < length t.keys
  inside = omega (arith, w.all_keys)

  Added-found_free : get_or t.occupied idx false ≡ false → Added k key t (found_free idx dist key t)
  unfolding place
  Added-found_free o = record {
    table = found_free-IsTable w idx dist key h o;
    states_kept = refl;
    longer = omega arith;
    holds = λ q. taken t idx key dist inside q (omega (arith, w.all_occupied)) o;
  }

  Added-found : get_or t.occupied idx false ≡ true → get_or t.keys idx 0 ≡ key → Added k key t t
  Added-found o e = record {
    table = w;
    states_kept = refl;
    longer = omega arith;
    holds = λ q. (inl, λ c. elim c [ inl a ↦ a | inr same ↦ (idx, o, e ∙ sym same) ]);
  }

  -- The key that was there is carried on.
  Added-displaces :
      (u : FlatHashTable)
      → get_or t.occupied idx false ≡ true
      → Added k (get_or t.keys idx 0) (place idx dist key t) u
      → Added k key t u
  unfolding place
  Added-displaces u o added = record {
    table = added.table;
    states_kept = added.states_kept;
    longer = added.longer;
    holds = λ q. (
      λ a. elim ((added.holds q).0 a) [
        | inl b ↦ placed t idx key dist inside q o b
        | inr old ↦ inl (idx, o, sym old)
      ],
      λ c. (added.holds q).1 (elim c [
        | inl a ↦ place_keeps t idx key dist inside q a
        | inr same ↦ inl (idx, o, get_or-set t.keys idx key 0 inside ∙ sym same)
      ]),
    );
  }

pub Walk-Added :
    (k : ℕ) {idx dist key slot : ℕ} {t u : FlatHashTable}
    → IsTable k t
    → idx < 2 ^ k
    → Walk idx dist key t u slot
    → Added k key t u × (slot < 2 ^ k)
Walk-Added k {idx} {dist} {key} w h (free o) = (Added-found_free w idx dist key h o, h)
Walk-Added k {idx} {dist} {key} w h (found o e) = (Added-found w idx dist key h o e, h)
Walk-Added k {idx} {dist} {key} {t = t} {u = u} w h (displaces o n d rest) =
    let (added, slot_in) =
      Walk-Added k (place-IsTable w idx dist key) (next-lt k idx t w.masked) rest in
    (Added-displaces w idx dist key h u o added, slot_in)
Walk-Added k {idx} {t = t} w h (passes o n d rest) = Walk-Added k w (next-lt k idx t w.masked) rest
