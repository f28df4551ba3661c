-- ===== src/Exec/FlatHashTable/Probe.antt =====
-- The branches of the probe loop, and the walk of its index round the table.
use Prim.Native.Nat.{bit_and}
use mathlib.Core.Path.{subst}
use native.Mathlib.Nat.{mod-eq_of_lt, mod-lt, mod-add-mod, one-le-pow}
use tensorvault.Prelude.{
  ℕ, zero, suc, ◌+◌, ◌-◌, ◌%◌, ◌^◌, ◌<◌, ◌≤◌, ◌≡◌, ◌≢◌, refl, sym, ap, ◌∙◌, inl, inr, min, ltb,
  ◌==◌, true, false, Bool-cases, ==_iff, ltb→lt, some, get_or, set, arith,
}
use tensorvault.Prelude.Masks.{bit_and_low}
use tensorvault.Exec.FlatHashTable.{FlatHashTable, place, probe}

abbrev pub found_free : ℕ → ℕ → ℕ → FlatHashTable → FlatHashTable
found_free idx dist key t = record (place idx dist key t) {
  occupied = set t.occupied idx true;
  len = t.len + 1;
}

abbrev pub next : ℕ → FlatHashTable → ℕ
next idx t = bit_and (idx + 1) t.mask

module _ (fuel idx dist key : ℕ) (t : FlatHashTable) where
  pub probe_free :
      get_or t.occupied idx false ≡ false
      → probe (suc fuel) idx dist key t ≡ some (found_free idx dist key t, idx)
  unfolding probe
  probe_free e = rw (probe, e) refl

  pub probe_found :
      get_or t.occupied idx false ≡ true
      → (get_or t.keys idx 0 == key) ≡ true
      → probe (suc fuel) idx dist key t ≡ some (t, idx)
  unfolding probe
  probe_found e k = rw (probe, e, k) refl

  pub probe_displaces :
      get_or t.occupied idx false ≡ true
      → (get_or t.keys idx 0 == key) ≡ false
      → ltb (get_or t.probe_dist idx 0) dist ≡ true
      → probe (suc fuel) idx dist key t
        ≡ probe fuel
            (next idx t)
            (min (get_or t.probe_dist idx 0 + 1) 255)
            (get_or t.keys idx 0)
            (place idx dist key t)
  unfolding probe
  probe_displaces e k d = rw (probe, e, k, d) refl

  pub probe_passes :
      get_or t.occupied idx false ≡ true
      → (get_or t.keys idx 0 == key) ≡ false
      → ltb (get_or t.probe_dist idx 0) dist ≡ false
      → probe (suc fuel) idx dist key t ≡ probe fuel (next idx t) (min (dist + 1) 255) key t
  unfolding probe
  probe_passes e k d = rw (probe, e, k, d) refl

pub next_lem : (k idx : ℕ) (t : FlatHashTable) → t.mask ≡ 2 ^ k - 1 → next idx t ≡ (idx + 1) % 2 ^ k
next_lem k idx t h = ap (bit_and (idx + 1)) h ∙ bit_and_low k (idx + 1)

-- A free slot `e` steps ahead is `e - 1` steps ahead of the next index.
pub ahead :
    (k idx e : ℕ) (t : FlatHashTable)
    → t.mask ≡ 2 ^ k - 1
    → (next idx t + e) % 2 ^ k ≡ (idx + suc e) % 2 ^ k
ahead k idx e t h =
    rw (next_lem k idx t h, mod-add-mod (idx + 1) (2 ^ k) e) (ap (λ n. n % 2 ^ k) (omega arith))

pub next-lt : (k idx : ℕ) (t : FlatHashTable) → t.mask ≡ 2 ^ k - 1 → next idx t < 2 ^ k
next-lt k idx t h = rw (next_lem k idx t h) (mod-lt (idx + 1) (one-le-pow k 2 (omega arith)))

-- The rounds of the loop, from the index, the distance and the key that are carried: the table and
-- the slot that it ends with.
pub data Walk : ℕ → ℕ → ℕ → FlatHashTable → FlatHashTable → ℕ → Type 0 where
  free :
      {idx dist key : ℕ} {t : FlatHashTable}
      → get_or t.occupied idx false ≡ false
      → Walk idx dist key t (found_free idx dist key t) idx
  found :
      {idx dist key : ℕ} {t : FlatHashTable}
      → get_or t.occupied idx false ≡ true
      → get_or t.keys idx 0 ≡ key
      → Walk idx dist key t t idx
  displaces :
      {idx dist key slot : ℕ} {t u : FlatHashTable}
      → get_or t.occupied idx false ≡ true
      → get_or t.keys idx 0 ≢ key
      → get_or t.probe_dist idx 0 < dist
      → Walk
          (next idx t)
          (min (get_or t.probe_dist idx 0 + 1) 255)
          (get_or t.keys idx 0)
          (place idx dist key t)
          u
          slot
      → Walk idx dist key t u slot
  passes :
      {idx dist key slot : ℕ} {t u : FlatHashTable}
      → get_or t.occupied idx false ≡ true
      → get_or t.keys idx 0 ≢ key
      → dist ≤ get_or t.probe_dist idx 0
      → Walk (next idx t) (min (dist + 1) 255) key t u slot
      → Walk idx dist key t u slot

abbrev pub FreeAhead : ℕ → ℕ → ℕ → FlatHashTable → Type 0
FreeAhead k idx e t = get_or t.occupied ((idx + e) % 2 ^ k) false ≡ false

-- The loop returns, after the rounds of a walk.
abbrev pub Returns : ℕ → ℕ → ℕ → ℕ → FlatHashTable → Type 0
Returns fuel idx dist key t =
    (u : FlatHashTable) × (slot : ℕ) × (probe fuel idx dist key t ≡ some (u, slot))
    × Walk idx dist key t u slot

-- With a free slot `e` steps ahead, more than `e` rounds are enough.
pub probe-Returns :
    (k e fuel idx dist key : ℕ) (t : FlatHashTable)
    → t.mask ≡ 2 ^ k - 1
    → e < fuel
    → idx < 2 ^ k
    → FreeAhead k idx e t
    → Returns fuel idx dist key t
unfolding place
probe-Returns k e zero idx dist key t m h i ahead_free = absurd (omega arith)
probe-Returns k zero (suc fuel) idx dist key t m h i ahead_free =
    let here : get_or t.occupied idx false ≡ false =
      subst (λ n. get_or t.occupied n false ≡ false)
        (ap (λ n. n % 2 ^ k) (omega arith) ∙ mod-eq_of_lt i) ahead_free in
    (found_free idx dist key t, idx, probe_free fuel idx dist key t here, free here)
probe-Returns k (suc e) (suc fuel) idx dist key t m h i ahead_free =
    elim (Bool-cases (get_or t.occupied idx false)) [
      | inr o ↦ (found_free idx dist key t, idx, probe_free fuel idx dist key t o, free o)
      | inl o ↦ elim (Bool-cases (get_or t.keys idx 0 == key)) [
        | inl same ↦ (
          t,
          idx,
          probe_found fuel idx dist key t o same,
          found o ((==_iff (get_or t.keys idx 0) key).0 same),
        )
        | inr other ↦ elim (Bool-cases (ltb (get_or t.probe_dist idx 0) dist)) [
          | inl d ↦
              let (u, slot, e', w) =
                probe-Returns k e fuel (next idx t) (min (get_or t.probe_dist idx 0 + 1) 255)
                  (get_or t.keys idx 0) (place idx dist key t) m (omega arith) (next-lt k idx t m)
                  free_next in
              (
                u,
                slot,
                probe_displaces fuel idx dist key t o other d ∙ e',
                displaces o (ground (arith, other)) (ltb→lt _ _ d) w,
              )
          | inr d ↦
              let (u, slot, e', w) =
                probe-Returns k e fuel (next idx t) (min (dist + 1) 255) key t m (omega arith)
                  (next-lt k idx t m) free_next in
              (
                u,
                slot,
                probe_passes fuel idx dist key t o other d ∙ e',
                passes o (ground (arith, other)) (ground (arith, d)) w,
              )
        ]
      ]
    ]
  where
    free_next : FreeAhead k (next idx t) e t
    free_next = subst (λ n. get_or t.occupied n false ≡ false) (sym (ahead k idx e t m)) ahead_free
