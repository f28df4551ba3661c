-- ===== src/Exec/FlatHashTable/Room.antt =====
-- `insert` in a table with room.
use Prim.Native.Nat.{bit_and}
use mathlib.Core.Path.{subst}
use native.Mathlib.Nat.{mod-eq_of_lt, mod-lt, add-mod_right, one-le-pow}
use tensorvault.Prelude.{
  ℕ, suc, ◌+◌, ◌-◌, ◌*◌, ◌%◌, ◌^◌, ◌<◌, ◌≤◌, ◌≡◌, refl, sym, ap, ◌∙◌, inl, inr, ltb, ltb→lt, le→ltb,
  Bool, true, false, Bool-cases, Option, some, List, [], ◌∷◌, get_or, length, arith,
}
use tensorvault.Prelude.Masks.{bit_and_low}
use tensorvault.Storage.Bytes.{to_le_bytes}
use tensorvault.Exec.FlatHashTable.{FlatHashTable, insert}
use tensorvault.Exec.FlatHashTable.Probe.{Walk, Returns, probe-Returns}
use tensorvault.Exec.FlatHashTable.Keys.{IsTable, Added, Walk-Added, occupied_count}

-- A list with fewer true values than values has a false one.
find_free :
    (bs : List Bool)
    → occupied_count bs < length bs
    → (j : ℕ) × (j < length bs) × (get_or bs j false ≡ false)
find_free [] h = absurd (omega arith)
find_free (false ∷ bs) h = (0, omega arith, refl)
find_free (true ∷ bs) h = let (j, inside, e) = find_free bs (omega arith) in (suc j, omega arith, e)

-- The steps from one index to another, round the table
steps_to : (n idx j : ℕ) → idx < n → j < n → (e : ℕ) × (e < n) × ((idx + e) % n ≡ j)
steps_to n idx j a b = elim (Bool-cases (ltb j idx)) [
  | inl before ↦
      let lt = ltb→lt j idx before in
      (n + j - idx, omega arith, ap (λ m. m % n) (omega arith) ∙ add-mod_right j n ∙ mod-eq_of_lt b)
  | inr after ↦
      let le : idx ≤ j = ground (arith, after) in
      (j - idx, omega arith, ap (λ m. m % n) (omega arith) ∙ mod-eq_of_lt b)
]

-- The table is at most three quarters full.
abbrev pub IsRoomy : FlatHashTable → Type 0
IsRoomy t = t.len * 4 ≤ t.capacity * 3

module _ {k : ℕ} {t : FlatHashTable} (w : IsTable k t) (roomy : IsRoomy t) where
  -- In a table with room the loop ends within one round of each slot.
  probe_within : (idx dist key : ℕ) → idx < 2 ^ k → Returns t.capacity idx dist key t
  probe_within idx dist key h =
      let one = one-le-pow k 2 (omega arith) in
      let (j, inside, e) =
        find_free t.occupied (omega (arith, w.counted, w.slots, w.all_occupied)) in
      let (steps, few, there) = steps_to (2 ^ k) idx j h (omega (arith, w.all_occupied)) in
      probe-Returns k steps t.capacity idx dist key t w.masked (omega (arith, w.slots)) h
        (subst (λ i. get_or t.occupied i false ≡ false) (sym there) e)

module _ (xxh3_64 : List ℕ → ℕ) where
  abbrev pub home : ℕ → ℕ → ℕ
  home key k = xxh3_64 (to_le_bytes 8 key) % 2 ^ k

  -- What `insert` answers in a table of 2 ^ k slots
  pub record Inserted (k key : ℕ) (t : FlatHashTable) (answer : Option (FlatHashTable × ℕ))
      : Type 0 where
    pub after : FlatHashTable
    pub slot : ℕ
    pub answers : answer ≡ some (after, slot)
    pub added : Added k key t after
    pub slot_in : slot < 2 ^ k
    pub walk : Walk (home key k) 0 key t after slot

  pub insert_within :
      (depth k key : ℕ) (t : FlatHashTable)
      → IsTable k t
      → IsRoomy t
      → Inserted k key t (insert xxh3_64 (suc depth) key t)
  unfolding insert
  insert_within depth k key t w roomy =
      let h : home key k < 2 ^ k =
        mod-lt (xxh3_64 (to_le_bytes 8 key)) (one-le-pow k 2 (omega arith)) in
      let start : bit_and (xxh3_64 (to_le_bytes 8 key)) t.mask ≡ home key k =
        ap (bit_and (xxh3_64 (to_le_bytes 8 key))) w.masked
        ∙ bit_and_low k (xxh3_64 (to_le_bytes 8 key)) in
      let (u, slot, e, walk) = probe_within w roomy (home key k) 0 key h in
      let (added, slot_in) = Walk-Added k w h walk in
      record {
        after = u;
        slot = slot;
        answers = rw (insert, le→ltb (t.capacity * 3) (t.len * 4) roomy, start) e;
        added = added;
        slot_in = slot_in;
        walk = walk;
      }
