-- ===== src/Exec/FlatHashTable/Fresh.antt =====
-- The tables without keys.
use mathlib.Core.Path.{subst}
use native.Mathlib.Nat.{pow-suc}
use tensorvault.Prelude.{
  ℕ, zero, suc, ◌+◌, ◌*◌, ◌^◌, ◌≤◌, ◌≡◌, refl, sym, ap, ◌∙◌, inl, inr, max, leb, true, false,
  Bool-cases, length, replicate, length-replicate, get_or-replicate, arith,
}
use tensorvault.Exec.BloomFilter.{next_power_of_two}
use tensorvault.Exec.FlatHashTable.{FlatHashTable, agg_new, free_table, new}
use tensorvault.Exec.FlatHashTable.Keys.{IsTable, HasKey, occupied_count}

count_free : (n : ℕ) → occupied_count (replicate n false) ≡ 0
count_free zero = refl
count_free (suc n) = count_free n

pub free_table-IsTable : (k : ℕ) → IsTable k (free_table (2 ^ k))
unfolding free_table
free_table-IsTable k = record {
  slots = refl;
  masked = refl;
  all_keys = length-replicate (2 ^ k) 0;
  all_occupied = length-replicate (2 ^ k) false;
  all_states = length-replicate (2 ^ k) agg_new;
  counted = sym (count_free (2 ^ k));
}

pub no_keys : (n q : ℕ) → ¬ HasKey q (free_table n)
unfolding free_table
no_keys n q (i, o, e) = absurd (true-ne (sym o ∙ get_or-replicate n i false))
  where
    true-ne : ¬ (true ≡ false)
    true-ne e = cc

pub free_len : (n : ℕ) → (free_table n).len ≡ 0
unfolding free_table
free_len n = refl

pub rehash_room :
    (k : ℕ) (t : FlatHashTable)
    → IsTable k t
    → ((free_table (t.capacity * 2)).len + length t.occupied) * 4
      ≤ (free_table (t.capacity * 2)).capacity * 3
unfolding free_table
rehash_room k t w = omega (arith, w.slots, w.all_occupied)

next_power_of_two-pow : (fuel j n : ℕ) → (k : ℕ) × (next_power_of_two fuel (2 ^ j) n ≡ 2 ^ k)
unfolding next_power_of_two
next_power_of_two-pow zero j n = (j, refl)
next_power_of_two-pow (suc fuel) j n =
    let (k, e) = next_power_of_two-pow fuel (suc j) n in
    elim (Bool-cases (leb n (2 ^ j))) [
      | inl here ↦ (j, rw here refl)
      | inr on ↦ (k, rw on (ap (λ p. next_power_of_two fuel p n) (omega (arith, pow-suc 2 j)) ∙ e))
    ]

max_pow : (k : ℕ) → (j : ℕ) × (max (2 ^ k) 16 ≡ 2 ^ j)
max_pow k = elim (Bool-cases (leb 16 (2 ^ k))) [
  | inl large ↦ (k, ground (arith, large))
  | inr small ↦ (4, ground (arith, small))
]

pub new-IsTable :
    (expected : ℕ) → (k : ℕ) × IsTable k (new expected) × ((q : ℕ) → ¬ HasKey q (new expected))
unfolding new
new-IsTable expected =
    let (j, e) = next_power_of_two-pow 64 0 (expected * 2) in
    let (k, large) = max_pow j in
    let whole : max (next_power_of_two 64 1 (expected * 2)) 16 ≡ 2 ^ k =
      ap (λ n. max n 16) e ∙ large in
    (
      k,
      subst (λ n. IsTable k (free_table n)) (sym whole) (free_table-IsTable k),
      no_keys (max (next_power_of_two 64 1 (expected * 2)) 16),
    )
