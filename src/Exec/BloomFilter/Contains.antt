-- ===== src/Exec/BloomFilter/Contains.antt =====
-- `insert` and `might_contain`.
use tensorvault.Prelude.{
  ℕ, zero, suc, ◌+◌, ◌*◌, ◌/◌, ◌%◌, ◌≤◌, ◌≡◌, refl, sym, leb, u64_mod, true, max, Bool-cases, inl,
  inr, Option, List, [], ◌∷◌, length-replicate, arith,
}
use mathlib.Core.Path.{subst}
use tensorvault.Prelude.Forall.{In}
use tensorvault.Exec.BloomFilter.{
  BloomFilter, next_power_of_two, new, with_hashes, hash_pair, test_bit, set_bits, insert,
  might_contain,
}
use tensorvault.Exec.BloomFilter.SetBits.{
  IsFilter, HasBits, set_bits-IsFilter, set_bits-HasBits, HasBits-kept, test_bits-HasBits,
  same_count,
}

counted : ℕ → BloomFilter → BloomFilter
counted k f = record f { num_items = k }

counted-HasBits :
    (k n h2 bit : ℕ) (f : BloomFilter) → HasBits n h2 bit f → HasBits n h2 bit (counted k f)
unfolding HasBits counted test_bit
counted-HasBits k zero h2 bit f h = tt
counted-HasBits k (suc n) h2 bit f h = (h.0, counted-HasBits k n h2 ((bit + h2) % u64_mod) f h.1)

module _ (crc : Option (ℕ → ℕ → ℕ)) where
  -- All the bits of a key are set.
  HasKey : ℕ → BloomFilter → Type 0
  HasKey key f = HasBits f.num_hashes (hash_pair crc key).1 (hash_pair crc key).0 f

  abbrev stored : ℕ → BloomFilter → BloomFilter
  stored key f = set_bits f.num_hashes (hash_pair crc key).1 (hash_pair crc key).0 f

  inserted :
      (key : ℕ) (f : BloomFilter)
      → insert crc key f ≡ counted (((stored key f).num_items + 1) % u64_mod) (stored key f)
  unfolding insert counted
  inserted key f = refl

  counted-HasKey :
      (k key : ℕ) (f g : BloomFilter)
      → g.num_hashes ≡ f.num_hashes
      → HasBits f.num_hashes (hash_pair crc key).1 (hash_pair crc key).0 g
      → HasKey key (counted k g)
  unfolding HasKey counted
  counted-HasKey k key f g e h =
      subst (λ m. HasBits m (hash_pair crc key).1 (hash_pair crc key).0 (counted k g)) (sym e)
        (counted-HasBits k f.num_hashes (hash_pair crc key).1 (hash_pair crc key).0 g h)

  stored-IsFilter : (key : ℕ) (f : BloomFilter) → IsFilter f → IsFilter (insert crc key f)
  unfolding insert
  stored-IsFilter key f w =
      set_bits-IsFilter f.num_hashes (hash_pair crc key).1 (hash_pair crc key).0 f w

  insert-HasKey : (key : ℕ) (f : BloomFilter) → IsFilter f → HasKey key (insert crc key f)
  insert-HasKey key f w = subst (HasKey key) (sym (inserted key f)) (
      counted-HasKey _ key f (stored key f)
        (same_count f.num_hashes (hash_pair crc key).1 (hash_pair crc key).0 f)
        (set_bits-HasBits f.num_hashes (hash_pair crc key).1 (hash_pair crc key).0 f w))

  HasKey-insert :
      (key other : ℕ) (f : BloomFilter)
      → IsFilter f
      → HasKey key f
      → HasKey key (insert crc other f)
  HasKey-insert key other f w h = subst (HasKey key) (sym (inserted other f)) (
      counted-HasKey _ key f (stored other f)
        (same_count f.num_hashes (hash_pair crc other).1 (hash_pair crc other).0 f)
        (HasBits-kept f.num_hashes (hash_pair crc other).1 (hash_pair crc other).0 f.num_hashes
          (hash_pair crc key).1 (hash_pair crc key).0 f w (unfold HasKey in h)))

  might_contain-HasKey : (key : ℕ) (f : BloomFilter) → HasKey key f → might_contain crc key f ≡ true
  unfolding might_contain HasKey
  might_contain-HasKey key f h =
      test_bits-HasBits f.num_hashes (hash_pair crc key).1 (hash_pair crc key).0 f h

  abbrev pub insert_all : List ℕ → BloomFilter → BloomFilter
  insert_all [] f = f
  insert_all (k ∷ keys) f = insert_all keys (insert crc k f)

  HasKey-insert_all :
      (keys : List ℕ) (key : ℕ) (f : BloomFilter)
      → IsFilter f
      → HasKey key f
      → HasKey key (insert_all keys f)
  HasKey-insert_all [] key f w h = h
  HasKey-insert_all (k ∷ keys) key f w h =
      HasKey-insert_all keys key (insert crc k f) (stored-IsFilter k f w)
        (HasKey-insert key k f w h)

  -- No key that was inserted is denied, whatever was inserted after it. Every word that the mask
  -- leaves is a word of the filter.
  pub might_contain-insert_all :
      (keys : List ℕ) (key : ℕ) (f : BloomFilter)
      → IsFilter f
      → In key keys
      → might_contain crc key (insert_all keys f) ≡ true
  might_contain-insert_all [] key f w i = absurd i
  might_contain-insert_all (k ∷ keys) key f w (inl e) =
      might_contain-HasKey key (insert_all keys (insert crc k f)) (
        HasKey-insert_all keys key (insert crc k f) (stored-IsFilter k f w)
          (subst (λ x. HasKey x (insert crc k f)) e (insert-HasKey k f w)))
  might_contain-insert_all (k ∷ keys) key f w (inr i) =
      might_contain-insert_all keys key (insert crc k f) (stored-IsFilter k f w) i

positive : (fuel p n : ℕ) → 1 ≤ p → 1 ≤ next_power_of_two fuel p n
unfolding next_power_of_two
positive zero p n h = h
positive (suc fuel) p n h = elim (Bool-cases (leb n p)) [
  | inl t ↦ rw t h
  | inr f ↦ rw f (positive fuel (2 * p) n (omega arith))
]

-- A filter that `with_hashes` makes.
pub with_hashes-IsFilter :
    (expected_items num_hashes : ℕ) → IsFilter (with_hashes expected_items num_hashes)
unfolding with_hashes new
with_hashes-IsFilter expected_items num_hashes =
    let zero_word : ℕ = 0 in
    let n = next_power_of_two 64 1 (max ((expected_items * 10 + 63) / 64) 1) in
    omega (
      arith,
      length-replicate n zero_word,
      positive 64 1 (max ((expected_items * 10 + 63) / 64) 1) (omega arith),
    )

-- A new filter denies no key that was inserted, whatever was inserted after it.
pub might_contain-with_hashes :
    (crc : Option (ℕ → ℕ → ℕ)) (expected_items num_hashes : ℕ) (keys : List ℕ) (key : ℕ)
    → In key keys
    → might_contain crc key (insert_all crc keys (with_hashes expected_items num_hashes)) ≡ true
might_contain-with_hashes crc expected_items num_hashes keys key i =
    might_contain-insert_all crc keys key (with_hashes expected_items num_hashes)
      (with_hashes-IsFilter expected_items num_hashes) i
