-- ===== src/Storage/Page/Repair.antt =====
-- The outcomes of `verify_and_correct`.
use tensorvault.Prelude.{
  ℕ, zero, suc, ◌+◌, ◌*◌, ◌/◌, ◌%◌, ◌^◌, ◌≤◌, ◌<◌, ◌≡◌, refl, sym, ◌==◌, Bool, true, false,
  Bool-cases, ◌⊎◌, inl, inr, if◌then◌else◌, Option, length, arith,
}
use Prim.Native.Nat.{bit_xor}
use mathlib.Core.Path.{subst}
use tensorvault.Prelude.Results.{Result, ok, err}
use tensorvault.Prelude.Bits.{count_ones, trailing_zeros}
use tensorvault.Storage.Page.{
  Sse42, Page, Uncorrectable, compute_parity, verify_checksum, flip, try_words, verify_and_correct,
}
use tensorvault.Storage.Page.Parity.{flip_twice}

clash : {b : Bool} → b ≡ true → b ≡ false → ⊥
clash p q = ground (arith, p, q)

later : (w j : ℕ) → w ≤ j → (w ≡ j) ⊎ (suc w ≤ j)
later w j h = ground arith

abbrev pub syndrome_of : Page → ℕ
syndrome_of p = bit_xor p.header.parity (compute_parity p.cells)

-- What `verify_and_correct` makes of the end of its search.
unfoldable pub searched : ℕ → Bool × Page → Result Bool Uncorrectable × Page
searched s (true, q) = (ok true, q)
searched s (false, q) = (err (Uncorrectable.no_flip s), q)

searched_if :
    (s : ℕ) (r : Bool × Page)
    → (if r.0 then (ok true, r.1) else (err (Uncorrectable.no_flip s), r.1)) ≡ searched s r
unfolding searched
searched_if s (true, q) = refl
searched_if s (false, q) = refl

module _ (cpu : Option Sse42) where
  -- What an outcome says of the page before and behind the call.
  pub IsOutcome : Page → Result Bool Uncorrectable × Page → Type 0
  IsOutcome p (ok false, q) = (q ≡ p) × (verify_checksum cpu p ≡ true)
  IsOutcome p (ok true, q) =
      (verify_checksum cpu p ≡ false)
      × (verify_checksum cpu q ≡ true)
      × ((i : ℕ) × (bit : ℕ) × (bit < 8) × (q ≡ flip i (2 ^ bit) p))
  IsOutcome p (err e, q) = (q ≡ p) × (verify_checksum cpu p ≡ false)

  -- The first word whose flip verifies is kept, and a search that ends has undone each flip.
  unfoldable pub IsTried : ℕ → ℕ → ℕ → Page → Bool × Page → Type 0
  IsTried w b m p (true, q) =
      (verify_checksum cpu q ≡ true) × ((j : ℕ) × (j < w) × (q ≡ flip (j * 8 + b) m p))
  IsTried w b m p (false, q) = q ≡ p

  try_words-IsTried : (n w b m : ℕ) (p : Page) → IsTried (w + n) b m p (try_words cpu n w b m p)
  unfolding IsTried try_words
  try_words-IsTried zero w b m p = refl
  try_words-IsTried (suc n) w b m p =
      let i : ℕ = w * 8 + b in
      let more : suc w + n ≡ w + suc n = omega arith in
      let rest : IsTried (w + suc n) b m p (try_words cpu n (suc w) b m p) =
        subst (λ t. IsTried t b m p (try_words cpu n (suc w) b m p)) more
          (try_words-IsTried n (suc w) b m p) in
      elim (Bool-cases (verify_checksum cpu (flip i m p))) [
        | inl t ↦ rw t (t, (w, omega arith, refl))
        | inr f ↦ rw (f, flip_twice i m p) rest
      ]

  -- A search that reaches a word whose flip verifies does not end without one.
  pub try_words_finds :
      (n w b m j : ℕ) (p : Page)
      → w ≤ j
      → j < w + n
      → verify_checksum cpu (flip (j * 8 + b) m p) ≡ true
      → (try_words cpu n w b m p).0 ≡ true
  unfolding try_words
  try_words_finds zero w b m j p l h v = absurd (omega arith)
  try_words_finds (suc n) w b m j p l h v =
      elim (Bool-cases (verify_checksum cpu (flip (w * 8 + b) m p))) [
        | inl t ↦ rw t refl
        | inr f ↦
            rw (f, flip_twice (w * 8 + b) m p)
              (elim (later w j l) [
                | inl e ↦ absurd (
                    clash (subst (λ t. verify_checksum cpu (flip (t * 8 + b) m p) ≡ true) (sym e) v)
                      f)
                | inr g ↦ try_words_finds n (suc w) b m j p g (omega arith) v
              ])
      ]

  -- The search of `verify_and_correct`
  unfoldable pub search : Page → Bool × Page
  search p =
      let bit_pos : ℕ = trailing_zeros 64 (syndrome_of p) in
      try_words cpu (length p.cells / 8) 0 (bit_pos / 8) (2 ^ (bit_pos % 8)) p

  pub verified :
      (p : Page) → verify_checksum cpu p ≡ true → verify_and_correct cpu p ≡ (ok false, p)
  unfolding verify_and_correct
  verified p h = rw h refl

  many :
      (p : Page)
      → verify_checksum cpu p ≡ false
      → (count_ones 64 (syndrome_of p) == 1) ≡ false
      → verify_and_correct cpu p ≡ (err (Uncorrectable.many_bits (syndrome_of p)), p)
  unfolding verify_and_correct
  many p h c = rw (h, c) refl

  pub one :
      (p : Page)
      → verify_checksum cpu p ≡ false
      → (count_ones 64 (syndrome_of p) == 1) ≡ true
      → verify_and_correct cpu p ≡ searched (syndrome_of p) (search p)
  unfolding verify_and_correct search searched
  one p h c = rw (h, c) (searched_if (syndrome_of p) (search p))

  pub search-IsTried :
      (p : Page)
      → IsTried
          (length p.cells / 8)
          (trailing_zeros 64 (syndrome_of p) / 8)
          (2 ^ (trailing_zeros 64 (syndrome_of p) % 8))
          p
          (search p)
  unfolding search
  search-IsTried p =
      let k : ℕ = trailing_zeros 64 (syndrome_of p) in
      let n : ℕ = length p.cells / 8 in
      let e : 0 + n ≡ n = omega arith in
      subst (λ t. IsTried t (k / 8) (2 ^ (k % 8)) p (search p)) e
        (try_words-IsTried n 0 (k / 8) (2 ^ (k % 8)) p)

  searched-IsOutcome :
      (s n k : ℕ) (p : Page) (r : Bool × Page)
      → verify_checksum cpu p ≡ false
      → IsTried n (k / 8) (2 ^ (k % 8)) p r
      → IsOutcome p (searched s r)
  unfolding IsTried IsOutcome searched
  searched-IsOutcome s n k p (true, q) h t =
      (h, t.0, (t.1.0 * 8 + k / 8, k % 8, omega arith, t.1.2))
  searched-IsOutcome s n k p (false, q) h t = (t, h)

  -- `verify_and_correct` leaves a page that verifies as it is and says that nothing was corrected.
  -- When it says that it has corrected a page, the page did not verify, now verifies, and differs
  -- from what it was in the flip of one bit. When it fails, the page did not verify and is as it was.
  pub verify_and_correct-IsOutcome : (p : Page) → IsOutcome p (verify_and_correct cpu p)
  verify_and_correct-IsOutcome p = elim (Bool-cases (verify_checksum cpu p)) [
    | inl t ↦ rw (verified p t) (unfold IsOutcome in (refl, t))
    | inr f ↦ elim (Bool-cases (count_ones 64 (syndrome_of p) == 1)) [
      | inl c ↦ rw (one p f c) (
          searched-IsOutcome (syndrome_of p) (length p.cells / 8)
            (trailing_zeros 64 (syndrome_of p)) p (search p) f (search-IsTried p))
      | inr c ↦ rw (many p f c) (unfold IsOutcome in (refl, f))
    ]
  ]
