-- ===== src/Storage/Page/SingleBit.antt =====
-- A page in which one bit of the cells has flipped since its header was refreshed.
use Prim.Native.Nat.{bit_xor}
use mathlib.Core.Path.{subst}
use tensorvault.Prelude.{
  ℕ, zero, suc, ◌+◌, ◌*◌, ◌/◌, ◌%◌, ◌^◌, ◌<◌, ◌≡◌, refl, ap, sym, ◌∙◌, ◌==◌, Bool, true, false,
  ==_iff, Bool-cases, inl, inr, Option, length, length-set, arith,
}
use tensorvault.Prelude.Results.{Result, ok, err}
use tensorvault.Prelude.Bits.{
  bit_xor_assoc, bit_xor_self, zero-bit_xor, bit_xor_twice, count_ones, trailing_zeros,
  count_ones-pow, trailing_zeros-pow,
}
use tensorvault.Prelude.Forall.{All}
use tensorvault.Storage.Page.{
  Sse42, Page, Uncorrectable, compute_parity, verify_checksum, update_checksum, flip,
  verify_and_correct,
}
use tensorvault.Storage.Page.Layout.{IsByte}
use tensorvault.Storage.Page.Parity.{flip_twice, parity_masked, masked-IsByte, pow_bytes}
use tensorvault.Storage.Page.Repair.{
  syndrome_of, searched, IsTried, try_words_finds, search, verified, one, search-IsTried,
}

pow_below : (bit : ℕ) → bit < 8 → 2 ^ bit < 256
pow_below zero h = omega arith
pow_below (suc zero) h = omega arith
pow_below (suc (suc zero)) h = omega arith
pow_below (suc (suc (suc zero))) h = omega arith
pow_below (suc (suc (suc (suc zero)))) h = omega arith
pow_below (suc (suc (suc (suc (suc zero))))) h = omega arith
pow_below (suc (suc (suc (suc (suc (suc zero)))))) h = omega arith
pow_below (suc (suc (suc (suc (suc (suc (suc zero))))))) h = omega arith
pow_below (suc (suc (suc (suc (suc (suc (suc (suc bit)))))))) h = absurd (omega arith)

-- The parity of a page with a flipped bit.
compute_parity-flip :
    (p : Page) (i bit : ℕ)
    → All IsByte p.cells
    → length p.cells % 8 ≡ 0
    → i < length p.cells
    → bit < 8
    → compute_parity (flip i (2 ^ bit) p).cells
      ≡ bit_xor (compute_parity p.cells) (2 ^ (8 * (i % 8) + bit))
unfolding compute_parity flip
compute_parity-flip p i bit v w l h =
    parity_masked p.cells i (2 ^ bit) 0 v l (pow_below bit h) w
    ∙ ap (bit_xor (compute_parity p.cells)) (pow_bytes (i % 8) bit)

-- What remains when a number is masked by its own.
unmask : (a m : ℕ) → bit_xor a (bit_xor a m) ≡ m
unmask a m = sym (bit_xor_assoc a a m) ∙ ap (λ t. bit_xor t m) (bit_xor_self a) ∙ zero-bit_xor m

header_kept : (i m : ℕ) (p : Page) → (flip i m p).header.parity ≡ p.header.parity
unfolding flip
header_kept i m p = refl

length_kept : (i m : ℕ) (p : Page) → length (flip i m p).cells ≡ length p.cells
unfolding flip
length_kept i m p = length-set p.cells i _

bytes_kept : (i m : ℕ) (p : Page) → m < 256 → All IsByte p.cells → All IsByte (flip i m p).cells
unfolding flip
bytes_kept i m p h v = masked-IsByte p.cells i m v h

-- What the types of the source, and `update_checksum`, say of a page.
abbrev pub IsFresh : Option Sse42 → Page → Type 0
IsFresh cpu p =
    All IsByte p.cells
    × (length p.cells % 8 ≡ 0)
    × (verify_checksum cpu p ≡ true)
    × (p.header.parity ≡ compute_parity p.cells)

module _ (cpu : Option Sse42) where
  -- The page verifies again: as the damage left it, or after a correction, and then also by its
  -- parity.
  pub IsRepaired : Page → Result Bool Uncorrectable × Page → Type 0
  IsRepaired damaged (ok false, q) = (q ≡ damaged) × (verify_checksum cpu q ≡ true)
  IsRepaired damaged (ok true, q) =
      (verify_checksum cpu q ≡ true) × (q.header.parity ≡ compute_parity q.cells)
  IsRepaired damaged (err e, q) = ⊥

  module _ (p : Page) (i bit : ℕ) (w : IsFresh cpu p) (l : i < length p.cells) (h : bit < 8) where
    syndrome_of-flip : syndrome_of (flip i (2 ^ bit) p) ≡ 2 ^ (8 * (i % 8) + bit)
    syndrome_of-flip =
        ap (λ t. bit_xor t (compute_parity (flip i (2 ^ bit) p).cells))
          (header_kept i (2 ^ bit) p ∙ w.3)
        ∙ ap (bit_xor (compute_parity p.cells)) (compute_parity-flip p i bit w.0 w.1 l h)
        ∙ unmask (compute_parity p.cells) (2 ^ (8 * (i % 8) + bit))

    place_found : trailing_zeros 64 (syndrome_of (flip i (2 ^ bit) p)) ≡ 8 * (i % 8) + bit
    place_found = rw syndrome_of-flip (trailing_zeros-pow 64 (8 * (i % 8) + bit) (omega arith))

    one_bit : (count_ones 64 (syndrome_of (flip i (2 ^ bit) p)) == 1) ≡ true
    one_bit =
        rw syndrome_of-flip ((==_iff _ 1).1 (count_ones-pow 64 (8 * (i % 8) + bit) (omega arith)))

    byte_found : trailing_zeros 64 (syndrome_of (flip i (2 ^ bit) p)) / 8 ≡ i % 8
    byte_found = omega (arith, place_found)

    bit_found : trailing_zeros 64 (syndrome_of (flip i (2 ^ bit) p)) % 8 ≡ bit
    bit_found = omega (arith, place_found)

    found : (search cpu (flip i (2 ^ bit) p)).0 ≡ true
    unfolding search
    found =
        let d = flip i (2 ^ bit) p in
        let same : i / 8 * 8 + i % 8 ≡ i = omega arith in
        let back : verify_checksum cpu (flip (i / 8 * 8 + i % 8) (2 ^ bit) d) ≡ true =
          rw (same, flip_twice i (2 ^ bit) p) w.2 in
        rw (byte_found, bit_found)
          (try_words_finds cpu (length d.cells / 8) 0 (i % 8) (2 ^ bit) (i / 8) d (omega arith)
            (omega (arith, length_kept i (2 ^ bit) p, w.1)) back)

    tried :
        IsTried cpu
          (length (flip i (2 ^ bit) p).cells / 8)
          (i % 8)
          (2 ^ bit)
          (flip i (2 ^ bit) p)
          (search cpu (flip i (2 ^ bit) p))
    tried =
        let d = flip i (2 ^ bit) p in
        subst (λ t. IsTried cpu (length d.cells / 8) t (2 ^ bit) d (search cpu d)) byte_found
          (subst
            (λ t.
              IsTried cpu (length d.cells / 8) (trailing_zeros 64 (syndrome_of d) / 8) (2 ^ t) d
                (search cpu d))
            bit_found (search-IsTried cpu d))

    -- The parity of the damaged page is masked once more.
    parity_repaired :
        (j : ℕ)
        → j < length (flip i (2 ^ bit) p).cells / 8
        → (flip (j * 8 + i % 8) (2 ^ bit) (flip i (2 ^ bit) p)).header.parity
          ≡ compute_parity (flip (j * 8 + i % 8) (2 ^ bit) (flip i (2 ^ bit) p)).cells
    parity_repaired j b =
        let d = flip i (2 ^ bit) p in
        let index : ℕ = j * 8 + i % 8 in
        let mask : ℕ = 2 ^ (8 * (i % 8) + bit) in
        let place : index % 8 ≡ i % 8 = omega arith in
        let after : compute_parity (flip index (2 ^ bit) d).cells ≡ compute_parity p.cells =
          compute_parity-flip d index bit (bytes_kept i (2 ^ bit) p (pow_below bit h) w.0)
            (omega (arith, length_kept i (2 ^ bit) p, w.1)) (omega arith) h
          ∙ ap (λ t. bit_xor (compute_parity d.cells) (2 ^ (8 * t + bit))) place
          ∙ ap (λ t. bit_xor t mask) (compute_parity-flip p i bit w.0 w.1 l h)
          ∙ bit_xor_twice (compute_parity p.cells) mask in
        header_kept index (2 ^ bit) d ∙ header_kept i (2 ^ bit) p ∙ w.3 ∙ sym after

    found-IsRepaired :
        (s : ℕ) (r : Bool × Page)
        → r.0 ≡ true
        → IsTried cpu
            (length (flip i (2 ^ bit) p).cells / 8)
            (i % 8)
            (2 ^ bit)
            (flip i (2 ^ bit) p)
            r
        → IsRepaired (flip i (2 ^ bit) p) (searched s r)
    unfolding IsTried searched IsRepaired
    found-IsRepaired s (false, q) e t = ground (arith, e)
    found-IsRepaired s (true, q) e t = (t.0, rw t.1.2 (parity_repaired t.1.0 t.1.1))

    verify_and_correct-IsRepaired :
        IsRepaired (flip i (2 ^ bit) p) (verify_and_correct cpu (flip i (2 ^ bit) p))
    verify_and_correct-IsRepaired =
        let d = flip i (2 ^ bit) p in
        elim (Bool-cases (verify_checksum cpu d)) [
          | inl t ↦ rw (verified cpu d t) (unfold IsRepaired in (refl, t))
          | inr f ↦
              rw (one cpu d f one_bit) (found-IsRepaired (syndrome_of d) (search cpu d) found tried)
        ]

update_checksum-IsFresh :
    (cpu : Option Sse42) (p : Page)
    → All IsByte p.cells
    → length p.cells % 8 ≡ 0
    → IsFresh cpu (update_checksum cpu p)
unfolding update_checksum verify_checksum
update_checksum-IsFresh cpu p v w = (v, w, (==_iff _ _).1 refl, refl)

cells_kept : (cpu : Option Sse42) (p : Page) → (update_checksum cpu p).cells ≡ p.cells
unfolding update_checksum
cells_kept cpu p = refl

-- When one bit of the cells of a page flips after `update_checksum`, whichever bit it is,
-- `verify_and_correct` does not fail. It leaves a page that verifies, and when it says that it has
-- corrected the page, the parity is that of the cells too.
pub update_checksum-IsRepaired :
    (cpu : Option Sse42) (p : Page) (i bit : ℕ)
    → All IsByte p.cells
    → length p.cells % 8 ≡ 0
    → i < length p.cells
    → bit < 8
    → IsRepaired cpu
        (flip i (2 ^ bit) (update_checksum cpu p))
        (verify_and_correct cpu (flip i (2 ^ bit) (update_checksum cpu p)))
update_checksum-IsRepaired cpu p i bit v w l h =
    verify_and_correct-IsRepaired cpu (update_checksum cpu p) i bit
      (update_checksum-IsFresh cpu p v w) (omega (arith, l, ap length (cells_kept cpu p))) h
