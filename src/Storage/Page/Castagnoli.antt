-- ===== src/Storage/Page/Castagnoli.antt =====
-- The checksum of the manual of the processor: division of polynomials over two elements, and that
-- the loop over the bits divides.
use Prim.Native.Nat.{bit_and, bit_xor}
use native.Mathlib.Nat.{pow-suc}
use tensorvault.Prelude.{
  ℕ, zero, suc, ◌+◌, ◌*◌, ◌/◌, ◌%◌, ◌^◌, ◌<◌, ◌==◌, ◌≡◌, ◌⊎◌, if◌then◌else◌, inl, inr, refl, ap,
  sym, ◌∙◌, List, [], ◌∷◌, length, arith,
}
use tensorvault.Prelude.Forall.{All}
use tensorvault.Prelude.Bits.{
  bit_xor_half, bit_xor_parity, bit_xor-zero, zero-bit_xor, bit_xor_assoc, bit_xor_comm,
  bit_xor_fields, pow-suc_times,
}
use tensorvault.Prelude.Masks.{bit_and_low}
use tensorvault.Storage.Bytes.{from_le_bytes}
use tensorvault.Storage.Page.{crc32c_poly_reversed, crc32c_round, crc32c_rounds, crc32c_bytes}
use tensorvault.Storage.Page.Layout.{IsByte}

-- The lowest `w` bits in the opposite order.
unfoldable pub reflect : ℕ → ℕ → ℕ
reflect zero a = 0
reflect (suc w) a = a % 2 * 2 ^ w + reflect w (a / 2)

-- x^32 + x^28 + x^27 + x^26 + x^25 + x^23 + x^22 + x^20 + x^19 + x^18 + x^14 + x^13 + x^11 + x^10
-- + x^9 + x^8 + x^6 + 1
abbrev pub castagnoli : ℕ
castagnoli = 0x11EDC6F41

-- `n` steps of the long division by the polynomial. The coefficients are the bits, that of the
-- highest power the lowest bit, so the polynomial is reflected; a step ends that power.
unfoldable pub remainder : ℕ → ℕ → ℕ
unfolding reflect
remainder zero t = t
remainder (suc n) t =
    remainder n (if t % 2 == 1 then bit_xor t (reflect 33 castagnoli) / 2 else t / 2)

parity_cases : (t : ℕ) → (t % 2 ≡ 0) ⊎ (t % 2 ≡ 1)
parity_cases t = ground arith

reflected_half : reflect 33 castagnoli / 2 ≡ crc32c_poly_reversed
unfolding reflect
reflected_half = refl

crc32c_round_divides :
    (t : ℕ) → (if t % 2 == 1 then bit_xor t (reflect 33 castagnoli) / 2 else t / 2) ≡ crc32c_round t
unfolding crc32c_round
crc32c_round_divides t = elim (parity_cases t) [
  | inl e ↦ rw (bit_and_low 1 t, e) (sym (bit_xor-zero (t / 2)))
  | inr o ↦
      rw (bit_and_low 1 t, o)
        (bit_xor_half t (reflect 33 castagnoli) ∙ ap (bit_xor (t / 2)) reflected_half)
]

remainder-crc32c_rounds : (n t : ℕ) → remainder n t ≡ crc32c_rounds n t
unfolding remainder crc32c_rounds
remainder-crc32c_rounds zero t = refl
remainder-crc32c_rounds (suc n) t =
    ap (remainder n) (crc32c_round_divides t) ∙ remainder-crc32c_rounds n (crc32c_round t)

-- What stands above the bits that a round or more rounds use up comes through.
exchange : (a x m : ℕ) → bit_xor (bit_xor a x) m ≡ bit_xor (bit_xor a m) x
exchange a x m = bit_xor_assoc a x m ∙ ap (bit_xor a) (bit_xor_comm x m) ∙ sym (bit_xor_assoc a m x)

double_half : (x : ℕ) → 2 * x / 2 ≡ x
double_half x = omega arith

crc32c_round_above : (t x : ℕ) → crc32c_round (bit_xor t (2 * x)) ≡ bit_xor (crc32c_round t) x
unfolding crc32c_round
crc32c_round_above t x =
    let same : bit_xor t (2 * x) % 2 ≡ t % 2 = omega (arith, bit_xor_parity t (2 * x)) in
    let half : bit_xor t (2 * x) / 2 ≡ bit_xor (t / 2) x =
      bit_xor_half t (2 * x) ∙ ap (bit_xor (t / 2)) (double_half x) in
    let low : bit_and (bit_xor t (2 * x)) 1 ≡ bit_and t 1 =
      bit_and_low 1 (bit_xor t (2 * x)) ∙ same ∙ sym (bit_and_low 1 t) in
    rw (half, low) (exchange (t / 2) x _)

crc32c_rounds_above :
    (n t x : ℕ) → crc32c_rounds n (bit_xor t (2 ^ n * x)) ≡ bit_xor (crc32c_rounds n t) x
unfolding crc32c_rounds
crc32c_rounds_above zero t x = ap (bit_xor t) (omega arith)
crc32c_rounds_above (suc n) t x =
    ap (λ y. crc32c_rounds n (crc32c_round (bit_xor t y))) (pow-suc_times n x)
    ∙ ap (crc32c_rounds n) (crc32c_round_above t (2 ^ n * x))
    ∙ crc32c_rounds_above n (crc32c_round t) x

crc32c_rounds_more : (m n t : ℕ) → crc32c_rounds (m + n) t ≡ crc32c_rounds n (crc32c_rounds m t)
unfolding crc32c_rounds
crc32c_rounds_more zero n t =
    let none_more : 0 + n ≡ n = omega arith in ap (λ k. crc32c_rounds k t) none_more
crc32c_rounds_more (suc m) n t =
    let next : suc m + n ≡ suc (m + n) = omega arith in
    ap (λ k. crc32c_rounds k t) next ∙ crc32c_rounds_more m n (crc32c_round t)

joined : (b x : ℕ) → b < 256 → b + 256 * x ≡ bit_xor b (2 ^ 8 * x)
joined b x h =
    let left : b + 2 ^ 8 * 0 ≡ b = omega arith in
    let right : 0 + 2 ^ 8 * x ≡ 2 ^ 8 * x = omega arith in
    let sum : bit_xor b 0 + 2 ^ 8 * bit_xor 0 x ≡ b + 256 * x =
      omega (arith, bit_xor-zero b, zero-bit_xor x) in
    sym sum
    ∙ sym (bit_xor_fields 8 b 0 0 x h (omega arith))
    ∙ ap (λ y. bit_xor y (0 + 2 ^ 8 * x)) left
    ∙ ap (bit_xor b) right

-- The bytes one after the other are the rounds over all their bits.
crc32c_rounds-bytes :
    (bs : List ℕ) (crc : ℕ)
    → All IsByte bs
    → crc32c_rounds (8 * length bs) (bit_xor crc (from_le_bytes bs)) ≡ crc32c_bytes bs crc
unfolding from_le_bytes crc32c_bytes
crc32c_rounds-bytes [] crc h = unfold crc32c_rounds in bit_xor-zero crc
crc32c_rounds-bytes (b ∷ bs) crc h =
    let x : ℕ = from_le_bytes bs in
    let more : 8 * suc (length bs) ≡ 8 + 8 * length bs = omega arith in
    let split : bit_xor crc (b + 256 * x) ≡ bit_xor (bit_xor crc b) (2 ^ 8 * x) =
      ap (bit_xor crc) (joined b x (omega (arith, h.0))) ∙ sym (bit_xor_assoc crc b (2 ^ 8 * x)) in
    ap (λ k. crc32c_rounds k (bit_xor crc (b + 256 * x))) more
    ∙ ap (crc32c_rounds (8 + 8 * length bs)) split
    ∙ crc32c_rounds_more 8 (8 * length bs) (bit_xor (bit_xor crc b) (2 ^ 8 * x))
    ∙ ap (crc32c_rounds (8 * length bs)) (crc32c_rounds_above 8 (bit_xor crc b) x)
    ∙ crc32c_rounds-bytes bs (crc32c_rounds 8 (bit_xor crc b)) h.1

pub from_le_bytes-bound : (bs : List ℕ) → All IsByte bs → from_le_bytes bs < 256 ^ length bs
unfolding from_le_bytes
from_le_bytes-bound [] h = omega arith
from_le_bytes-bound (b ∷ bs) h =
    omega (arith, h.0, from_le_bytes-bound bs h.1, pow-suc 256 (length bs))

-- The remainder that the bytes leave behind the checksum so far.
pub remainder-bytes :
    (bs : List ℕ) (crc : ℕ)
    → All IsByte bs
    → remainder (8 * length bs) (bit_xor crc (from_le_bytes bs)) ≡ crc32c_bytes bs crc
remainder-bytes bs crc h =
    remainder-crc32c_rounds (8 * length bs) (bit_xor crc (from_le_bytes bs))
    ∙ crc32c_rounds-bytes bs crc h
