-- ===== src/Storage/Page/Parity.antt =====
-- The parity of a page when a byte of it is masked.
use Prim.Native.Nat.{bit_xor}
use tensorvault.Prelude.{
  ℕ, zero, suc, ◌+◌, ◌*◌, ◌%◌, ◌^◌, ◌<◌, ◌≡◌, refl, ap, sym, ◌∙◌, List, [], ◌∷◌, length, get_or,
  set, arith,
}
use native.Mathlib.Nat.{pow-suc}
use tensorvault.Prelude.Bits.{
  bit_xor_comm, bit_xor_assoc, bit_xor-zero, bit_xor_twice, bit_xor_fields, bit_xor-bound,
}
use tensorvault.Prelude.Forall.{All, All-take}
use tensorvault.Storage.Bytes.{from_le_bytes}
use tensorvault.Storage.Page.{Page, xor_words, flip}
use tensorvault.Storage.Page.Layout.{IsByte}

-- A byte of a list, and the list with the byte masked.
abbrev pub masked : List ℕ → ℕ → ℕ → List ℕ
masked xs i m = set xs i (bit_xor (get_or xs i 0) m)

pub masked_twice : (xs : List ℕ) (i m : ℕ) → masked (masked xs i m) i m ≡ xs
masked_twice [] i m = refl
masked_twice (x ∷ xs) zero m = ap (λ t. t ∷ xs) (bit_xor_twice x m)
masked_twice (x ∷ xs) (suc i) m = ap (λ t. x ∷ t) (masked_twice xs i m)

pub flip_twice : (i m : ℕ) (p : Page) → flip i m (flip i m p) ≡ p
unfolding flip
flip_twice i m p = ap (λ t. record p { cells = t }) (masked_twice p.cells i m)

-- A mask on one byte of a word is a mask on the word.
bit_xor_low : (b m x : ℕ) → b < 256 → m < 256 → bit_xor b m + 256 * x ≡ bit_xor (b + 256 * x) m
bit_xor_low b m x h k =
    let e : m + 256 * 0 ≡ m = omega arith in
    sym (
      ap (λ t. bit_xor (b + 256 * x) t) (sym e)
      ∙ bit_xor_fields 8 b m x 0 h k
      ∙ ap (λ t. bit_xor b m + 256 * t) (bit_xor-zero x))

bit_xor_high : (b m x : ℕ) → b < 256 → b + 256 * bit_xor x m ≡ bit_xor (b + 256 * x) (256 * m)
bit_xor_high b m x h =
    let e : 0 + 256 * m ≡ 256 * m = omega arith in
    sym (
      ap (λ t. bit_xor (b + 256 * x) t) (sym e)
      ∙ bit_xor_fields 8 b 0 x m h (omega arith)
      ∙ ap (λ t. t + 256 * bit_xor x m) (bit_xor-zero b))

from_le_bytes-masked :
    (bs : List ℕ) (i m : ℕ)
    → All IsByte bs
    → i < length bs
    → m < 256
    → from_le_bytes (masked bs i m) ≡ bit_xor (from_le_bytes bs) (256 ^ i * m)
unfolding from_le_bytes
from_le_bytes-masked [] i m v h k = absurd (omega arith)
from_le_bytes-masked (b ∷ bs) zero m v h k =
    bit_xor_low b m (from_le_bytes bs) v.0 k
    ∙ ap (λ t. bit_xor (b + 256 * from_le_bytes bs) t) (omega arith)
from_le_bytes-masked (b ∷ bs) (suc i) m v h k =
    let e : 256 * (256 ^ i * m) ≡ 256 ^ suc i * m = rw (pow-suc 256 i) (omega arith) in
    ap (λ t. b + 256 * t) (from_le_bytes-masked bs i m v.1 (omega arith) k)
    ∙ bit_xor_high b (256 ^ i * m) (from_le_bytes bs) v.0
    ∙ ap (λ t. bit_xor (b + 256 * from_le_bytes bs) t) e

bit_xor_swap : (a b c : ℕ) → bit_xor (bit_xor a b) c ≡ bit_xor (bit_xor a c) b
bit_xor_swap a b c =
    bit_xor_assoc a b c ∙ ap (bit_xor a) (bit_xor_comm b c) ∙ sym (bit_xor_assoc a c b)

-- The parity takes its words in any order.
xor_words-bit_xor :
    (bs : List ℕ) (acc k : ℕ) → xor_words bs (bit_xor acc k) ≡ bit_xor (xor_words bs acc) k
unfolding xor_words
xor_words-bit_xor (a ∷ b ∷ c ∷ d ∷ e ∷ f ∷ g ∷ h ∷ rest) acc k =
    let word : ℕ = from_le_bytes (a ∷ b ∷ c ∷ d ∷ e ∷ f ∷ g ∷ h ∷ []) in
    ap (xor_words rest) (bit_xor_swap acc k word) ∙ xor_words-bit_xor rest (bit_xor acc word) k
xor_words-bit_xor [] acc k = refl
xor_words-bit_xor (b ∷ tail) acc k = bit_xor_swap acc k _

word_masked :
    (now rest : List ℕ) (i m acc : ℕ)
    → All IsByte now
    → i < length now
    → m < 256
    → xor_words rest (bit_xor acc (from_le_bytes (masked now i m)))
      ≡ bit_xor (xor_words rest (bit_xor acc (from_le_bytes now))) (256 ^ i * m)
word_masked now rest i m acc v h k =
    ap (λ t. xor_words rest (bit_xor acc t)) (from_le_bytes-masked now i m v h k)
    ∙ ap (xor_words rest) (sym (bit_xor_assoc acc (from_le_bytes now) (256 ^ i * m)))
    ∙ xor_words-bit_xor rest (bit_xor acc (from_le_bytes now)) (256 ^ i * m)

-- A mask on one byte of a page is the same mask on one byte of the parity.
pub parity_masked :
    (bs : List ℕ) (i m acc : ℕ)
    → All IsByte bs
    → i < length bs
    → m < 256
    → length bs % 8 ≡ 0
    → xor_words (masked bs i m) acc ≡ bit_xor (xor_words bs acc) (256 ^ (i % 8) * m)
unfolding xor_words
parity_masked (a ∷ b ∷ c ∷ d ∷ e ∷ f ∷ g ∷ h ∷ rest) zero m acc v l k z =
    word_masked (a ∷ b ∷ c ∷ d ∷ e ∷ f ∷ g ∷ h ∷ []) rest 0 m acc
      (All-take IsByte 8 (a ∷ b ∷ c ∷ d ∷ e ∷ f ∷ g ∷ h ∷ rest) v) (omega arith) k
parity_masked (a ∷ b ∷ c ∷ d ∷ e ∷ f ∷ g ∷ h ∷ rest) (suc zero) m acc v l k z =
    word_masked (a ∷ b ∷ c ∷ d ∷ e ∷ f ∷ g ∷ h ∷ []) rest 1 m acc
      (All-take IsByte 8 (a ∷ b ∷ c ∷ d ∷ e ∷ f ∷ g ∷ h ∷ rest) v) (omega arith) k
parity_masked (a ∷ b ∷ c ∷ d ∷ e ∷ f ∷ g ∷ h ∷ rest) (suc (suc zero)) m acc v l k z =
    word_masked (a ∷ b ∷ c ∷ d ∷ e ∷ f ∷ g ∷ h ∷ []) rest 2 m acc
      (All-take IsByte 8 (a ∷ b ∷ c ∷ d ∷ e ∷ f ∷ g ∷ h ∷ rest) v) (omega arith) k
parity_masked (a ∷ b ∷ c ∷ d ∷ e ∷ f ∷ g ∷ h ∷ rest) (suc (suc (suc zero))) m acc v l k z =
    word_masked (a ∷ b ∷ c ∷ d ∷ e ∷ f ∷ g ∷ h ∷ []) rest 3 m acc
      (All-take IsByte 8 (a ∷ b ∷ c ∷ d ∷ e ∷ f ∷ g ∷ h ∷ rest) v) (omega arith) k
parity_masked (a ∷ b ∷ c ∷ d ∷ e ∷ f ∷ g ∷ h ∷ rest) (suc (suc (suc (suc zero)))) m acc v l k z =
    word_masked (a ∷ b ∷ c ∷ d ∷ e ∷ f ∷ g ∷ h ∷ []) rest 4 m acc
      (All-take IsByte 8 (a ∷ b ∷ c ∷ d ∷ e ∷ f ∷ g ∷ h ∷ rest) v) (omega arith) k
parity_masked (a ∷ b ∷ c ∷ d ∷ e ∷ f ∷ g ∷ h ∷ rest) (suc (suc (suc (suc (suc zero))))) m acc v l k
      z =
    word_masked (a ∷ b ∷ c ∷ d ∷ e ∷ f ∷ g ∷ h ∷ []) rest 5 m acc
      (All-take IsByte 8 (a ∷ b ∷ c ∷ d ∷ e ∷ f ∷ g ∷ h ∷ rest) v) (omega arith) k
parity_masked (a ∷ b ∷ c ∷ d ∷ e ∷ f ∷ g ∷ h ∷ rest) (suc (suc (suc (suc (suc (suc zero)))))) m acc
      v l k z =
    word_masked (a ∷ b ∷ c ∷ d ∷ e ∷ f ∷ g ∷ h ∷ []) rest 6 m acc
      (All-take IsByte 8 (a ∷ b ∷ c ∷ d ∷ e ∷ f ∷ g ∷ h ∷ rest) v) (omega arith) k
parity_masked (a ∷ b ∷ c ∷ d ∷ e ∷ f ∷ g ∷ h ∷ rest) (suc (suc (suc (suc (suc (suc (suc zero)))))))
      m acc v l k z =
    word_masked (a ∷ b ∷ c ∷ d ∷ e ∷ f ∷ g ∷ h ∷ []) rest 7 m acc
      (All-take IsByte 8 (a ∷ b ∷ c ∷ d ∷ e ∷ f ∷ g ∷ h ∷ rest) v) (omega arith) k
parity_masked (a ∷ b ∷ c ∷ d ∷ e ∷ f ∷ g ∷ h ∷ rest)
      (suc (suc (suc (suc (suc (suc (suc (suc i)))))))) m acc v l k z =
    let word : ℕ = from_le_bytes (a ∷ b ∷ c ∷ d ∷ e ∷ f ∷ g ∷ h ∷ []) in
    let same : suc (suc (suc (suc (suc (suc (suc (suc i))))))) % 8 ≡ i % 8 = omega arith in
    parity_masked rest i m _ v.1.1.1.1.1.1.1.1 (omega arith) k (omega arith)
    ∙ ap (λ t. bit_xor (xor_words rest (bit_xor acc word)) (256 ^ t * m)) (sym same)
parity_masked bs i m acc v l k z = absurd (omega arith)

pub masked-IsByte : (bs : List ℕ) (i m : ℕ) → All IsByte bs → m < 256 → All IsByte (masked bs i m)
masked-IsByte [] i m v k = tt
masked-IsByte (b ∷ bs) zero m v k = (bit_xor-bound 8 b m v.0 k, v.1)
masked-IsByte (b ∷ bs) (suc i) m v k = (v.0, masked-IsByte bs i m v.1 k)

pow_eight : (n : ℕ) → 2 ^ (8 + n) ≡ 2 ^ n * 256
pow_eight n =
    let e : 8 + n ≡ suc (suc (suc (suc (suc (suc (suc (suc n))))))) = omega arith in
    rw e (
      omega (
        arith,
        pow-suc 2 n,
        pow-suc 2 (suc n),
        pow-suc 2 (suc (suc n)),
        pow-suc 2 (suc (suc (suc n))),
        pow-suc 2 (suc (suc (suc (suc n)))),
        pow-suc 2 (suc (suc (suc (suc (suc n))))),
        pow-suc 2 (suc (suc (suc (suc (suc (suc n)))))),
        pow-suc 2 (suc (suc (suc (suc (suc (suc (suc n))))))),
      ))

pub pow_bytes : (k bit : ℕ) → 256 ^ k * 2 ^ bit ≡ 2 ^ (8 * k + bit)
pow_bytes zero bit = let e : 8 * 0 + bit ≡ bit = omega arith in rw e (omega arith)
pow_bytes (suc k) bit =
    let e : 8 * suc k + bit ≡ 8 + (8 * k + bit) = omega arith in
    rw (e, pow_eight (8 * k + bit), pow-suc 256 k, sym (pow_bytes k bit)) (omega arith)
