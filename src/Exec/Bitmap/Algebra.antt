-- ===== src/Exec/Bitmap/Algebra.antt =====
-- The operations on two bitmaps, row by row.
use Prim.Native.Nat.{bit_and, bit_or}
use tensorvault.Prelude.{
  ℕ, zero, suc, ◌+◌, ◌/◌, ◌≤◌, ◌≡◌, refl, sym, ap, ◌∙◌, min, max, ◌==◌, ltb, ◌&&◌, ◌||◌,
  if◌then◌else◌, Bool, true, false, Bool-cases, inl, inr, List, [], ◌∷◌, length, length-replicate,
  get_or, get_or-replicate, arith,
}
use tensorvault.Prelude.Digits.{digit, digit-zero, digit-bit_and, digit-bit_or, digit-le_one}
use tensorvault.Exec.Bitmap.{Bitmap, new, get, byte_of, place_of, combine, and, or}
use tensorvault.Exec.Bitmap.Bit.{get_lem}

-- A byte for every 8 rows
abbrev pub IsBitmap : Bitmap → Type 0
IsBitmap b = length b.bits ≡ (b.len + 7) / 8

get_or-combine :
    (f : ℕ → ℕ → ℕ) (n k : ℕ) (xs ys out : List ℕ)
    → n ≤ length xs
    → n ≤ length ys
    → n ≤ length out
    → get_or (combine f n xs ys out) k 0
      ≡ (if ltb k n then f (get_or xs k 0) (get_or ys k 0) else get_or out k 0)
unfolding combine
get_or-combine f zero k xs ys out a b c = ground arith
get_or-combine f (suc n) zero (x ∷ xs) (y ∷ ys) (o ∷ out) a b c = ground arith
get_or-combine f (suc n) (suc k) (x ∷ xs) (y ∷ ys) (o ∷ out) a b c =
    ground (arith, get_or-combine f n k xs ys out (omega arith) (omega arith) (omega arith))
get_or-combine f (suc n) k _ _ _ a b c = absurd (omega arith)

get_or_beyond : (xs : List ℕ) (k : ℕ) → length xs ≤ k → get_or xs k 0 ≡ 0
get_or_beyond [] k h = refl
get_or_beyond (x ∷ xs) zero h = absurd (omega arith)
get_or_beyond (x ∷ xs) (suc k) h = get_or_beyond xs k (omega arith)

-- Zero and one as truth values
min_and : (a b : ℕ) → a ≤ 1 → b ≤ 1 → (min a b == 1) ≡ ((a == 1) && (b == 1))
min_and a b h k = ground arith

max_or : (a b : ℕ) → a ≤ 1 → b ≤ 1 → (max a b == 1) ≡ ((a == 1) || (b == 1))
max_or a b h k = ground arith

and_false : (g : Bool) → false ≡ (g && false)
and_false true = refl
and_false false = refl

zero_bit : (i : ℕ) (b : Bitmap) → get_or b.bits (byte_of i) 0 ≡ 0 → get i b ≡ false
zero_bit i b e = get_lem i b ∙ rw (e, digit-zero (place_of i)) refl

get_beyond : (i : ℕ) (b : Bitmap) → length b.bits ≤ byte_of i → get i b ≡ false
get_beyond i b h = zero_bit i b (get_or_beyond b.bits (byte_of i) h)

module _ (a b c : Bitmap) (i : ℕ) where
  abbrev byte : Bitmap → ℕ
  byte x = get_or x.bits (byte_of i) 0

  and_bit : byte c ≡ bit_and (byte a) (byte b) → get i c ≡ (get i a && get i b)
  and_bit e =
      get_lem i c
      ∙ ap (λ x. digit (place_of i) x == 1) e
      ∙ ap (λ x. x == 1) (digit-bit_and (place_of i) (byte a) (byte b))
      ∙ min_and (digit (place_of i) (byte a)) (digit (place_of i) (byte b))
          (digit-le_one (place_of i) (byte a)) (digit-le_one (place_of i) (byte b))
      ∙ ap (λ x. x && (digit (place_of i) (byte b) == 1)) (sym (get_lem i a))
      ∙ ap (λ x. get i a && x) (sym (get_lem i b))

  or_bit : byte c ≡ bit_or (byte a) (byte b) → get i c ≡ (get i a || get i b)
  or_bit e =
      get_lem i c
      ∙ ap (λ x. digit (place_of i) x == 1) e
      ∙ ap (λ x. x == 1) (digit-bit_or (place_of i) (byte a) (byte b))
      ∙ max_or (digit (place_of i) (byte a)) (digit (place_of i) (byte b))
          (digit-le_one (place_of i) (byte a)) (digit-le_one (place_of i) (byte b))
      ∙ ap (λ x. x || (digit (place_of i) (byte b) == 1)) (sym (get_lem i a))
      ∙ ap (λ x. get i a || x) (sym (get_lem i b))

-- Beyond the bytes of one of two bitmaps, no row is set in both.
none_beyond :
    (a b : Bitmap) (i : ℕ)
    → ltb (byte_of i) (min (length a.bits) (length b.bits)) ≡ false
    → (get i a && get i b) ≡ false
none_beyond a b i h = elim (Bool-cases (ltb (byte_of i) (length a.bits))) [
  | inl inside ↦ rw (get_beyond i b (ground (arith, h, inside))) (sym (and_false (get i a)))
  | inr outside ↦ rw (get_beyond i a (ground (arith, outside))) refl
]

module _ (a b : Bitmap) (i : ℕ) where
  abbrev shared : ℕ
  shared = min (length a.bits) (length b.bits)

  module _ (room : shared ≤ length (new (min a.len b.len)).bits) where
    and_byte : get_or (and a b).bits (byte_of i) 0 ≡ (
        if ltb (byte_of i) shared
        then bit_and (get_or a.bits (byte_of i) 0) (get_or b.bits (byte_of i) 0)
        else get_or (new (min a.len b.len)).bits (byte_of i) 0)
    unfolding and
    and_byte =
        get_or-combine bit_and shared (byte_of i) a.bits b.bits (new (min a.len b.len)).bits
          (omega arith) (omega arith) room

  module _ (room : shared ≤ length (new (max a.len b.len)).bits) where
    or_byte : get_or (or a b).bits (byte_of i) 0 ≡ (
        if ltb (byte_of i) shared
        then bit_or (get_or a.bits (byte_of i) 0) (get_or b.bits (byte_of i) 0)
        else get_or (new (max a.len b.len)).bits (byte_of i) 0)
    unfolding or
    or_byte =
        get_or-combine bit_or shared (byte_of i) a.bits b.bits (new (max a.len b.len)).bits
          (omega arith) (omega arith) room

new_byte : (n k : ℕ) → get_or (new n).bits k 0 ≡ 0
unfolding new
new_byte n k = get_or-replicate {A = ℕ} ((n + 7) / 8) k 0

new_bytes : (n : ℕ) → length (new n).bits ≡ (n + 7) / 8
unfolding new
new_bytes n = length-replicate {A = ℕ} ((n + 7) / 8) 0

-- For bitmaps with a byte for every 8 rows, of any lengths: row `i` of `and` is set just when it is
-- set in both. Row `i` of `or` is set just when it is set in one of them, if both bitmaps have its
-- byte; beyond the bytes of the shorter bitmap no row of `or` is set.
pub and-or_rows :
    (a b : Bitmap) (i : ℕ)
    → IsBitmap a
    → IsBitmap b
    → (get i (and a b) ≡ (get i a && get i b))
      × (get i (or a b) ≡ (
          if ltb (byte_of i) (min (length a.bits) (length b.bits))
          then get i a || get i b
          else false))
and-or_rows a b i ha hb =
    let n = min (length a.bits) (length b.bits) in
    let for_and = and_byte a b i (omega (arith, new_bytes (min a.len b.len), ha, hb)) in
    let for_or = or_byte a b i (omega (arith, new_bytes (max a.len b.len), ha, hb)) in
    elim (Bool-cases (ltb (byte_of i) n)) [
      | inl inside ↦ (
        and_bit a b (and a b) i (for_and ∙ rw inside refl),
        rw inside (or_bit a b (or a b) i (for_or ∙ rw inside refl)),
      )
      | inr outside ↦ (
        zero_bit i (and a b) (for_and ∙ rw outside (new_byte (min a.len b.len) (byte_of i)))
            ∙ sym (none_beyond a b i outside),
        rw outside
            (zero_bit i (or a b) (for_or ∙ rw outside (new_byte (max a.len b.len) (byte_of i)))),
      )
    ]
