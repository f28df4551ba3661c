-- ===== src/Types/NullBitmap/Rows.antt =====
-- One row of a bitmap of nulls, read after a write.
use Prim.Native.Nat.{bit_and, bit_or}
use mathlib.Core.Path.{subst}
use tensorvault.Prelude.{
  ℕ, ◌+◌, ◌-◌, ◌/◌, ◌%◌, ◌^◌, ◌<◌, ◌≡◌, ◌≢◌, refl, sym, ap, ◌∙◌, ◌==◌, ◌&&◌, ltb, lt→ltb, ltb→lt,
  if◌then◌else◌, Bool, true, false, Bool-cases, inl, inr, ==_iff, List, length, length-set, get_or,
  get_or-set, get_or-set_other, set, arith,
}
use tensorvault.Prelude.Masks.{shift_right, bit_and-one}
use tensorvault.Prelude.Digits.{
  digit, digit-bit_or, digit-bit_and, digit-not, digit-pow_same, digit-pow_other, digit-le_one,
  pow_below,
}
use tensorvault.Types.NullBitmap.{NullBitmap, set_null, clear_null, is_null}

-- A word for every 64 rows
abbrev pub IsBitmap : NullBitmap → Type 0
IsBitmap b = length b.bits ≡ (b.len + 63) / 64

abbrev row_digit : ℕ → List ℕ → ℕ
row_digit i bits = digit (i % 64) (get_or bits (i / 64) 0)

is_null_lem : (i : ℕ) (b : NullBitmap) → i < b.len → is_null i b ≡ (row_digit i b.bits == 1)
unfolding is_null digit
is_null_lem i b h =
    rw (is_null, lt→ltb i b.len h)
      (ap (λ n. n == 1) (bit_and-one (shift_right (i % 64) (get_or b.bits (i / 64) 0))))

not-two : (a b : ℕ) → (a == b) ≡ false → a ≢ b
not-two a b d = ground (arith, d)

-- A word changed in one digit: the digits of the other rows stay.
module _ (i : ℕ) (bits : List ℕ) (v new_digit : ℕ) (inside : i / 64 < length bits)
    (here : digit (i % 64) v ≡ new_digit)
    (others : (k : ℕ) → k < 64 → k ≢ i % 64 → digit k v ≡ digit k (get_or bits (i / 64) 0)) where
  row_digit-set :
      (j : ℕ) → row_digit j (set bits (i / 64) v) ≡ (if i == j then new_digit else row_digit j bits)
  row_digit-set j = elim (Bool-cases (i == j)) [
    | inl e ↦
        let same : i ≡ j = (==_iff i j).0 e in
        rw e (
          subst (λ k. row_digit k (set bits (i / 64) v) ≡ new_digit) same
            (ap (digit (i % 64)) (get_or-set bits (i / 64) v 0 inside) ∙ here))
    | inr d ↦ rw d (elim (Bool-cases (i / 64 == j / 64)) [
      | inl w ↦
          let there : i / 64 ≡ j / 64 = (==_iff (i / 64) (j / 64)).0 w in
          let apart : j % 64 ≢ i % 64 = λ p. not-two i j d (omega arith) in
          subst
            (λ k.
              digit (j % 64) (get_or (set bits (i / 64) v) k 0) ≡ digit (j % 64) (get_or bits k 0))
            there
            (ap (digit (j % 64)) (get_or-set bits (i / 64) v 0 inside)
              ∙ others (j % 64) (omega arith) apart)
      | inr n ↦
          ap (digit (j % 64))
            (get_or-set_other bits (i / 64) (j / 64) v 0 (not-two (i / 64) (j / 64) n))
    ])
  ]

module _ (i : ℕ) (bits : List ℕ) (inside : i / 64 < length bits) where
  abbrev word : ℕ
  word = get_or bits (i / 64) 0

  row_digit-or :
      (j : ℕ)
      → row_digit j (set bits (i / 64) (bit_or word (2 ^ (i % 64))))
        ≡ (if i == j then 1 else row_digit j bits)
  row_digit-or =
      row_digit-set i bits (bit_or word (2 ^ (i % 64))) 1 inside
        (rw (digit-bit_or (i % 64) word (2 ^ (i % 64)), digit-pow_same (i % 64))
          (omega (arith, digit-le_one (i % 64) word)))
        (λ k l n.
          rw (digit-bit_or k word (2 ^ (i % 64)), digit-pow_other k (i % 64) n) (omega arith))

  row_digit-and :
      (j : ℕ)
      → row_digit j (set bits (i / 64) (bit_and word (2 ^ 64 - 1 - 2 ^ (i % 64))))
        ≡ (if i == j then 0 else row_digit j bits)
  row_digit-and =
      row_digit-set i bits (bit_and word (2 ^ 64 - 1 - 2 ^ (i % 64))) 0 inside
        (rw
          (
            digit-bit_and (i % 64) word (2 ^ 64 - 1 - 2 ^ (i % 64)),
            digit-not 64 (i % 64) (2 ^ (i % 64)) (pow_below 64 (i % 64) (omega arith))
                (omega arith),
            digit-pow_same (i % 64),
          )
          (omega arith))
        (λ k l n.
          rw
            (
              digit-bit_and k word (2 ^ 64 - 1 - 2 ^ (i % 64)),
              digit-not 64 k (2 ^ (i % 64)) (pow_below 64 (i % 64) (omega arith)) l,
              digit-pow_other k (i % 64) n,
            )
            (omega (arith, digit-le_one k word)))

-- What a bitmap answers for each row, given what another answers
pub record Marked (i : ℕ) (v : Bool) (b r : NullBitmap) : Type 0 where
  pub bitmap : IsBitmap r
  pub same_len : r.len ≡ b.len
  pub rows : (j : ℕ) → is_null j r ≡ (if (i == j) && ltb i b.len then v else is_null j b)

module _ (b : NullBitmap) (w : IsBitmap b) (i : ℕ) where
  outside : i < b.len → i / 64 < length b.bits
  outside h = omega (arith, w)

  beyond : (j : ℕ) (r : NullBitmap) → ltb j r.len ≡ false → is_null j r ≡ false
  unfolding is_null
  beyond j r h = rw (is_null, h) refl

  -- New words in which only the digit of row `i` has changed
  written :
      (v : Bool) (bits : List ℕ) (d : ℕ)
      → i < b.len
      → (d == 1) ≡ v
      → length bits ≡ length b.bits
      → ((j : ℕ) → row_digit j bits ≡ (if i == j then d else row_digit j b.bits))
      → Marked i v b (record b { bits = bits })
  written v bits d h dv len digits = record {
    bitmap = len ∙ w;
    same_len = refl;
    rows = λ j. elim (Bool-cases (ltb j b.len)) [
      | inl here ↦
          let now = is_null_lem j (record b { bits = bits }) (ltb→lt j b.len here) in
          let before = is_null_lem j b (ltb→lt j b.len here) in
          elim (Bool-cases (i == j)) [
            | inl e ↦ now ∙ ap (λ n. n == 1) (digits j) ∙ rw (e, lt→ltb i b.len h) dv
            | inr n ↦ now ∙ ap (λ x. x == 1) (digits j) ∙ rw n (sym before)
          ]
      | inr there ↦
          let apart : (i == j) ≡ false = ground (arith, there, h) in
          rw apart (beyond j (record b { bits = bits }) there ∙ sym (beyond j b there))
    ];
  }

  unchanged : (v : Bool) → ltb i b.len ≡ false → Marked i v b b
  unchanged v n = record {
    bitmap = w;
    same_len = refl;
    rows = λ j. rw n (skip (i == j) v (is_null j b));
  }
    where
      skip : (p v x : Bool) → x ≡ (if p && false then v else x)
      skip true v x = refl
      skip false v x = refl

-- In a bitmap with a word for every 64 rows, `set_null` makes just its row null and `clear_null`
-- just its row not null; every other row is as before, and a row beyond the length changes nothing.
pub set_null-Marked :
    (b : NullBitmap) (i : ℕ)
    → IsBitmap b
    → Marked i true b (set_null i b) × Marked i false b (clear_null i b)
unfolding set_null clear_null
set_null-Marked b i w = elim (Bool-cases (ltb i b.len)) [
  | inl here ↦
      let h = ltb→lt i b.len here in
      let inside = outside b w i h in
      let x = get_or b.bits (i / 64) 0 in
      (
        rw (set_null, here)
            (written b w i true (set b.bits (i / 64) (bit_or x (2 ^ (i % 64)))) 1 h refl
              (length-set b.bits (i / 64) _) (row_digit-or i b.bits inside)),
        rw (clear_null, here)
            (written b w i false (set b.bits (i / 64) (bit_and x (2 ^ 64 - 1 - 2 ^ (i % 64)))) 0 h
              refl (length-set b.bits (i / 64) _) (row_digit-and i b.bits inside)),
      )
  | inr n ↦
      (rw (set_null, n) (unchanged b w i true n), rw (clear_null, n) (unchanged b w i false n))
]
