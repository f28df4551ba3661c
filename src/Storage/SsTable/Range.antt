-- ===== src/Storage/SsTable/Range.antt =====
-- The loop of `binary_search` on natural numbers, where `stop` is `hi + 1` and nothing wraps.
use tensorvault.Prelude.{
  ℕ, zero, suc, ◌+◌, ◌-◌, ◌/◌, ◌%◌, ◌^◌, ◌≤◌, ◌<◌, ◌≡◌, ◌⊎◌, u64_mod, ltb, leb, true, false,
  if◌then◌else◌, Option, none, some, arith, inl, inr, lt→ltb, le→ltb, refl, ap, sym, ◌∙◌,
}
use tensorvault.Prelude.Results.{Result, ok, err, ◌>>=◌}
use tensorvault.Storage.SsTable.{
  SsTableReader, TableError, first_cell, search_from, signed_le, signed_half, one_less,
}

unfoldable pub search_range :
    ℕ → ℕ → ℕ → ℕ → Option ℕ → SsTableReader → Result (Option ℕ) TableError
search_range zero target_key lo stop result r =
    if ltb lo stop then err TableError.out_of_fuel else ok result
search_range (suc fuel) target_key lo stop result r =
    let mid : ℕ = (lo + (stop - 1)) / 2 in
    let upper = search_range fuel target_key (suc mid) stop (some mid) r in
    let lower = search_range fuel target_key lo mid result r in
    let found = first_cell mid r >>= λ cell. elim cell [
      | none ↦ ok result
      | some first_key ↦ if leb first_key target_key then upper else lower
    ] in
    if ltb lo stop then found else ok result

pub order_cases : (lo stop : ℕ) → (lo < stop) ⊎ (stop ≤ lo)
order_cases lo stop = ground arith

signed_le_lem :
    (lo stop : ℕ) → lo < 2 ^ 63 → stop ≤ 2 ^ 63 → signed_le lo (one_less stop) ≡ ltb lo stop
unfolding signed_le one_less
signed_le_lem lo stop h g = ground arith

signed_half_lem :
    (lo stop : ℕ)
    → lo < stop
    → stop ≤ 2 ^ 62
    → signed_half ((lo + one_less stop) % u64_mod) ≡ (lo + (stop - 1)) / 2
unfolding signed_half one_less
signed_half_lem lo stop h g = ground arith

-- What a round makes of the cell that it reads, given the searches of the two halves.
abbrev halves :
    ℕ
    → Option ℕ
    → Result (Option ℕ) TableError
    → Result (Option ℕ) TableError
    → Result (Option ℕ) TableError
    → Result (Option ℕ) TableError
halves key result cell upper lower = cell >>= λ found. elim found [
  | none ↦ ok result
  | some first_key ↦ if leb first_key key then upper else lower
]

search_from_round :
    (fuel key lo hi : ℕ) (result : Option ℕ) (r : SsTableReader)
    → signed_le lo hi ≡ true
    → let mid = signed_half ((lo + hi) % u64_mod) in
      search_from (suc fuel) key lo hi result r
      ≡ halves key result
          (first_cell mid r)
          (search_from fuel key ((mid + 1) % u64_mod) hi (some mid) r)
          (search_from fuel key lo (one_less mid) result r)
unfolding search_from
search_from_round fuel key lo hi result r h = rw h refl

search_range_round :
    (fuel key lo stop : ℕ) (result : Option ℕ) (r : SsTableReader)
    → ltb lo stop ≡ true
    → let mid = (lo + (stop - 1)) / 2 in
      search_range (suc fuel) key lo stop result r
      ≡ halves key result
          (first_cell mid r)
          (search_range fuel key (suc mid) stop (some mid) r)
          (search_range fuel key lo mid result r)
unfolding search_range
search_range_round fuel key lo stop result r h = rw h refl

search_from_done :
    (fuel key lo hi : ℕ) (result : Option ℕ) (r : SsTableReader)
    → signed_le lo hi ≡ false
    → search_from fuel key lo hi result r ≡ ok result
unfolding search_from
search_from_done zero key lo hi result r h = rw h refl
search_from_done (suc fuel) key lo hi result r h = rw h refl

pub search_range_done :
    (fuel key lo stop : ℕ) (result : Option ℕ) (r : SsTableReader)
    → stop ≤ lo
    → search_range fuel key lo stop result r ≡ ok result
unfolding search_range
search_range_done zero key lo stop result r h = rw (le→ltb lo stop h) refl
search_range_done (suc fuel) key lo stop result r h = rw (le→ltb lo stop h) refl

-- Below 2 ^ 62 the `i64` sums are exact.
pub search_from-search_range :
    (fuel key lo stop : ℕ) (result : Option ℕ) (r : SsTableReader)
    → lo ≤ 2 ^ 62
    → stop ≤ 2 ^ 62
    → search_from fuel key lo (one_less stop) result r ≡ search_range fuel key lo stop result r
search_from-search_range zero key lo stop result r h g =
    unfold search_from search_range in rw (signed_le_lem lo stop (omega arith) (omega arith)) refl
search_from-search_range (suc fuel) key lo stop result r h g = elim (order_cases lo stop) [
  | inr d ↦
      let same = signed_le_lem lo stop (omega arith) (omega arith) in
      search_from_done (suc fuel) key lo (one_less stop) result r (same ∙ le→ltb lo stop d)
      ∙ sym (search_range_done (suc fuel) key lo stop result r d)
  | inl l ↦
      let same = signed_le_lem lo stop (omega arith) (omega arith) in
      let mid : ℕ = (lo + (stop - 1)) / 2 in
      let next : (mid + 1) % u64_mod ≡ suc mid = omega arith in
      let upper =
        ap (λ n. search_from fuel key n (one_less stop) (some mid) r) next
        ∙ search_from-search_range fuel key (suc mid) stop (some mid) r (omega arith) g in
      let lower = search_from-search_range fuel key lo mid result r h (omega arith) in
      search_from_round fuel key lo (one_less stop) result r (same ∙ lt→ltb lo stop l)
      ∙ ap
          (λ m.
            halves key result (first_cell m r)
              (search_from fuel key ((m + 1) % u64_mod) (one_less stop) (some m) r)
              (search_from fuel key lo (one_less m) result r))
          (signed_half_lem lo stop l g)
      ∙ ap
          (λ t.
            halves key result (first_cell mid r) t
              (search_from fuel key lo (one_less mid) result r))
          upper
      ∙ ap
          (halves key result (first_cell mid r) (search_range fuel key (suc mid) stop (some mid) r))
          lower
      ∙ sym (search_range_round fuel key lo stop result r (lt→ltb lo stop l))
]
