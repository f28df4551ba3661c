-- ===== src/Types/DateTime/Year.antt =====
-- The year of a day number, against the leap rule counted year by year.
use mathlib.Core.Path.{subst}
use tensorvault.Prelude.{
  ℕ, zero, suc, ◌+◌, ◌-◌, ◌*◌, ◌/◌, ◌%◌, ◌≤◌, ◌<◌, ◌≡◌, refl, sym, leb, leb→le, Bool, true, false,
  ap, ◌∙◌, Bool-cases, inl, inr, if◌then◌else◌, arith,
}
use tensorvault.Prelude.Ints.{
  ℤ, pos, ◌-ℤ◌, ◌+ℤ◌, ◌*ℤ◌, div_trunc, ltb_ℤ, pos_part, IsI32, wrap_i32, wrap_i32_lem,
}
use tensorvault.Types.DateTime.{date, days_since_epoch_to_year, is_leap_year, year}

-- The days of a year, and those from the first of January of year 1 to that of year `y`.
abbrev pub days_in_year : ℕ → ℕ
days_in_year y = if is_leap_year (pos y) then 366 else 365

unfoldable pub days_before_year : ℕ → ℕ
days_before_year zero = 0
days_before_year (suc zero) = 0
days_before_year (suc (suc y)) = days_before_year (suc y) + days_in_year (suc y)

days_before_year_lem : (y : ℕ) → days_before_year (suc y) ≡ 365 * y + y / 4 - y / 100 + y / 400
unfolding days_before_year is_leap_year
days_before_year_lem zero = refl
days_before_year_lem (suc y) = ground (arith, days_before_year_lem y)

-- The year of the era and the day of that year, both from March on, for a day of the era.
year_of_era :
    (d y : ℕ)
    → d ≤ 146096
    → y ≡ (d - d / 1460 + d / 36524 - d / 146096) / 365
    → (365 * y + y / 4 - y / 100 ≤ d) × (d ≤ 365 * y + y / 4 - y / 100 + 365) × (y ≤ 399)
year_of_era d y h e = omega arith

-- Day `n` is in year `y`.
abbrev pub IsYearOf : ℕ → ℕ → Type 0
IsYearOf n y = (1 ≤ y) × (days_before_year y ≤ n) × (n < days_before_year (suc y))

abbrev before_march : ℕ → ℕ → ℕ
before_march doe yoe = doe - (365 * yoe + yoe / 4 - yoe / 100)

closed : (y m : ℕ) → suc y ≡ m → days_before_year m ≡ 365 * y + y / 4 - y / 100 + y / 400
closed y m e =
    subst (λ k. days_before_year k ≡ 365 * y + y / 4 - y / 100 + y / 400) e (days_before_year_lem y)

module _ (n era doe yoe : ℕ) (e : n + 306 ≡ era * 146097 + doe)
    (lo : 365 * yoe + yoe / 4 - yoe / 100 ≤ doe) (hi : doe ≤ 365 * yoe + yoe / 4 - yoe / 100 + 365)
    (few : yoe ≤ 399) where
  late_year : 306 ≤ before_march doe yoe → IsYearOf n (yoe + era * 400 + 1)
  late_year late =
      let this = closed (yoe + era * 400) (yoe + era * 400 + 1) (omega arith) in
      let next = closed (yoe + era * 400 + 1) (suc (yoe + era * 400 + 1)) refl in
      (omega arith, omega arith, omega arith)

  early_year : before_march doe yoe < 306 → IsYearOf n (yoe + era * 400 + 0)
  early_year early =
      let some_year : 1 ≤ yoe + era * 400 = omega arith in
      let this = closed (yoe + era * 400 - 1) (yoe + era * 400 + 0) (omega arith) in
      let next = closed (yoe + era * 400 + 0) (suc (yoe + era * 400 + 0)) refl in
      (omega arith, omega arith, omega arith)

  -- A day of an era, in the year `yoe` of it from March on, is in the next year from January on.
  era_year : IsYearOf n (yoe + era * 400 + (if leb 306 (before_march doe yoe) then 1 else 0))
  era_year = elim (Bool-cases (leb 306 (before_march doe yoe))) [
    | inl late ↦ rw late (late_year (leb→le 306 (before_march doe yoe) late))
    | inr early ↦ rw early (early_year (ground (arith, early)))
  ]

-- The year of a day counted from March of year 0 on
year_from_march : ℕ → ℕ
year_from_march z =
    let doe = z % 146097 in
    let yoe = (doe - doe / 1460 + doe / 36524 - doe / 146096) / 365 in
    yoe + z / 146097 * 400 + (if leb 306 (before_march doe yoe) then 1 else 0)

year_from_march-IsYearOf : (n : ℕ) → IsYearOf n (year_from_march (n + 306))
unfolding year_from_march
year_from_march-IsYearOf n =
    let doe = (n + 306) % 146097 in
    let yoe = (doe - doe / 1460 + doe / 36524 - doe / 146096) / 365 in
    let of_era = year_of_era doe yoe (omega arith) refl in
    era_year n ((n + 306) / 146097) doe yoe (omega arith) of_era.0 of_era.1 of_era.2

-- `Date::year` on the day `z` with the days of `k` eras taken off
module _ (z k : ℕ) where
  abbrev earlier : ℤ
  earlier = pos z -ℤ pos (k * 146097)

  era :
      div_trunc (if ltb_ℤ earlier (pos 0) then earlier -ℤ pos 146096 else earlier) 146097
      ≡ pos (z / 146097) -ℤ pos k
  unfolding div_trunc ◌-ℤ◌
  era = ground arith

  doe_lem : pos_part (earlier -ℤ (pos (z / 146097) -ℤ pos k) *ℤ 146097) ≡ z % 146097
  unfolding ◌-ℤ◌ ◌*ℤ◌
  doe_lem = ground arith

shift_lem :
    (n k : ℕ)
    → (pos n -ℤ pos (719162 + k * 146097)) +ℤ pos 719468 ≡ pos (n + 306) -ℤ pos (k * 146097)
unfolding ◌-ℤ◌ ◌+ℤ◌
shift_lem n k = ground arith

year_lem :
    (y e k c : ℕ)
    → pos y +ℤ (pos e -ℤ pos k) *ℤ 400 +ℤ pos c ≡ pos (y + e * 400 + c) -ℤ pos (k * 400)
unfolding ◌*ℤ◌ ◌+ℤ◌ ◌-ℤ◌
year_lem y e k c = ground arith

-- Far enough inside an `i32`
IsI32_lem : (a b : ℕ) → a < 2147483648 → b < 2147483648 → IsI32 (pos a -ℤ pos b)
unfolding ◌-ℤ◌
IsI32_lem a b h k = ground arith

+ℤ-zero : (a : ℤ) → a +ℤ pos 0 ≡ a
unfolding ◌+ℤ◌
+ℤ-zero a = ground arith

narrowed :
    (b : Bool) (y e k : ℕ)
    → y + e * 400 + 1 < 2147483648
    → k * 400 < 2147483648
    → (if b
        then wrap_i32 (pos y +ℤ (pos e -ℤ pos k) *ℤ 400 +ℤ pos 1)
        else wrap_i32 (pos y +ℤ (pos e -ℤ pos k) *ℤ 400))
      ≡ pos (y + e * 400 + (if b then 1 else 0)) -ℤ pos (k * 400)
narrowed true y e k h few =
    rw (year_lem y e k 1) (wrap_i32_lem _ (IsI32_lem (y + e * 400 + 1) (k * 400) h few))
narrowed false y e k h few =
    let whole = sym (+ℤ-zero (pos y +ℤ (pos e -ℤ pos k) *ℤ 400)) ∙ year_lem y e k 0 in
    rw whole (wrap_i32_lem _ (IsI32_lem (y + e * 400 + 0) (k * 400) (omega arith) few))

days_since_epoch_to_year_lem :
    (n k : ℕ)
    → n ≤ 4294967296
    → k ≤ 20000
    → days_since_epoch_to_year (pos n -ℤ pos (719162 + k * 146097))
      ≡ pos (year_from_march (n + 306)) -ℤ pos (k * 400)
unfolding days_since_epoch_to_year year_from_march
days_since_epoch_to_year_lem n k h few =
    let doe = (n + 306) % 146097 in
    let yoe = (doe - doe / 1460 + doe / 36524 - doe / 146096) / 365 in
    rw (shift_lem n k, era (n + 306) k, doe_lem (n + 306) k)
      (narrowed (leb 306 (before_march doe yoe)) yoe ((n + 306) / 146097) k
        (omega (arith, year_of_era doe yoe (omega arith) refl)) (omega arith))

-- One day is in one year.
before_mono : (y m : ℕ) → 1 ≤ y → y ≤ m → days_before_year y ≤ days_before_year m
before_mono y m a h =
    let early = closed (y - 1) y (omega arith) in
    let late = closed (m - 1) m (omega arith) in omega arith

IsYearOf-unique : (n y m : ℕ) → IsYearOf n y → IsYearOf n m → y ≡ m
IsYearOf-unique n y m a b =
    ground (arith, before_mono (suc y) m (omega arith), before_mono (suc m) y (omega arith))

-- Every date of an `i32` is, for some number `k` of eras of 400 years and 146097 days, `n` days
-- after the first of January of year 1 less `k` eras. If day `n` is in year `y` when the years from
-- 1 on are laid end to end, each of 366 days if `is_leap_year` says so and of 365 days if not,
-- then `Date::year` of that date is `y` less 400 for each era. For at most 20000 eras and `n` at
-- most 2 ^ 32.
pub year-IsYearOf :
    (n k y : ℕ)
    → n ≤ 4294967296
    → k ≤ 20000
    → IsYearOf n y
    → year (date (pos n -ℤ pos (719162 + k * 146097))) ≡ pos y -ℤ pos (k * 400)
unfolding year
year-IsYearOf n k y h few is =
    days_since_epoch_to_year_lem n k h few
    ∙ ap (λ m. pos m -ℤ pos (k * 400))
        (IsYearOf-unique n (year_from_march (n + 306)) y (year_from_march-IsYearOf n) is)
