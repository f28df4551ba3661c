-- ===== src/Types/DateTime/Civil.antt =====
-- src/types/datetime.rs: what goes through the dates of the `time` crate: years, months and days,
-- and the interval sums.
use tensorvault.Prelude.{ℕ, ◌+◌, ◌-◌, ◌*◌, ◌/◌, ◌%◌, min, ◌==◌, if◌then◌else◌, Option, none, some}
use tensorvault.Prelude.Results.{Result, ok, err, ◌>>=◌, ok_or}
use tensorvault.Prelude.Ints.{ℤ, pos, ◌+ℤ◌, ◌-ℤ◌, ◌*ℤ◌, div_euclid, rem_euclid, wrap_i32, wrap_i64}
use tensorvault.Types.DateTime.{
  Calendar, Date, date, Time, time, Timestamp, timestamp, Interval, Error, invalid_arg, day_micros,
  day_of_year, to_date_time,
}

-- `unwrap_or` of a date
abbrev result_or {ℓ} : {A : Type ℓ} → Result A Error → A → A
result_or (ok a) b = a
result_or (err e) b = b

module _ {TimeDate Month : Type 0} (cal : Calendar TimeDate Month) where
  open cal use {
    try_month, from_calendar_date, from_julian_day, to_julian_day, year_of, month_of, day_of,
    previous_day, from_hms,
  }

  -- `month as u8` and `day as u8` drop the higher bits.
  unfoldable pub from_ymd : ℤ → ℕ → ℕ → Result Date Error
  from_ymd y month day = ok_or (try_month (month % 256)) invalid_arg >>= λ m.
      ok_or (from_calendar_date y m (day % 256)) invalid_arg >>= λ d.
      ok (date (wrap_i32 (to_julian_day d -ℤ pos 2440588)))

  -- none is the panic of `expect`.
  unfoldable pub to_ymd : Date → Option (ℤ × ℕ × ℕ)
  to_ymd d = elim (from_julian_day (wrap_i32 (d.days +ℤ pos 2440588))) [
    | some t ↦ some (year_of t, month_of t, day_of t)
    | none ↦ none
  ]

  -- A date, or the one that stands in when there is none
  abbrev date_or : Option TimeDate → TimeDate → TimeDate
  date_or (some d) first = d
  date_or none first = first

  -- `Month::try_from((month + 1) as u8).unwrap_or(Month::December)`; the number of December is 12.
  abbrev next_month : ℕ → Option Month
  next_month month = elim (try_month ((month + 1) % 256)) [ some m ↦ some m | none ↦ try_month 12 ]

  -- The first of the month that follows; `Month::January` is the month of number 1.
  unfoldable pub next_first : ℤ → ℕ → TimeDate → TimeDate
  next_first y month first =
      let next_year : Option TimeDate = elim (try_month 1) [
        | some m ↦ from_calendar_date (wrap_i32 (y +ℤ pos 1)) m 1
        | none ↦ none
      ] in
      let this_year : Option TimeDate = elim (next_month month) [
        | some m ↦ from_calendar_date y m 1
        | none ↦ none
      ] in
      date_or (if month == 12 then next_year else this_year) first

  unfoldable pub days_in_month : ℤ → ℕ → ℕ
  days_in_month y month = elim (try_month (month % 256)) [
    | some m ↦ elim (from_calendar_date y m 1) [
      | some first ↦
          let next = next_first y month first in day_of (date_or (previous_day next) first)
      | none ↦ 28
    ]
    | none ↦ 28
  ]

  -- The new date, or `d` where the calendar has none; the panic of `to_ymd` is none.
  unfoldable pub date_add_interval : Date → Interval → Option Timestamp
  date_add_interval d iv = elim (to_ymd d) [
    | some (y, m, day) ↦
        let total_months = wrap_i32 (y *ℤ 12 +ℤ (pos m -ℤ pos 1) +ℤ iv.months) in
        let ny = div_euclid total_months 12 in
        let nm = rem_euclid total_months 12 + 1 in
        let nd = min (day % 256) (days_in_month ny nm) in
        let base = result_or (from_ymd ny nm nd) d in
        some (timestamp (wrap_i64 (base.days *ℤ day_micros +ℤ iv.micros)))
    | none ↦ none
  ]

  unfoldable pub timestamp_add_interval : Timestamp → Interval → Option Timestamp
  timestamp_add_interval ts iv = elim (date_add_interval (to_date_time ts).0 iv) [
    | some new_ts ↦
        some (timestamp (wrap_i64 (new_ts.since_epoch +ℤ pos ((to_date_time ts).1.since_midnight))))
    | none ↦ none
  ]

  unfoldable pub doy : Date → Option ℕ
  doy d = elim (to_ymd d) [ some (y, m, day) ↦ some (day_of_year y m day) | none ↦ none ]

  unfoldable pub quarter : Date → Option ℕ
  quarter d = elim (to_ymd d) [ some (y, m, day) ↦ some ((m - 1) / 3 + 1) | none ↦ none ]

  -- The hour, the minute and the second lose their higher bits.
  unfoldable pub from_hms_nano : ℕ → ℕ → ℕ → ℕ → Result Time Error
  from_hms_nano hour minute second nano =
      elim (from_hms (hour % 256) (minute % 256) (second % 256) nano) [
        | some (h, m, s, n) ↦ ok (time (h * 3600000000 + m * 60000000 + s * 1000000 + n / 1000))
        | none ↦ err invalid_arg
      ]
