-- ===== src/Exec/DateTimeOps.antt =====
-- src/exec/datetime_ops.rs: the fields of dates and timestamps, and truncation. The calendar is
-- that of src/types/datetime.rs, and `to_lowercase` is the library's. The answer none is the panic
-- of `to_ymd` on a day outside the calendar.
pub mod Trunc
mod Examples
use Prim.Native.String.{String}
use text.Mathlib.Text.{◌==◌ as ◌==ₛ◌}
use tensorvault.Prelude.{ℕ, ◌+◌, ◌-◌, ◌*◌, ◌/◌, ◌%◌, ◌||◌, if◌then◌else◌, Option, none, some}
use tensorvault.Prelude.Results.{Result, ok, err}
use tensorvault.Prelude.Ints.{ℤ, pos, ◌+ℤ◌, ◌-ℤ◌, ltb_ℤ, div_trunc}
use tensorvault.Types.DateTime.{
  Calendar, Date, Time, Timestamp, Error, invalid_arg, dow as date_dow, isodow as date_isodow,
  epoch_seconds, to_hms_micro, from_date_time, to_date_time,
}
use tensorvault.Types.DateTime.Civil.{
  from_ymd, to_ymd, doy as date_doy, quarter as date_quarter, from_hms_nano,
}

pub data DateTimeField : Type 0 where
  year month day hour minute second : DateTimeField
  millisecond microsecond dow isodow doy week : DateTimeField
  quarter epoch decade century millennium : DateTimeField

-- The century and the millennium of a year, for 100 and 1000
unfoldable pub span_of : ℤ → ℕ → ℤ
span_of y n = if ltb_ℤ (pos 0) y then div_trunc (y -ℤ pos 1) n +ℤ pos 1 else div_trunc y n

unfoldable pub parse_field : (String → String) → String → Result DateTimeField Error
parse_field to_lowercase text =
    let s = to_lowercase text in
    if (s ==ₛ "year") || (s ==ₛ "y")
    then ok DateTimeField.year
    else if (s ==ₛ "month") || (s ==ₛ "mon")
    then ok DateTimeField.month
    else if (s ==ₛ "day") || (s ==ₛ "d")
    then ok DateTimeField.day
    else if (s ==ₛ "hour") || (s ==ₛ "h")
    then ok DateTimeField.hour
    else if (s ==ₛ "minute") || (s ==ₛ "min")
    then ok DateTimeField.minute
    else if (s ==ₛ "second") || (s ==ₛ "sec")
    then ok DateTimeField.second
    else if s ==ₛ "dow"
    then ok DateTimeField.dow
    else if s ==ₛ "isodow"
    then ok DateTimeField.isodow
    else if s ==ₛ "doy"
    then ok DateTimeField.doy
    else if s ==ₛ "quarter"
    then ok DateTimeField.quarter
    else if s ==ₛ "epoch"
    then ok DateTimeField.epoch
    else err invalid_arg

-- The parts that a field keeps of the year, month, day, hour, minute, second and the rest
unfoldable pub kept_parts :
    DateTimeField → ℤ × ℕ × ℕ → ℕ × ℕ × ℕ × ℕ → Option (ℤ × ℕ × ℕ × ℕ × ℕ × ℕ)
kept_parts DateTimeField.year (y, m, dd) (h, mi, s, us) = some (y, 1, 1, 0, 0, 0)
kept_parts DateTimeField.quarter (y, m, dd) (h, mi, s, us) =
    some (y, (m - 1) / 3 * 3 + 1, 1, 0, 0, 0)
kept_parts DateTimeField.month (y, m, dd) (h, mi, s, us) = some (y, m, 1, 0, 0, 0)
kept_parts DateTimeField.day (y, m, dd) (h, mi, s, us) = some (y, m, dd, 0, 0, 0)
kept_parts DateTimeField.hour (y, m, dd) (h, mi, s, us) = some (y, m, dd, h, 0, 0)
kept_parts DateTimeField.minute (y, m, dd) (h, mi, s, us) = some (y, m, dd, h, mi, 0)
kept_parts DateTimeField.second (y, m, dd) (h, mi, s, us) = some (y, m, dd, h, mi, s)
kept_parts _ parts clock = none

module _ {TimeDate Month : Type 0} (cal : Calendar TimeDate Month) where
  -- What a match on the field answers, `y`, `m` and `dd` being those of `to_ymd`
  abbrev of_date : Date → ℤ → ℕ → ℕ → DateTimeField → Option ℤ
  of_date d y m dd DateTimeField.year = some y
  of_date d y m dd DateTimeField.month = some (pos m)
  of_date d y m dd DateTimeField.day = some (pos dd)
  of_date d y m dd DateTimeField.dow = some (pos (date_dow d))
  of_date d y m dd DateTimeField.isodow = some (pos (date_isodow d))
  of_date d y m dd DateTimeField.doy = elim (date_doy cal d) [ some n ↦ some (pos n) | none ↦ none ]
  of_date d y m dd DateTimeField.quarter = elim (date_quarter cal d) [
    | some n ↦ some (pos n)
    | none ↦ none
  ]
  of_date d y m dd DateTimeField.epoch = some (epoch_seconds d)
  of_date d y m dd DateTimeField.decade = some (div_trunc y 10)
  of_date d y m dd DateTimeField.century = some (span_of y 100)
  of_date d y m dd DateTimeField.millennium = some (span_of y 1000)
  of_date d y m dd _ = some (pos 0)

  unfoldable pub extract_from_date : Date → DateTimeField → Option ℤ
  extract_from_date d field = elim (to_ymd cal d) [
    | some (y, m, dd) ↦ of_date d y m dd field
    | none ↦ none
  ]

  -- All the values here are below 2 ^ 63.
  unfoldable pub extract_from_timestamp : Timestamp → DateTimeField → Option ℤ
  extract_from_timestamp ts DateTimeField.hour =
      some (pos ((to_date_time ts).1.since_midnight / 3600000000))
  extract_from_timestamp ts DateTimeField.minute =
      some (pos ((to_date_time ts).1.since_midnight / 60000000 % 60))
  extract_from_timestamp ts DateTimeField.second =
      some (pos ((to_date_time ts).1.since_midnight / 1000000 % 60))
  extract_from_timestamp ts DateTimeField.millisecond =
      some (pos ((to_date_time ts).1.since_midnight / 1000 % 1000))
  extract_from_timestamp ts DateTimeField.microsecond =
      some (pos ((to_date_time ts).1.since_midnight % 1000000))
  extract_from_timestamp ts DateTimeField.epoch = some (div_trunc ts.since_epoch 1000000)
  extract_from_timestamp ts field = extract_from_date (to_date_time ts).0 field

  -- The first call only fails as the second does.
  unfoldable pub date_part : (String → String) → Date → String → Option (Result ℤ Error)
  date_part to_lowercase d text = elim (parse_field to_lowercase text) [
    | ok field ↦ elim (extract_from_date d field) [ some v ↦ some (ok v) | none ↦ none ]
    | err e ↦ some (err e)
  ]

  -- A date and a time from their parts, the nanoseconds being 0
  unfoldable pub build : ℤ × ℕ × ℕ × ℕ × ℕ × ℕ → Result Timestamp Error
  build (ny, nm, nd, nh, nmi, ns) = elim (from_ymd cal ny nm nd) [
    | ok new_d ↦ elim (from_hms_nano cal nh nmi ns 0) [
      | ok new_t ↦ ok (from_date_time new_d new_t)
      | err e ↦ err e
    ]
    | err e ↦ err e
  ]

  unfoldable pub date_trunc :
      (String → String) → Timestamp → String → Option (Result Timestamp Error)
  date_trunc to_lowercase ts text = elim (parse_field to_lowercase text) [
    | ok f ↦ elim (to_ymd cal (to_date_time ts).0) [
      | some ymd ↦ elim (kept_parts f ymd (to_hms_micro (to_date_time ts).1)) [
        | some parts ↦ some (build parts)
        | none ↦ some (err invalid_arg)
      ]
      | none ↦ none
    ]
    | err e ↦ some (err e)
  ]
