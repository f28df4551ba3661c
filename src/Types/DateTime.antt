-- ===== src/Types/DateTime.antt =====
-- src/types/datetime.rs: dates, times of day, timestamps and intervals, as numbers. Sums that
-- overflow wrap, as in the release profile. The `time` crate is the record `Calendar`, whose days
-- and months are types of its own.
pub mod Year
pub mod Cells
pub mod Split
pub mod Civil
pub mod Fields
pub mod Examples
use tensorvault.Prelude.{
  ℕ, zero, suc, ◌+◌, ◌-◌, ◌*◌, ◌/◌, ◌%◌, min, ltb, leb, ◌==◌, if◌then◌else◌, Bool, true, false, not,
  ◌&&◌, ◌||◌, Option, none, some, List, [], ◌∷◌, get_or,
}
use tensorvault.Prelude.Results.{Result, ok, err, ◌>>=◌, ok_or}
use tensorvault.Prelude.Ints.{
  ℤ, pos, negsuc, pos_part, neg_part, ◌+ℤ◌, ◌-ℤ◌, ◌*ℤ◌, ltb_ℤ, div_trunc, div_euclid, rem_euclid,
  as_u32, as_i32, as_u64, as_i64, wrap_i32, wrap_i64, saturate,
}

-- `doe` is never negative: `Year.era` shows that the part taken here is all of it.
unfoldable pub days_since_epoch_to_year : ℤ → ℤ
days_since_epoch_to_year d =
    let z = d +ℤ pos 719468 in
    let era = div_trunc (if ltb_ℤ z (pos 0) then z -ℤ pos 146096 else z) 146097 in
    let doe = pos_part (z -ℤ era *ℤ 146097) in
    let yoe = (doe - doe / 1460 + doe / 36524 - doe / 146096) / 365 in
    let y = pos yoe +ℤ era *ℤ 400 in
    let doy = doe - (365 * yoe + yoe / 4 - yoe / 100) in
    if leb 306 doy then wrap_i32 (y +ℤ pos 1) else wrap_i32 y

pub record Date : Type 0 where
  pub days : ℤ

-- Microseconds since midnight
pub record Time : Type 0 where
  pub since_midnight : ℕ

-- Microseconds since 1970
pub record Timestamp : Type 0 where
  pub since_epoch : ℤ

pub record Interval : Type 0 where
  pub months : ℤ
  pub micros : ℤ

abbrev pub date : ℤ → Date
date d = record { days = d }

abbrev pub time : ℕ → Time
time t = record { since_midnight = t }

abbrev pub timestamp : ℤ → Timestamp
timestamp t = record { since_epoch = t }

abbrev pub interval : ℤ → ℤ → Interval
interval m u = record { months = m; micros = u }

-- The microseconds of a day
abbrev pub day_micros : ℕ
day_micros = 86400000000

-- What the source calls of the `time` crate: its dates, and the hour, minute, second and nanosecond
-- of the time that `Time::from_hms_nano` accepts.
pub record Calendar (TimeDate Month : Type 0) : Type 0 where
  pub try_month : ℕ → Option Month
  pub from_calendar_date : ℤ → Month → ℕ → Option TimeDate
  pub from_julian_day : ℤ → Option TimeDate
  pub to_julian_day : TimeDate → ℤ
  pub year_of : TimeDate → ℤ
  pub month_of : TimeDate → ℕ
  pub day_of : TimeDate → ℕ
  pub previous_day : TimeDate → Option TimeDate
  pub from_hms : ℕ → ℕ → ℕ → ℕ → Option (ℕ × ℕ × ℕ × ℕ)

-- The kinds of `Error`, without the texts
pub data Error : Type 0 where
  invalid_arg : Error

unfoldable pub year : Date → ℤ
unfolding days_since_epoch_to_year
year d = days_since_epoch_to_year d.days

unfoldable pub date_to_u64 : Date → ℕ
date_to_u64 d = as_u32 d.days

unfoldable pub date_from_u64 : ℕ → Date
date_from_u64 v = date (as_i32 v)

unfoldable pub add_days : Date → ℤ → Date
unfolding saturate
add_days d n = date (saturate 2147483648 (d.days +ℤ n))

unfoldable pub days_since : Date → Date → ℤ
unfolding wrap_i32
days_since d other = wrap_i32 (d.days -ℤ other.days)

unfoldable pub dow : Date → ℕ
unfolding wrap_i32 rem_euclid
dow d = rem_euclid (wrap_i32 (d.days +ℤ pos 4)) 7

unfoldable pub isodow : Date → ℕ
unfolding wrap_i32 rem_euclid
isodow d = rem_euclid (wrap_i32 (d.days +ℤ pos 3)) 7 + 1

unfoldable pub epoch_seconds : Date → ℤ
epoch_seconds d = d.days *ℤ 86400

-- `year % 4 == 0` holds of a negative year as it does of its magnitude.
unfoldable pub is_leap_year : ℤ → Bool
is_leap_year y =
    let n = pos_part y + neg_part y in ((n % 4 == 0) && not (n % 100 == 0)) || (n % 400 == 0)

-- The loop of `day_of_year` over the months from `m` on, with `left` to go
unfoldable pub add_months : List ℕ → ℕ → ℕ → ℕ → ℕ
add_months lengths zero m doy = doy
add_months lengths (suc left) m doy =
    add_months lengths left (suc m) (doy + get_or lengths (m - 1) 0)

unfoldable pub day_of_year : ℤ → ℕ → ℕ → ℕ
unfolding is_leap_year add_months
day_of_year y month day =
    let february = if is_leap_year y then 29 else 28 in
    let days_in_months = 31 ∷ february ∷ 31 ∷ 30 ∷ 31 ∷ 30 ∷ 31 ∷ 31 ∷ 30 ∷ 31 ∷ 30 ∷ 31 ∷ [] in
    add_months days_in_months (month - 1) 1 day

unfoldable pub to_hms_micro : Time → ℕ × ℕ × ℕ × ℕ
to_hms_micro t =
    let total = t.since_midnight in
    (total / 3600000000 % 4294967296, total / 60000000 % 60, total / 1000000 % 60, total % 1000000)

-- `a.0 as i64 * 86_400_000_000 + t.0 as i64`, which wraps at 64 bits
unfoldable pub from_date_time : Date → Time → Timestamp
unfolding wrap_i64
from_date_time d t = timestamp (wrap_i64 (d.days *ℤ day_micros +ℤ pos t.since_midnight))

unfoldable pub from_date : Date → Timestamp
unfolding wrap_i64
from_date d = timestamp (wrap_i64 (d.days *ℤ day_micros))

unfoldable pub to_date_time : Timestamp → Date × Time
unfolding wrap_i32 div_euclid rem_euclid
to_date_time t = (
  date (wrap_i32 (div_euclid t.since_epoch day_micros)),
  time (rem_euclid t.since_epoch day_micros),
)

unfoldable pub timestamp_to_u64 : Timestamp → ℕ
timestamp_to_u64 t = as_u64 t.since_epoch

unfoldable pub timestamp_from_u64 : ℕ → Timestamp
timestamp_from_u64 v = timestamp (as_i64 v)

unfoldable pub to_u64_pair : Interval → ℕ × ℕ
to_u64_pair iv = (as_u32 iv.months, as_u64 iv.micros)

unfoldable pub from_u64_pair : ℕ × ℕ → Interval
from_u64_pair v = interval (as_i32 v.0) (as_i64 v.1)

unfoldable pub from_months : ℤ → Interval
from_months m = interval m (pos 0)

unfoldable pub from_days : ℤ → Interval
from_days d = interval (pos 0) (d *ℤ day_micros)

unfoldable pub from_micros : ℤ → Interval
from_micros m = interval (pos 0) m

unfoldable pub interval_add : Interval → Interval → Interval
unfolding saturate
interval_add a b =
    interval (saturate 2147483648 (a.months +ℤ b.months))
      (saturate 9223372036854775808 (a.micros +ℤ b.micros))
