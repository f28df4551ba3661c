-- ===== src/Types/DateTime/Examples.antt =====
-- Dates and timestamps at fixed inputs, with a calendar of the last month of 1969.
use tensorvault.Prelude.{
  ℕ, ◌+◌, ◌-◌, ◌*◌, ◌≡◌, refl, ltb, leb, ◌==◌, ◌&&◌, if◌then◌else◌, some, none, arith,
}
use tensorvault.Prelude.Ints.{
  ℤ, pos, negsuc, pos_part, ◌+ℤ◌, ◌-ℤ◌, ◌*ℤ◌, ltb_ℤ, rem_euclid, as_signed, as_unsigned, wrap_i32,
  div_trunc,
}
use tensorvault.Types.DateTime.{
  Calendar, date, time, Timestamp, timestamp, year, is_leap_year, days_since_epoch_to_year,
  from_date_time, to_date_time, day_of_year, add_months,
}
use tensorvault.Types.DateTime.Year.{year-IsYearOf, days_before_year}
use tensorvault.Types.DateTime.Split.{to_date_time-from_date_time}
use tensorvault.Types.DateTime.Civil.{days_in_month, next_first}
use tensorvault.Types.DateTime.Fields.{AcceptsClock}

-- Dates are Julian days, and a month is its number.
abbrev pub december_1969 : Calendar ℤ ℕ
december_1969 = record {
  try_month = λ n. if leb 1 n && leb n 12 then some n else none;
  from_calendar_date = λ y m d.
      if (m == 12) && leb 1 d && leb d 31 && (pos_part y == 1969)
      then some (pos (2440556 + d))
      else if (m == 1) && (d == 1) && (pos_part y == 1970)
      then some (pos 2440588)
      else none;
  from_julian_day = λ j. some j;
  to_julian_day = λ j. j;
  year_of = λ j. if ltb_ℤ j (pos 2440588) then pos 1969 else pos 1970;
  month_of = λ j. if ltb_ℤ j (pos 2440588) then 12 else 1;
  day_of = λ j. if ltb_ℤ j (pos 2440588) then pos_part j - 2440556 else 1;
  previous_day = λ j. some (pos (pos_part j - 1));
  from_hms = λ h m s n.
      if ltb h 24 && ltb m 60 && ltb s 60 && ltb n 1000000000 then some (h, m, s, n) else none;
}

-- The last of 1969, at half past eleven at night and 15.5 seconds
abbrev pub late : Timestamp
late = timestamp (negsuc 1784499999)

pub december-AcceptsClock : AcceptsClock december_1969
december-AcceptsClock h m s n hh hm hs hn = ground arith

-- The years of the first and the last of 1970, of the day before, and of the first of year 0
the_years :
    (year (date (pos 0)) ≡ pos 1970)
    × (year (date (pos 364)) ≡ pos 1970)
    × (year (date (negsuc 0)) ≡ pos 1969)
    × (year (date (negsuc 719527)) ≡ pos 0)
    × (year (date (negsuc 719528)) ≡ negsuc 0)
unfolding year days_since_epoch_to_year ◌+ℤ◌ ◌-ℤ◌ ◌*ℤ◌ wrap_i32 as_signed as_unsigned rem_euclid
    div_trunc
the_years = (refl, refl, refl, refl, refl)

the_day_of_year : (day_of_year (pos 2024) 12 31 ≡ 366) × (day_of_year (pos 2023) 3 1 ≡ 60)
unfolding day_of_year add_months is_leap_year
the_day_of_year = (refl, refl)

last_of_december : days_in_month december_1969 (pos 1969) 12 ≡ 31
unfolding days_in_month next_first wrap_i32 as_signed as_unsigned rem_euclid ◌+ℤ◌
last_of_december = refl

year-IsYearOf_example : year (date (pos 1460 -ℤ pos (719162 + 1 * 146097))) ≡ pos 4 -ℤ pos (1 * 400)
unfolding days_before_year is_leap_year
year-IsYearOf_example =
    year-IsYearOf 1460 1 4 (omega arith) (omega arith) (omega arith, omega arith, omega arith)

to_date_time-from_date_time_example :
    to_date_time (from_date_time (date (negsuc 2)) (time 86399999999))
    ≡ (date (negsuc 2), time 86399999999)
to_date_time-from_date_time_example =
    to_date_time-from_date_time (date (negsuc 2)) (time 86399999999) (omega arith) (omega arith)
      (omega arith)
