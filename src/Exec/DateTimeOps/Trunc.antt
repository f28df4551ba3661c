-- ===== src/Exec/DateTimeOps/Trunc.antt =====
-- Truncation of a timestamp to a unit of the clock, and the fields of the clock.
use Prim.Native.String.{String}
use tensorvault.Prelude.{ℕ, ◌+◌, ◌*◌, ◌/◌, ◌%◌, ◌≤◌, ◌<◌, ◌≡◌, refl, ap, some, arith}
use tensorvault.Prelude.Results.{ok}
use tensorvault.Prelude.Ints.{
  ℤ, pos, pos_part, neg_part, ◌+ℤ◌, ◌-ℤ◌, ◌*ℤ◌, div_euclid, rem_euclid, IsI64, wrap_i32_lem,
  wrap_i64_lem,
}
use tensorvault.Types.DateTime.{
  Calendar, Date, time, Timestamp, timestamp, day_micros, from_date_time, to_date_time,
  to_hms_micro,
}
use tensorvault.Types.DateTime.Split.{IsI32-div}
use tensorvault.Types.DateTime.Fields.{AcceptsClock, AcceptsClock_bytes}
use tensorvault.Types.DateTime.Civil.{from_ymd, to_ymd, from_hms_nano}
use tensorvault.Exec.DateTimeOps.{DateTimeField, parse_field, kept_parts, build, date_trunc}

-- The fields whose truncation keeps the day, and the microseconds of each
pub data IsUnit : DateTimeField → ℕ → Type 0 where
  day : IsUnit DateTimeField.day 86400000000
  hour : IsUnit DateTimeField.hour 3600000000
  minute : IsUnit DateTimeField.minute 60000000
  second : IsUnit DateTimeField.second 1000000

-- The last whole number of units up to a timestamp
abbrev pub floor_to : ℕ → Timestamp → Timestamp
floor_to k ts = timestamp (ts.since_epoch -ℤ pos (rem_euclid ts.since_epoch k))

module _ {TimeDate Month : Type 0} (cal : Calendar TimeDate Month) where
  from_hms_nano_lem :
      (h m s : ℕ)
      → AcceptsClock cal
      → h < 24
      → m < 60
      → s < 60
      → from_hms_nano cal h m s 0 ≡ ok (time (h * 3600000000 + m * 60000000 + s * 1000000))
  unfolding from_hms_nano
  from_hms_nano_lem h m s clock hh hm hs =
      rw (from_hms_nano, AcceptsClock_bytes cal h m s 0 clock hh hm hs (omega arith))
        (ap (λ t. ok (time t)) (omega arith))

  -- A date that the calendar gives back, and a time of day
  module _ (clock : AcceptsClock cal) (d : Date) (y : ℤ) (mo dd : ℕ)
      (back : from_ymd cal y mo dd ≡ ok d) where
    build_lem :
        (h m s : ℕ)
        → h < 24
        → m < 60
        → s < 60
        → build cal (y, mo, dd, h, m, s)
          ≡ ok (from_date_time d (time (h * 3600000000 + m * 60000000 + s * 1000000)))
    unfolding build
    build_lem h m s hh hm hs = rw (build, back, from_hms_nano_lem h m s clock hh hm hs) refl

-- The hours, minutes and seconds that are kept of a time of day, as microseconds
abbrev kept : {f : DateTimeField} {k : ℕ} → IsUnit f k → ℕ → ℕ
kept day t = 0 * 3600000000 + 0 * 60000000 + 0 * 1000000
kept hour t = t / 3600000000 % 4294967296 * 3600000000 + 0 * 60000000 + 0 * 1000000
kept minute t =
    t / 3600000000 % 4294967296 * 3600000000 + t / 60000000 % 60 * 60000000 + 0 * 1000000
kept second t =
    t / 3600000000 % 4294967296 * 3600000000
    + t / 60000000 % 60 * 60000000
    + t / 1000000 % 60 * 1000000

kept_lem :
    {f : DateTimeField} {k : ℕ} (a : ℤ) (unit : IsUnit f k)
    → div_euclid a day_micros *ℤ day_micros +ℤ pos (kept unit (rem_euclid a day_micros))
      ≡ a -ℤ pos (rem_euclid a k)
unfolding div_euclid rem_euclid ◌*ℤ◌ ◌+ℤ◌ ◌-ℤ◌
kept_lem a day = ground arith
kept_lem a hour = ground arith
kept_lem a minute = ground arith
kept_lem a second = ground arith

small : {f : DateTimeField} {k : ℕ} (a : ℤ) → IsUnit f k → rem_euclid a k < day_micros
unfolding rem_euclid
small a day = ground arith
small a hour = ground arith
small a minute = ground arith
small a second = ground arith

IsI64-sub :
    (a : ℤ) (r : ℕ)
    → pos_part a < 9223372036854775808
    → neg_part a + day_micros ≤ 9223372036854775808
    → r < day_micros
    → IsI64 (a -ℤ pos r)
unfolding ◌-ℤ◌
IsI64-sub a r hi lo h = ground arith

module _ {TimeDate Month : Type 0} (cal : Calendar TimeDate Month) (clock : AcceptsClock cal)
    (d : Date) (y : ℤ) (mo dd : ℕ) (back : from_ymd cal y mo dd ≡ ok d) where
  -- The parts that are kept, and what is built of them
  parts :
      {f : DateTimeField} {k : ℕ} (t : ℕ) (unit : IsUnit f k)
      → t < day_micros
      → (p : ℤ × ℕ × ℕ × ℕ × ℕ × ℕ) × (kept_parts f (y, mo, dd) (to_hms_micro (time t)) ≡ some p)
        × (build cal p ≡ ok (from_date_time d (time (kept unit t))))
  unfolding kept_parts to_hms_micro
  parts t day h = (
    (y, mo, dd, 0, 0, 0),
    refl,
    build_lem cal clock d y mo dd back 0 0 0 (omega arith) (omega arith) (omega arith),
  )
  parts t hour h = (
    (y, mo, dd, t / 3600000000 % 4294967296, 0, 0),
    refl,
    build_lem cal clock d y mo dd back (t / 3600000000 % 4294967296) 0 0 (omega arith) (omega arith)
        (omega arith),
  )
  parts t minute h = (
    (y, mo, dd, t / 3600000000 % 4294967296, t / 60000000 % 60, 0),
    refl,
    build_lem cal clock d y mo dd back (t / 3600000000 % 4294967296) (t / 60000000 % 60) 0
        (omega arith) (omega arith) (omega arith),
  )
  parts t second h = (
    (y, mo, dd, t / 3600000000 % 4294967296, t / 60000000 % 60, t / 1000000 % 60),
    refl,
    build_lem cal clock d y mo dd back (t / 3600000000 % 4294967296) (t / 60000000 % 60)
        (t / 1000000 % 60) (omega arith) (omega arith) (omega arith),
  )

floored :
    {f : DateTimeField} {k : ℕ} (ts : Timestamp) (unit : IsUnit f k)
    → pos_part ts.since_epoch < 9223372036854775808
    → neg_part ts.since_epoch + day_micros ≤ 9223372036854775808
    → from_date_time (to_date_time ts).0 (time (kept unit (to_date_time ts).1.since_midnight))
      ≡ floor_to k ts
unfolding from_date_time to_date_time
floored {k = k} ts unit hi lo =
    let a = ts.since_epoch in
    ap timestamp (
      rw
        (
          wrap_i32_lem (div_euclid a day_micros) (IsI32-div a (omega arith, omega arith)),
          kept_lem a unit,
        )
        (wrap_i64_lem (a -ℤ pos (rem_euclid a k))
          (IsI64-sub a (rem_euclid a k) hi lo (small a unit))))

within_day : (ts : Timestamp) → (to_date_time ts).1.since_midnight < day_micros
unfolding to_date_time
within_day ts = small ts.since_epoch day

-- Where the text names a unit of the clock, the day or the hour, the minute or the second, the
-- calendar gives back the day of the timestamp from its year, month and day, and the crate accepts
-- the times of day, `date_trunc` answers the last whole number of units up to the timestamp, before
-- 1970 as well. The timestamp is at least a day inside an `i64`.
pub date_trunc-floor_to :
    {TimeDate Month : Type 0} (cal : Calendar TimeDate Month) (to_lowercase : String → String)
    (text : String) (f : DateTimeField) (k : ℕ) (ts : Timestamp) (ymd : ℤ × ℕ × ℕ)
    → AcceptsClock cal
    → IsUnit f k
    → parse_field to_lowercase text ≡ ok f
    → to_ymd cal (to_date_time ts).0 ≡ some ymd
    → from_ymd cal ymd.0 ymd.1 ymd.2 ≡ ok (to_date_time ts).0
    → pos_part ts.since_epoch < 9223372036854775808
    → neg_part ts.since_epoch + day_micros ≤ 9223372036854775808
    → date_trunc cal to_lowercase ts text ≡ some (ok (floor_to k ts))
unfolding date_trunc
date_trunc-floor_to cal to_lowercase text f k ts ymd clock unit parsed found back hi lo =
    let t = (to_date_time ts).1.since_midnight in
    let (p, these, built) =
      parts cal clock (to_date_time ts).0 ymd.0 ymd.1 ymd.2 back t unit (within_day ts) in
    rw (date_trunc, parsed, found, these, built) (ap (λ r. some (ok r)) (floored ts unit hi lo))
