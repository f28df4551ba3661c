-- ===== src/Types/DateTime/Split.antt =====
-- Timestamps split into a date and a time of day, and the days of the week.
use tensorvault.Prelude.{ℕ, ◌+◌, ◌≤◌, ◌<◌, ◌≡◌, ap, ◌==◌, if◌then◌else◌, arith}
use tensorvault.Prelude.Ints.{
  ℤ, pos, pos_part, neg_part, ◌+ℤ◌, ◌*ℤ◌, div_euclid, rem_euclid, IsI32, IsI64, wrap_i32_lem,
  wrap_i64_lem,
}
use tensorvault.Types.DateTime.{
  Date, date, Time, Timestamp, timestamp, day_micros, from_date_time, to_date_time, dow, isodow,
}

pub euclid : (a : ℤ) → div_euclid a day_micros *ℤ day_micros +ℤ pos (rem_euclid a day_micros) ≡ a
unfolding div_euclid rem_euclid ◌*ℤ◌ ◌+ℤ◌
euclid a = ground arith

pub IsI32-div : (a : ℤ) → IsI64 a → IsI32 (div_euclid a day_micros)
unfolding div_euclid
IsI32-div a h = ground arith

-- Every timestamp of an `i64` is the timestamp of its date and its time of day.
pub from_date_time-to_date_time :
    (t : Timestamp) → IsI64 t.since_epoch → from_date_time (to_date_time t).0 (to_date_time t).1 ≡ t
unfolding from_date_time to_date_time
from_date_time-to_date_time t h = ap timestamp (
    rw
      (
        wrap_i32_lem (div_euclid t.since_epoch day_micros) (IsI32-div t.since_epoch h),
        euclid t.since_epoch,
      )
      (wrap_i64_lem t.since_epoch h))

euclid_unique :
    (d : ℤ) (t : ℕ)
    → t < day_micros
    → (div_euclid (d *ℤ day_micros +ℤ pos t) day_micros ≡ d)
      × (rem_euclid (d *ℤ day_micros +ℤ pos t) day_micros ≡ t)
unfolding div_euclid rem_euclid ◌*ℤ◌ ◌+ℤ◌
euclid_unique d t h = ground arith

IsI64-of :
    (d : ℤ) (t : ℕ)
    → pos_part d ≤ 106751990
    → neg_part d ≤ 106751990
    → t < day_micros
    → IsI64 (d *ℤ day_micros +ℤ pos t)
unfolding ◌*ℤ◌ ◌+ℤ◌
IsI64-of d t hi lo h = ground arith

-- A date at most 106751990 days from 1970 and a time of day below 24 hours come back from their
-- timestamp: such days are the whole ones among the microseconds of an `i64`.
pub to_date_time-from_date_time :
    (d : Date) (t : Time)
    → pos_part d.days ≤ 106751990
    → neg_part d.days ≤ 106751990
    → t.since_midnight < day_micros
    → to_date_time (from_date_time d t) ≡ (d, t)
unfolding from_date_time to_date_time
to_date_time-from_date_time d t hi lo h =
    let (days, micros) = euclid_unique d.days t.since_midnight h in
    let sum = d.days *ℤ day_micros +ℤ pos t.since_midnight in
    rw
      (
        wrap_i64_lem sum (IsI64-of d.days t.since_midnight hi lo h),
        days,
        micros,
        wrap_i32_lem d.days (omega arith, omega arith),
      )
      (λ i. (d, t))

add_pos : (a : ℤ) (m n : ℕ) → a +ℤ pos m +ℤ pos n ≡ a +ℤ pos (m + n)
unfolding ◌+ℤ◌
add_pos a m n = ground arith

IsI32-add :
    (a : ℤ) (k : ℕ) → pos_part a + k < 2147483648 → neg_part a ≤ 2147483648 → IsI32 (a +ℤ pos k)
unfolding ◌+ℤ◌
IsI32-add a k h l = ground arith

week :
    (a : ℤ)
    → (rem_euclid (a +ℤ pos 5) 7
        ≡ (if rem_euclid (a +ℤ pos 4) 7 == 6 then 0 else rem_euclid (a +ℤ pos 4) 7 + 1))
      × (rem_euclid (a +ℤ pos 3) 7 + 1
          ≡ (if rem_euclid (a +ℤ pos 4) 7 == 0 then 7 else rem_euclid (a +ℤ pos 4) 7))
unfolding rem_euclid ◌+ℤ◌
week a = ground arith

-- Unless the sum leaves the `i32`, the days of the week follow one another: Sunday is 0 after 6 for
-- `dow`, and it is 7 for `isodow`, which agrees with `dow` on the other days.
pub dow_next :
    (d : Date)
    → pos_part d.days + 5 < 2147483648
    → neg_part d.days ≤ 2147483648
    → (dow (date (d.days +ℤ pos 1)) ≡ (if dow d == 6 then 0 else dow d + 1))
      × (isodow d ≡ (if dow d == 0 then 7 else dow d))
unfolding dow isodow
dow_next d h l =
    rw
      (
        wrap_i32_lem (d.days +ℤ pos 4) (IsI32-add d.days 4 (omega arith) l),
        wrap_i32_lem (d.days +ℤ pos 3) (IsI32-add d.days 3 (omega arith) l),
        add_pos d.days 1 4,
        wrap_i32_lem (d.days +ℤ pos 5) (IsI32-add d.days 5 h l),
      )
      (week d.days)
