-- ===== src/Types/DateTime/Fields.antt =====
-- Times of day taken apart and put together, and intervals without months.
use tensorvault.Prelude.{ℕ, ◌+◌, ◌*◌, ◌/◌, ◌%◌, ◌≤◌, ◌<◌, ◌≡◌, min, ap, ◌∙◌, some, arith}
use tensorvault.Prelude.Results.{ok}
use tensorvault.Prelude.Ints.{
  ℤ, pos, pos_part, neg_part, ◌+ℤ◌, ◌-ℤ◌, ◌*ℤ◌, div_euclid, rem_euclid, IsI32, IsI64, wrap_i64,
  wrap_i32_lem, wrap_i64_lem,
}
use tensorvault.Types.DateTime.{
  Calendar, Date, Time, time, Timestamp, timestamp, day_micros, to_date_time, to_hms_micro,
  from_micros,
}
use tensorvault.Types.DateTime.Split.{IsI32-div, euclid}
use tensorvault.Types.DateTime.Civil.{
  from_ymd, to_ymd, from_hms_nano, days_in_month, date_add_interval, timestamp_add_interval,
}

module _ {TimeDate Month : Type 0} (cal : Calendar TimeDate Month) where
  -- What the crate promises of the time of day
  abbrev pub AcceptsClock : Type 0
  AcceptsClock =
      (h m s n : ℕ)
      → h < 24
      → m < 60
      → s < 60
      → n < 1000000000
      → cal.from_hms h m s n ≡ some (h, m, s, n)

  pub AcceptsClock_bytes :
      (h m s n : ℕ)
      → AcceptsClock
      → h < 24
      → m < 60
      → s < 60
      → n < 1000000000
      → cal.from_hms (h % 256) (m % 256) (s % 256) n ≡ some (h, m, s, n)
  AcceptsClock_bytes h m s n clock hh hm hs hn =
      ap (λ k. cal.from_hms k (m % 256) (s % 256) n) (omega arith)
      ∙ ap (λ k. cal.from_hms h k (s % 256) n) (omega arith)
      ∙ ap (λ k. cal.from_hms h m k n) (omega arith)
      ∙ clock h m s n hh hm hs hn

-- Where the crate accepts the times of day, a time below 24 hours is the one that `from_hms_nano`
-- makes of the hours, minutes, seconds and microseconds that `to_hms_micro` takes it apart into.
pub from_hms_nano-to_hms_micro :
    {TimeDate Month : Type 0} (cal : Calendar TimeDate Month) (t : Time)
    → AcceptsClock cal
    → t.since_midnight < day_micros
    → (let (h, m, s, us) = to_hms_micro t in from_hms_nano cal h m s (us * 1000)) ≡ ok t
unfolding from_hms_nano to_hms_micro
from_hms_nano-to_hms_micro cal t clock h =
    let total = t.since_midnight in
    rw
      (
        from_hms_nano,
        AcceptsClock_bytes cal (total / 3600000000 % 4294967296) (total / 60000000 % 60)
            (total / 1000000 % 60) (total % 1000000 * 1000) clock (omega arith) (omega arith)
            (omega arith) (omega arith),
      )
      (ap (λ k. ok (time k)) (omega arith))

-- The year and the month come back from the sum of the months.
same_month :
    (y : ℤ) (m : ℕ)
    → 1 ≤ m
    → m ≤ 12
    → (div_euclid (y *ℤ 12 +ℤ (pos m -ℤ pos 1) +ℤ pos 0) 12 ≡ y)
      × (rem_euclid (y *ℤ 12 +ℤ (pos m -ℤ pos 1) +ℤ pos 0) 12 + 1 ≡ m)
unfolding div_euclid rem_euclid ◌*ℤ◌ ◌+ℤ◌ ◌-ℤ◌
same_month y m h k = ground arith

IsI32-months :
    (y : ℤ) (m : ℕ)
    → pos_part y ≤ 9999
    → neg_part y ≤ 9999
    → 1 ≤ m
    → m ≤ 12
    → IsI32 (y *ℤ 12 +ℤ (pos m -ℤ pos 1) +ℤ pos 0)
unfolding ◌*ℤ◌ ◌+ℤ◌ ◌-ℤ◌
IsI32-months y m hi lo h k = ground arith

module _ {TimeDate Month : Type 0} (cal : Calendar TimeDate Month) (d : Date) (y : ℤ) (m dd : ℕ)
    (n : ℤ) (found : to_ymd cal d ≡ some (y, m, dd)) (back : from_ymd cal y m dd ≡ ok d)
    (years : (pos_part y ≤ 9999) × (neg_part y ≤ 9999)) (month_in : (1 ≤ m) × (m ≤ 12))
    (day_in : (dd < 256) × (dd ≤ days_in_month cal y m)) where
  same_day : min (dd % 256) (days_in_month cal y m) ≡ dd
  same_day = ground arith

  date_add_interval_lem :
      date_add_interval cal d (from_micros n)
      ≡ some (timestamp (wrap_i64 (d.days *ℤ day_micros +ℤ n)))
  unfolding date_add_interval from_micros
  date_add_interval_lem =
      let (same_y, same_m) = same_month y m month_in.0 month_in.1 in
      rw
        (
          date_add_interval,
          found,
          wrap_i32_lem (y *ℤ 12 +ℤ (pos m -ℤ pos 1) +ℤ pos 0)
              (IsI32-months y m years.0 years.1 month_in.0 month_in.1),
          same_y,
          same_m,
          same_day,
          back,
        )
        (λ i. some (timestamp (wrap_i64 (d.days *ℤ day_micros +ℤ n))))

swap_sum : (a b c : ℤ) → a +ℤ b +ℤ c ≡ a +ℤ c +ℤ b
unfolding ◌+ℤ◌
swap_sum a b c = ground arith

rejoined :
    (ts : Timestamp)
    → IsI64 ts.since_epoch
    → (to_date_time ts).0.days *ℤ day_micros +ℤ pos (to_date_time ts).1.since_midnight
      ≡ ts.since_epoch
unfolding to_date_time
rejoined ts h =
    rw (wrap_i32_lem (div_euclid ts.since_epoch day_micros) (IsI32-div ts.since_epoch h))
      (euclid ts.since_epoch)

-- Adding an interval of microseconds alone to a timestamp adds just those microseconds, where the
-- calendar gives back the day of the timestamp from its year, month and day, of the years from
-- -9999 to 9999, and its month has that day; the day's start with the microseconds, and the whole
-- sum, are values of an `i64`.
pub timestamp_add_interval-from_micros :
    {TimeDate Month : Type 0} (cal : Calendar TimeDate Month) (ts : Timestamp) (n y : ℤ) (m dd : ℕ)
    → to_ymd cal (to_date_time ts).0 ≡ some (y, m, dd)
    → from_ymd cal y m dd ≡ ok (to_date_time ts).0
    → (pos_part y ≤ 9999) × (neg_part y ≤ 9999)
    → (1 ≤ m) × (m ≤ 12)
    → (dd < 256) × (dd ≤ days_in_month cal y m)
    → IsI64 ts.since_epoch
    → IsI64 ((to_date_time ts).0.days *ℤ day_micros +ℤ n)
    → IsI64 (ts.since_epoch +ℤ n)
    → timestamp_add_interval cal ts (from_micros n) ≡ some (timestamp (ts.since_epoch +ℤ n))
unfolding timestamp_add_interval
timestamp_add_interval-from_micros cal ts n y m dd found back years month_in day_in it mid sum =
    let d = (to_date_time ts).0 in
    rw
      (
        timestamp_add_interval,
        date_add_interval_lem cal d y m dd n found back years month_in day_in,
        wrap_i64_lem (d.days *ℤ day_micros +ℤ n) mid,
        swap_sum (d.days *ℤ day_micros) n (pos (to_date_time ts).1.since_midnight),
        rejoined ts it,
      )
      (ap (λ k. some (timestamp k)) (wrap_i64_lem (ts.since_epoch +ℤ n) sum))
