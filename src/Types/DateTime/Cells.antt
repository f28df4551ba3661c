-- ===== src/Types/DateTime/Cells.antt =====
-- The `u64` cells of dates, timestamps and intervals.
use tensorvault.Prelude.{◌≡◌, ap, ltb, ◌↔◌, arith}
use tensorvault.Prelude.Ints.{
  pos, ltb_ℤ, as_unsigned, rem_euclid, IsI32, IsI64, as_i32-as_u32, as_i64-as_u64,
}
use tensorvault.Types.DateTime.{
  Date, date, Timestamp, timestamp, Interval, interval, date_to_u64, date_from_u64,
  timestamp_to_u64, timestamp_from_u64, to_u64_pair, from_u64_pair,
}

-- Dates, timestamps and intervals, whose fields are values of an `i32` or an `i64`, come back from
-- their cells as they were: each `from_u64` undoes its `to_u64`, and `from_u64_pair` undoes
-- `to_u64_pair`.
pub from_u64-to_u64 :
    (d : Date) (t : Timestamp) (iv : Interval)
    → IsI32 d.days
    → IsI64 t.since_epoch
    → IsI32 iv.months × IsI64 iv.micros
    → (date_from_u64 (date_to_u64 d) ≡ d)
      × (timestamp_from_u64 (timestamp_to_u64 t) ≡ t)
      × (from_u64_pair (to_u64_pair iv) ≡ iv)
unfolding date_from_u64 date_to_u64 timestamp_from_u64 timestamp_to_u64 from_u64_pair to_u64_pair
from_u64-to_u64 d t iv hd ht hi = (
  ap date (as_i32-as_u32 d.days hd),
  ap timestamp (as_i64-as_u64 t.since_epoch ht),
  λ i. interval (as_i32-as_u32 iv.months hi.0 i) (as_i64-as_u64 iv.micros hi.1 i),
)

-- The cells of two dates, compared as `u64`, are in the order of the dates just when the dates are
-- both from 1970 on or both before it.
pub date_cells_order :
    (a b : Date)
    → IsI32 a.days
    → IsI32 b.days
    → (ltb (date_to_u64 a) (date_to_u64 b) ≡ ltb_ℤ a.days b.days)
      ↔ (ltb_ℤ a.days (pos 0) ≡ ltb_ℤ b.days (pos 0))
unfolding date_to_u64 as_unsigned rem_euclid
date_cells_order a b ha hb = ground arith
