-- ===== src/Exec/DateTimeOps/Examples.antt =====
-- Fields and truncation at fixed inputs.
use Prim.Native.String.{String}
use tensorvault.Prelude.{◌≡◌, refl, some, arith}
use tensorvault.Prelude.Results.{ok, err}
use tensorvault.Prelude.Ints.{
  pos, ◌+ℤ◌, ◌-ℤ◌, div_trunc, div_euclid, rem_euclid, as_signed, as_unsigned, wrap_i32,
}
use tensorvault.Types.DateTime.{date, invalid_arg, to_date_time}
use tensorvault.Types.DateTime.Civil.{from_ymd, to_ymd}
use tensorvault.Types.DateTime.Examples.{december_1969, late, december-AcceptsClock}
use tensorvault.Exec.DateTimeOps.{
  DateTimeField, parse_field, date_part, extract_from_timestamp, span_of, date_trunc,
}
use tensorvault.Exec.DateTimeOps.Trunc.{hour, floor_to, date_trunc-floor_to}

abbrev same_text : String → String
same_text s = s

no_week : date_part december_1969 same_text (date (pos 0)) "week" ≡ some (err invalid_arg)
unfolding date_part parse_field
no_week = refl

centuries : (span_of (pos 2000) 100 ≡ pos 20) × (span_of (pos 2001) 100 ≡ pos 21)
unfolding span_of div_trunc ◌+ℤ◌ ◌-ℤ◌
centuries = (refl, refl)

the_hour : extract_from_timestamp december_1969 late DateTimeField.hour ≡ some (pos 23)
unfolding extract_from_timestamp to_date_time div_euclid rem_euclid
the_hour = refl

date_trunc-floor_to_example :
    date_trunc december_1969 same_text late "hour" ≡ some (ok (floor_to 3600000000 late))
unfolding parse_field to_date_time to_ymd from_ymd div_euclid rem_euclid wrap_i32 as_signed
    as_unsigned ◌+ℤ◌ ◌-ℤ◌
date_trunc-floor_to_example =
    date_trunc-floor_to december_1969 same_text "hour" DateTimeField.hour 3600000000 late
      (pos 1969, 12, 31) december-AcceptsClock hour refl refl refl (omega arith) (omega arith)
