-- ===== src/Storage/Wal/Examples.antt =====
-- Runs of the log on small records, under a small hash.
use tensorvault.Prelude.{
  ℕ, ◌+◌, ◌*◌, ◌%◌, ◌^◌, ◌<◌, ◌≤◌, ◌≡◌, refl, true, false, inl, List, [], ◌∷◌, length, take, arith,
}
use tensorvault.Prelude.Results.{ok}
use tensorvault.Storage.Bytes.{to_le_bytes, from_le_bytes, bytes_eq}
use tensorvault.Storage.Wal.Format.{
  WalRecord, body, check_record, encode, encode_all, next_record, read_all,
}
use tensorvault.Storage.Wal.Format.RoundTrip.{IsWritable, whole_records, read_all_crash}
use tensorvault.Storage.Wal.Action.{Answer, done, failed, Wal, device}
use tensorvault.Storage.Wal.Log.{
  Op, do_append, do_flush, do_sync, run, step, flush, open_log, default_zone_capacity, append, sync,
  simulate_crash,
}
use tensorvault.Storage.Wal.Log.Crash.{LargeAppendsSucceed, crash_recovers, sync_recovers}
use tensorvault.Storage.Wal.Log.Rotation.{IsZoned}
use tensorvault.Storage.Wal.Log.Zones.{run-IsZoned}

abbrev small_hash : List ℕ → ℕ
small_hash [] = 7
small_hash (b ∷ bs) = (b + 31 * small_hash bs) % 2 ^ 64

small_hash_fits : (bs : List ℕ) → small_hash bs < 2 ^ 64
small_hash_fits [] = omega arith
small_hash_fits (b ∷ bs) = omega arith

abbrev first : WalRecord
first = record { txn_id = 7; record_type = 1; payload = 104 ∷ 105 ∷ [] }

abbrev second : WalRecord
second = record { txn_id = 7; record_type = 0; payload = [] }

abbrev both : List WalRecord
both = first ∷ second ∷ []

first-IsWritable : IsWritable first
first-IsWritable = record { txn_fits = omega arith; payload_fits = omega arith }

second-IsWritable : IsWritable second
second-IsWritable = record { txn_fits = omega arith; payload_fits = omega arith }

-- Cut inside the second record.
cut_log : read_all small_hash 9 (take 40 (encode_all small_hash both)) ≡ first ∷ []
unfolding read_all encode_all next_record encode to_le_bytes body bytes_eq from_le_bytes
    check_record
cut_log = refl

-- The third call of the device fails after nine bytes.
abbrev ops : List Op
ops = do_append first ∷ do_sync ∷ do_append second ∷ do_flush ∷ []

abbrev answers : List Answer
answers = done ∷ done ∷ failed 9 ∷ []

abbrev one_on_disk : Wal
one_on_disk = (run small_hash ops (open_log false [] answers)).1

one_recovered : read_all small_hash 9 (simulate_crash one_on_disk) ≡ first ∷ []
unfolding read_all simulate_crash next_record bytes_eq from_le_bytes check_record run open_log step
    flush append to_le_bytes body device
one_recovered = refl

read_all_crash_example :
    read_all small_hash 9 (take 40 (encode_all small_hash both)) ≡ whole_records small_hash 40 both
read_all_crash_example =
    read_all_crash small_hash both 40 9 small_hash_fits (first-IsWritable, (second-IsWritable, tt))
      (omega arith)

both_appended : (run small_hash ops (open_log false [] answers)).0 ≡ both
unfolding run open_log step flush append to_le_bytes body device
both_appended = refl

first_small : length (encode small_hash first) < 8192
unfolding encode to_le_bytes body
first_small = omega arith

second_small : length (encode small_hash second) < 8192
unfolding encode to_le_bytes body
second_small = omega arith

small_records : LargeAppendsSucceed small_hash ops (open_log false [] answers)
unfolding LargeAppendsSucceed
small_records = (inl first_small, (tt, (inl second_small, (tt, tt))))

few_appended : length (run small_hash ops (open_log false [] answers)).0 < 9
few_appended = rw both_appended (omega arith)

crash_recovers_example :
    read_all small_hash 9 (simulate_crash (run small_hash ops (open_log false [] answers)).1)
    ≡ whole_records small_hash
        (length (simulate_crash (run small_hash ops (open_log false [] answers)).1))
        (run small_hash ops (open_log false [] answers)).0
crash_recovers_example =
    crash_recovers small_hash ops false answers 9 small_hash_fits
      (first-IsWritable, (tt, (second-IsWritable, (tt, tt)))) small_records few_appended

last_sync : (sync (run small_hash ops (open_log false [] answers)).1).0 ≡ ok tt
unfolding sync run open_log step flush append to_le_bytes body device
last_sync = refl

sync_recovers_example :
    read_all small_hash 9
      (simulate_crash (sync (run small_hash ops (open_log false [] answers)).1).1)
    ≡ (run small_hash ops (open_log false [] answers)).0
sync_recovers_example =
    sync_recovers small_hash ops false answers 9 small_hash_fits
      (first-IsWritable, (tt, (second-IsWritable, (tt, tt)))) small_records few_appended last_sync

first_fits : length (encode small_hash first) ≤ default_zone_capacity
unfolding encode to_le_bytes body
first_fits = omega arith

second_fits : length (encode small_hash second) ≤ default_zone_capacity
unfolding encode to_le_bytes body
second_fits = omega arith

run-IsZoned_example : IsZoned (run small_hash ops (open_log true [] answers)).1
run-IsZoned_example =
    run-IsZoned small_hash ops true [] answers (first_fits, (tt, (second_fits, (tt, tt))))
      (omega arith)
