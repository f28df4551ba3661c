-- ===== src/Storage/Wal/Log/Crash.antt =====
-- What a reader finds after a crash.
use tensorvault.Prelude.{
  ℕ, ◌<◌, ◌^◌, ◌≡◌, refl, ap, ◌∙◌, sym, Bool, List, [], ◌∷◌, ◌++◌, length, take, arith,
  take-length_append,
}
use mathlib.Core.List.{append_assoc, append-nil}
use tensorvault.Prelude.Forall.{All, All-append}
use tensorvault.Prelude.Results.{Result, ok, err}
use tensorvault.Storage.Wal.Format.{WalRecord, encode, encode_all, read_all}
use tensorvault.Storage.Wal.Format.RoundTrip.{
  IsWritable, whole_records, read_all_crash, read_all-encode_all,
}
use tensorvault.Storage.Wal.Action.{Answer, WalError, Wal, device}
use tensorvault.Storage.Wal.Log.{
  Op, do_append, do_flush, do_sync, do_open_zone, do_finish_zone, do_rotate, step, run, ran, append,
  sync, flush_file, open_log, simulate_crash,
}
use tensorvault.Storage.Wal.Log.Contents.{
  contents, buffered, flush-Keeps, sync-Keeps, open_zone-Keeps, finish_zone-Keeps, rotate-Keeps,
}
use tensorvault.Storage.Wal.Log.Writes.{written, Settles, append-Writes}

abbrev pub OpIsWritable : Op → Type 0
OpIsWritable (do_append r) = IsWritable r
OpIsWritable _ = Unit

contents-split : (w : Wal) → contents w ≡ simulate_crash w ++ buffered w
unfolding contents simulate_crash buffered
contents-split w = ground arith

sync_empties : (w : Wal) → (sync w).0 ≡ ok tt → buffered (sync w).1 ≡ []
unfolding sync flush_file buffered device
sync_empties w h = ground arith

-- A successful `sync` leaves all bytes of the log on disk.
pub sync_durable : (w : Wal) → (sync w).0 ≡ ok tt → simulate_crash (sync w).1 ≡ contents w
sync_durable w synced =
    let v = (sync w).1 in
    sym (append-nil (simulate_crash v))
    ∙ (ap (λ (t : List ℕ). simulate_crash v ++ t) (sym (sync_empties w synced))
        ∙ (sym (contents-split v) ∙ sync-Keeps w))

module _ (xxh3_64 : List ℕ → ℕ) where
  encode_all-append :
      (rs ts : List WalRecord)
      → encode_all xxh3_64 (rs ++ ts) ≡ encode_all xxh3_64 rs ++ encode_all xxh3_64 ts
  unfolding encode_all
  encode_all-append [] ts = refl
  encode_all-append (r ∷ rs) ts =
      rw (encode_all-append rs ts)
        (sym (append_assoc (encode xxh3_64 r) (encode_all xxh3_64 rs) (encode_all xxh3_64 ts)))

  encode_all-ran :
      (result : Result (Unit {0}) WalError) (r : WalRecord)
      → encode_all xxh3_64 (ran result r) ≡ written result (encode xxh3_64 r)
  unfolding encode_all
  encode_all-ran (ok a) r = append-nil (encode xxh3_64 r)
  encode_all-ran (err e) r = refl

  -- A failed append of a record as large as the buffer may leave a part of it in the file.
  abbrev pub OpSettles : Op → Wal → Type 0
  OpSettles (do_append r) w = Settles (append xxh3_64 r w).0 (encode xxh3_64 r)
  OpSettles _ w = Unit

  -- Each call of `append` has a record of less than 8192 bytes, or succeeds.
  unfoldable pub LargeAppendsSucceed : List Op → Wal → Type 0
  LargeAppendsSucceed [] w = Unit
  LargeAppendsSucceed (op ∷ ops) w = OpSettles op w × LargeAppendsSucceed ops (step xxh3_64 op w).1

  contents-step :
      (op : Op) (w : Wal)
      → OpSettles op w
      → contents (step xxh3_64 op w).1 ≡ contents w ++ encode_all xxh3_64 (step xxh3_64 op w).0
  unfolding step encode_all
  contents-step (do_append r) w s =
      rw (encode_all-ran (append xxh3_64 r w).0 r) (append-Writes xxh3_64 r w s)
  contents-step do_flush w s = flush-Keeps w ∙ sym (append-nil (contents w))
  contents-step do_sync w s = sync-Keeps w ∙ sym (append-nil (contents w))
  contents-step do_open_zone w s = open_zone-Keeps w ∙ sym (append-nil (contents w))
  contents-step do_finish_zone w s = finish_zone-Keeps w ∙ sym (append-nil (contents w))
  contents-step do_rotate w s = rotate-Keeps w ∙ sym (append-nil (contents w))

  contents-run :
      (ops : List Op) (w : Wal)
      → LargeAppendsSucceed ops w
      → contents (run xxh3_64 ops w).1 ≡ contents w ++ encode_all xxh3_64 (run xxh3_64 ops w).0
  unfolding run LargeAppendsSucceed
  contents-run [] w s = unfold encode_all in sym (append-nil (contents w))
  contents-run (op ∷ ops) w s =
      let (rs, v) = step xxh3_64 op w in
      let more = (run xxh3_64 ops v).0 in
      contents-run ops v s.1
      ∙ (ap (λ (t : List ℕ). t ++ encode_all xxh3_64 more) (contents-step op w s.0)
          ∙ (append_assoc (contents w) (encode_all xxh3_64 rs) (encode_all xxh3_64 more)
              ∙ ap (λ (t : List ℕ). contents w ++ t) (sym (encode_all-append rs more))))

  ran-IsWritable :
      (result : Result (Unit {0}) WalError) (r : WalRecord)
      → IsWritable r
      → All IsWritable (ran result r)
  ran-IsWritable (ok a) r h = (h, tt)
  ran-IsWritable (err e) r h = tt

  step-IsWritable : (op : Op) (w : Wal) → OpIsWritable op → All IsWritable (step xxh3_64 op w).0
  unfolding step
  step-IsWritable (do_append r) w h = ran-IsWritable (append xxh3_64 r w).0 r h
  step-IsWritable _ w h = tt

  run-IsWritable :
      (ops : List Op) (w : Wal) → All OpIsWritable ops → All IsWritable (run xxh3_64 ops w).0
  unfolding run
  run-IsWritable [] w h = tt
  run-IsWritable (op ∷ ops) w h =
      All-append IsWritable (step xxh3_64 op w).0 (run xxh3_64 ops (step xxh3_64 op w).1).0
        (step-IsWritable op w h.0) (run-IsWritable ops (step xxh3_64 op w).1 h.1)

  -- A log that starts empty holds the records of the successful appends.
  fresh_contents :
      (ops : List Op) (is_zns : Bool) (outcomes : List Answer)
      → LargeAppendsSucceed ops (open_log is_zns [] outcomes)
      → contents (run xxh3_64 ops (open_log is_zns [] outcomes)).1
        ≡ encode_all xxh3_64 (run xxh3_64 ops (open_log is_zns [] outcomes)).0
  unfolding open_log contents
  fresh_contents ops is_zns outcomes s =
      unfold contents in contents-run ops (open_log is_zns [] outcomes) s

  -- Whatever calls a process makes on a log that starts empty, with writable records, and however
  -- the device answers, also by writing a part of the bytes, after a crash the reader finds exactly
  -- the successfully appended records that are on disk as a whole, in their order, given more fuel
  -- than there are records. The condition is that no append of a record of 8192 bytes or more,
  -- which bypasses the buffer, fails.
  pub crash_recovers :
      (ops : List Op) (is_zns : Bool) (outcomes : List Answer) (fuel : ℕ)
      → ((bs : List ℕ) → xxh3_64 bs < 2 ^ 64)
      → All OpIsWritable ops
      → LargeAppendsSucceed ops (open_log is_zns [] outcomes)
      → length (run xxh3_64 ops (open_log is_zns [] outcomes)).0 < fuel
      → let (rs, w) = run xxh3_64 ops (open_log is_zns [] outcomes) in
        read_all xxh3_64 fuel (simulate_crash w)
        ≡ whole_records xxh3_64 (length (simulate_crash w)) rs
  crash_recovers ops is_zns outcomes fuel hash_fits h large f =
      let start = open_log is_zns [] outcomes in
      let (rs, w) = run xxh3_64 ops start in
      ap (read_all xxh3_64 fuel) (
        sym (take-length_append (simulate_crash w) (buffered w))
        ∙ ap (take (length (simulate_crash w)))
            (sym (contents-split w) ∙ fresh_contents ops is_zns outcomes large))
      ∙ read_all_crash xxh3_64 rs (length (simulate_crash w)) fuel hash_fits
          (run-IsWritable ops start h) f

  -- When the calls end with a successful `sync`, a crash right after it loses nothing: the reader
  -- finds every record whose `append` succeeded, in order, given more fuel than there are records.
  -- Writes that failed before may have written a part of their bytes. The condition is that no
  -- append of a record of 8192 bytes or more, which bypasses the buffer, fails.
  pub sync_recovers :
      (ops : List Op) (is_zns : Bool) (outcomes : List Answer) (fuel : ℕ)
      → ((bs : List ℕ) → xxh3_64 bs < 2 ^ 64)
      → All OpIsWritable ops
      → LargeAppendsSucceed ops (open_log is_zns [] outcomes)
      → length (run xxh3_64 ops (open_log is_zns [] outcomes)).0 < fuel
      → (sync (run xxh3_64 ops (open_log is_zns [] outcomes)).1).0 ≡ ok tt
      → let (rs, w) = run xxh3_64 ops (open_log is_zns [] outcomes) in
        read_all xxh3_64 fuel (simulate_crash (sync w).1) ≡ rs
  sync_recovers ops is_zns outcomes fuel hash_fits h large f synced =
      let start = open_log is_zns [] outcomes in
      let (rs, w) = run xxh3_64 ops start in
      ap (read_all xxh3_64 fuel) (sync_durable w synced ∙ fresh_contents ops is_zns outcomes large)
      ∙ read_all-encode_all xxh3_64 rs fuel hash_fits (run-IsWritable ops start h) f
