-- ===== src/Storage/Wal/Log/Zones.antt =====
-- The zones of the log: one is open at a time, its state follows its offset, and it never overflows.
use tensorvault.Prelude.{
  ℕ, ◌+◌, u64_mod, ◌≤◌, ◌<◌, ◌≡◌, ◌∙◌, refl, Bool, List, [], ◌∷◌, length, arith,
}
use tensorvault.Prelude.Forall.{All}
use tensorvault.Prelude.Results.{Result, ok, err}
use tensorvault.Storage.Wal.Format.{WalRecord, encode}
use tensorvault.Storage.Wal.Action.{Answer, WalError, Wal, Action, continue}
use tensorvault.Storage.Wal.Log.{
  default_zone_capacity, open_log, rotate_for, fill_zone, write_all, count_record, append, Op,
  do_append, do_flush, do_sync, do_open_zone, do_finish_zone, do_rotate, step, run,
}
use tensorvault.Storage.Wal.Log.Rotation.{
  IsZoned, open_log-IsZoned, sync_same, flush_same, opened-finish_zone, finish_zone-IsZoned,
  open_zone-IsZoned, opened-open_zone, opened-rotate, rotate-IsZoned, HasRoom, capacity-finish_zone,
  open_zone_room, rotate_room, rotate_for_lem, fill_zone-IsZoned, write_all_same,
}

-- The predicate, the capacity, which the calls leave alone, and a bound on the number of zones.
abbrev Zoned : ℕ → ℕ → Wal → Type 0
Zoned c k w = IsZoned w × (w.zone_capacity ≡ c) × (w.zones_opened ≤ k)

continue-Zoned :
    {A B : Type 0} (c k : ℕ) (r : Result A WalError) (f : A → Action B) (w : Wal)
    → Zoned c k w
    → ((a : A) → Zoned c k (f a w).1)
    → Zoned c k (continue r f w).1
continue-Zoned c k (ok a) f w h g = g a
continue-Zoned c k (err e) f w h g = h

write_all-Zoned :
    (c k : ℕ) (bytes : List ℕ) (w : Wal) → Zoned c k w → Zoned c k (write_all bytes w).1
write_all-Zoned c k bytes w h = ground (arith, write_all_same bytes w)

fill_zone-Zoned :
    (c k n : ℕ) (w : Wal)
    → 0 < n
    → c < u64_mod
    → HasRoom n w
    → Zoned c k w
    → Zoned c k (fill_zone n w).1
fill_zone-Zoned c k n w pos b room h = (
  fill_zone-IsZoned n w pos (rw h.1 b) room h.0,
  unfold fill_zone in ground arith,
  unfold fill_zone in ground arith,
)

module _ (xxh3_64 : List ℕ → ℕ) where
  encode_pos : (r : WalRecord) → 0 < length (encode xxh3_64 r)
  unfolding encode
  encode_pos r = omega arith

  append-Zoned :
      (c k : ℕ) (r : WalRecord) (w : Wal)
      → length (encode xxh3_64 r) ≤ c
      → c < u64_mod
      → k + 1 < u64_mod
      → Zoned c k w
      → Zoned c (k + 1) (append xxh3_64 r w).1
  unfolding append count_record
  append-Zoned c k r w room cap few h =
      let buf = encode xxh3_64 r in
      let n = length buf in
      let v = (rotate_for n w).1 in
      let u = (fill_zone n v).1 in
      let t = (write_all buf u).1 in
      let (zoned, fits, same, opened) = rotate_for_lem n w (rw h.1 room) (omega (arith, h.2)) h.0 in
      let rotated : Zoned c (k + 1) v = (zoned, same ∙ h.1, omega (arith, opened, h.2)) in
      let filled = fill_zone-Zoned c (k + 1) n v (encode_pos r) cap fits rotated in
      let wrote = write_all-Zoned c (k + 1) buf u filled in
      continue-Zoned c (k + 1) (rotate_for n w).0 _ v rotated λ _.
        continue-Zoned c (k + 1) (fill_zone n v).0 _ u filled λ _.
          continue-Zoned c (k + 1) (write_all buf u).0 (λ _. count_record n) t wrote (λ _. wrote)

  -- The record of an append is no larger than a zone.
  abbrev pub OpFits : ℕ → Op → Type 0
  OpFits c (do_append r) = length (encode xxh3_64 r) ≤ c
  OpFits c _ = Unit

  step-Zoned :
      (c k : ℕ) (op : Op) (w : Wal)
      → OpFits c op
      → c < u64_mod
      → k + 1 < u64_mod
      → Zoned c k w
      → Zoned c (k + 1) (step xxh3_64 op w).1
  unfolding step
  step-Zoned c k (do_append r) w room cap few h = append-Zoned c k r w room cap few h
  step-Zoned c k do_flush w room cap few h = ground (arith, flush_same w)
  step-Zoned c k do_sync w room cap few h = ground (arith, sync_same w)
  step-Zoned c k do_open_zone w room cap few h = (
    open_zone-IsZoned w (omega (arith, h.2)) h.0,
    (open_zone_room 0 w (omega arith)).1 ∙ h.1,
    omega (arith, opened-open_zone w, h.2),
  )
  step-Zoned c k do_finish_zone w room cap few h = (
    finish_zone-IsZoned w (omega (arith, h.2)) h.0,
    capacity-finish_zone w ∙ h.1,
    omega (arith, opened-finish_zone w, h.2),
  )
  step-Zoned c k do_rotate w room cap few h = (
    rotate-IsZoned w (omega (arith, h.2)) h.0,
    (rotate_room 0 w (omega arith)).1 ∙ h.1,
    omega (arith, opened-rotate w, h.2),
  )

  run-Zoned :
      (c k : ℕ) (ops : List Op) (w : Wal)
      → All (OpFits c) ops
      → c < u64_mod
      → k + length ops < u64_mod
      → Zoned c k w
      → IsZoned (run xxh3_64 ops w).1
  unfolding run
  run-Zoned c k [] w room cap few h = h.0
  run-Zoned c k (op ∷ ops) w room cap few h =
      run-Zoned c (k + 1) ops (step xxh3_64 op w).1 room.1 cap (omega arith)
        (step-Zoned c k op w room.0 cap (omega arith) h)

  -- Whatever fewer than 2 ^ 64 calls are made on a freshly opened log, with records that fit in a
  -- zone, and however the device answers: zones were opened at least as often as finished, once more
  -- while one is open; the open zone is the last one opened, holds at most its capacity, and is
  -- marked empty, open or full exactly as its offset says.
  pub run-IsZoned :
      (ops : List Op) (is_zns : Bool) (disk : List ℕ) (outcomes : List Answer)
      → All (OpFits default_zone_capacity) ops
      → length ops < u64_mod
      → IsZoned (run xxh3_64 ops (open_log is_zns disk outcomes)).1
  run-IsZoned ops is_zns disk outcomes room few =
      run-Zoned default_zone_capacity 0 ops (open_log is_zns disk outcomes) room (omega arith)
        (omega arith)
        (
          open_log-IsZoned is_zns disk outcomes,
          unfold open_log in refl,
          unfold open_log in omega arith,
        )
