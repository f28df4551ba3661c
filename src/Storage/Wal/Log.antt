-- ===== src/Storage/Wal/Log.antt =====
-- src/storage/wal.rs: `Wal`, its zones, and appends over a `BufWriter`. The path, the tier and the
-- locks, which a single caller never waits for, are left out.
pub mod Contents
pub mod Writes
pub mod Rotation
pub mod Zones
pub mod Crash
use tensorvault.Prelude.{
  ℕ, ◌+◌, ◌-◌, ◌%◌, u64_mod, ltb, leb, if◌then◌else◌, Bool, true, false, Option, none, some, List,
  [], ◌∷◌, ◌++◌, length,
}
use tensorvault.Prelude.Results.{Result, ok, err}
use tensorvault.Storage.Wal.Format.{WalRecord, encode}
use tensorvault.Storage.Wal.Action.{
  WalZoneState, WalZone, File, WalError, Wal, Action, continue, device, pure, raise, Answer, landed,
  unwritten, ◌>>=◌, ◌>>◌,
}

-- 1 << 30
abbrev pub default_zone_capacity : ℕ
default_zone_capacity = 0x40000000

-- The default capacity of a `BufWriter`.
abbrev pub buffer_capacity : ℕ
buffer_capacity = 8192

-- A freshly opened log over what the file holds.
unfoldable pub open_log : Bool → List ℕ → List Answer → Wal
open_log is_zns disk outcomes = record {
  file = some (record { disk = disk; buffer = [] });
  bytes_written = 0;
  records_written = 0;
  is_zns = is_zns;
  zone_capacity = default_zone_capacity;
  current_zone = none;
  zones_opened = 0;
  zones_finished = 0;
  outcomes = outcomes;
}

unfoldable pub new_zone : ℕ → ℕ → WalZone
new_zone zone_id capacity = record {
  zone_id = zone_id;
  capacity = capacity;
  write_offset = 0;
  state = WalZoneState.empty;
}

-- `saturating_sub`, which is `-` on the natural numbers
unfoldable pub remaining : WalZone → ℕ
remaining z = z.capacity - z.write_offset

-- `BufWriter::flush`: an empty buffer makes no call, and what a failed one has written leaves the
-- buffer.
unfoldable pub flush_file : File → Action (Unit {0})
flush_file f w = elim f.buffer [
  | [] ↦ (ok tt, w)
  | _ ↦ device WalError.io (record w {
    file = some (record {
      disk = f.disk ++ landed w.outcomes f.buffer;
      buffer = unwritten w.outcomes f.buffer;
    });
  })
]

unfoldable pub flush : Action (Unit {0})
unfolding flush_file
flush w = elim w.file [ none ↦ (ok tt, w) | some f ↦ flush_file f w ]

unfoldable pub sync : Action (Unit {0})
unfolding flush_file
sync w = elim w.file [ none ↦ (ok tt, w) | some f ↦ (do flush_file f; device WalError.io) w ]

-- The `BLKOPENZONE` and `BLKFINISHZONE` calls: made on a ZNS device while the file is there.
unfoldable pub zone_ioctl : Action (Unit {0})
zone_ioctl w =
    if w.is_zns
    then elim w.file [ none ↦ (ok tt, w) | some _ ↦ device WalError.unsupported w ]
    else (ok tt, w)

-- `*self.zones_finished.lock() += 1`
unfoldable pub count_finished : Action (Unit {0})
count_finished w = (ok tt, record w { zones_finished = (w.zones_finished + 1) % u64_mod })

unfoldable pub finish_zone : Action (Unit {0})
unfolding zone_ioctl sync count_finished
finish_zone w = elim w.current_zone [
  | none ↦ (ok tt, w)
  | some zone ↦ (do zone_ioctl; sync; count_finished) (record w { current_zone = none })
]

-- `if self.current_zone.lock().is_some() { self.finish_zone()?; }`
unfoldable pub finish_if_open : Action (Unit {0})
unfolding finish_zone
finish_if_open w = elim w.current_zone [ none ↦ (ok tt, w) | some _ ↦ finish_zone w ]

unfoldable pub take_zone_id : Action ℕ
take_zone_id w = (ok w.zones_opened, record w { zones_opened = (w.zones_opened + 1) % u64_mod })

unfoldable pub start_zone : ℕ → Action ℕ
unfolding new_zone
start_zone zone_id w =
    (ok zone_id, record w { current_zone = some (new_zone zone_id w.zone_capacity) })

unfoldable pub open_zone : Action ℕ
unfolding finish_if_open zone_ioctl take_zone_id start_zone
open_zone = do finish_if_open; zone_id ← take_zone_id; zone_ioctl; start_zone zone_id

unfoldable pub rotate : Action (Unit {0})
unfolding finish_zone open_zone
rotate = do finish_zone; zone_id ← open_zone; pure tt

-- `match &*zone_guard { None => true, Some(zone) => zone.remaining() < buf_len }`
unfoldable pub need_rotate : ℕ → Wal → Bool
unfolding remaining
need_rotate buf_len w = elim w.current_zone [
  | none ↦ true
  | some zone ↦ ltb (remaining zone) buf_len
]

unfoldable pub rotate_for : ℕ → Action (Unit {0})
unfolding need_rotate rotate
rotate_for buf_len w = if need_rotate buf_len w then rotate w else (ok tt, w)

unfoldable pub started : WalZoneState → WalZoneState
started WalZoneState.empty = WalZoneState.open_for_writes
started WalZoneState.open_for_writes = WalZoneState.open_for_writes
started WalZoneState.full = WalZoneState.full
started WalZoneState.finished = WalZoneState.finished

-- `Empty` becomes `Open`, and a zone that is used up becomes `Full`.
unfoldable pub advance_zone : ℕ → WalZone → WalZone
unfolding started
advance_zone buf_len zone =
    let offset : ℕ = (zone.write_offset + buf_len) % u64_mod in
    record zone {
      write_offset = offset;
      state = if leb zone.capacity offset then WalZoneState.full else started zone.state;
    }

unfoldable pub fill_zone : ℕ → Action (Unit {0})
unfolding advance_zone
fill_zone buf_len w = elim w.current_zone [
  | none ↦ (ok tt, w)
  | some zone ↦ (ok tt, record w { current_zone = some (advance_zone buf_len zone) })
]

-- The buffer takes the bytes, or is flushed first, or is bypassed by a write as large as itself,
-- which, when it fails, leaves a part of the bytes in the file.
unfoldable pub buffer_bytes : List ℕ → Action (Unit {0})
buffer_bytes bytes w = elim w.file [
  | none ↦ (err WalError.closed, w)
  | some f ↦ (ok tt, record w { file = some (record f { buffer = f.buffer ++ bytes }) })
]

unfoldable pub write_through : List ℕ → Action (Unit {0})
write_through bytes w = elim w.file [
  | none ↦ (err WalError.closed, w)
  | some f ↦
      device WalError.io
        (record w { file = some (record f { disk = f.disk ++ landed w.outcomes bytes }) })
]

unfoldable pub put_bytes : List ℕ → Action (Unit {0})
unfolding buffer_bytes write_through
put_bytes bytes =
    if leb buffer_capacity (length bytes) then write_through bytes else buffer_bytes bytes

unfoldable pub write_all : List ℕ → Action (Unit {0})
unfolding flush buffer_bytes put_bytes
write_all bytes w = elim w.file [
  | none ↦ (err WalError.closed, w)
  | some f ↦
      let spare = buffer_capacity - length f.buffer in
      if ltb (length bytes) spare
      then buffer_bytes bytes w
      else if ltb spare (length bytes)
      then (do flush; put_bytes bytes) w
      else put_bytes bytes w
]

unfoldable pub count_record : ℕ → Action (Unit {0})
count_record buf_len w = (
  ok tt,
  record w {
    bytes_written = (w.bytes_written + buf_len) % u64_mod;
    records_written = (w.records_written + 1) % u64_mod;
  },
)

module _ (xxh3_64 : List ℕ → ℕ) where
  unfoldable pub append : WalRecord → Action (Unit {0})
  unfolding encode rotate_for fill_zone write_all count_record
  append r = do
    let buf = encode xxh3_64 r
    rotate_for (length buf)
    fill_zone (length buf)
    write_all buf
    count_record (length buf)

-- What a new process finds in the file after `simulate_crash`: the buffer is forgotten.
unfoldable pub simulate_crash : Wal → List ℕ
simulate_crash w = elim w.file [ none ↦ [] | some f ↦ f.disk ]

pub data Op : Type 0 where
  do_append : WalRecord → Op
  do_flush do_sync do_open_zone do_finish_zone do_rotate : Op

abbrev ran : Result (Unit {0}) WalError → WalRecord → List WalRecord
ran (ok _) r = r ∷ []
ran (err _) r = []

module _ (xxh3_64 : List ℕ → ℕ) where
  -- One call, with the record that it appended.
  unfoldable pub step : Op → Wal → List WalRecord × Wal
  step (do_append r) w = let (result, v) = append xxh3_64 r w in (ran result r, v)
  step do_flush w = ([], (flush w).1)
  step do_sync w = ([], (sync w).1)
  step do_open_zone w = ([], (open_zone w).1)
  step do_finish_zone w = ([], (finish_zone w).1)
  step do_rotate w = ([], (rotate w).1)

  -- Calls one after the other, whatever they return, with the records whose `append` returned `Ok`.
  unfoldable pub run : List Op → Wal → List WalRecord × Wal
  run [] w = ([], w)
  run (op ∷ ops) w = let (rs, v) = step op w in let (more, u) = run ops v in (rs ++ more, u)
