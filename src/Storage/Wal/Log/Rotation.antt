-- ===== src/Storage/Wal/Log/Rotation.antt =====
-- The zones of the log: how each call that opens, finishes or fills a zone leaves them.
use tensorvault.Prelude.{ℕ, ◌+◌, ◌%◌, u64_mod, ◌≤◌, ◌<◌, ◌≡◌, Bool, Option, none, some, List, arith}
use tensorvault.Storage.Wal.Action.{Answer, WalZoneState, WalZone, Wal, device}
use tensorvault.Storage.Wal.Log.{
  open_log, new_zone, flush_file, flush, sync, zone_ioctl, count_finished, finish_zone,
  finish_if_open, take_zone_id, start_zone, open_zone, rotate, remaining, need_rotate, rotate_for,
  advance_zone, started, fill_zone, buffer_bytes, write_through, put_bytes, write_all,
}

-- The state of a zone says how much of it is used.
abbrev pub StateFits : WalZone → Type 0
StateFits z = elim z.state [
  | WalZoneState.empty ↦ z.write_offset ≡ 0
  | WalZoneState.open_for_writes ↦ (0 < z.write_offset) × (z.write_offset < z.capacity)
  | WalZoneState.full ↦ z.write_offset ≡ z.capacity
  | WalZoneState.finished ↦ ⊥
]

-- With `opened` zones so far, the last of which is the current one.
pub record ZoneIsValid (capacity opened : ℕ) (z : WalZone) : Type 0 where
  pub id_last : z.zone_id + 1 ≡ opened
  pub capacity_set : z.capacity ≡ capacity
  pub within : z.write_offset ≤ z.capacity
  pub state_fits : StateFits z

abbrev pub CurrentIsValid : ℕ → ℕ → ℕ → Option WalZone → Type 0
CurrentIsValid capacity opened finished none = finished ≤ opened
CurrentIsValid capacity opened finished (some z) =
    (finished + 1 ≤ opened) × ZoneIsValid capacity opened z

abbrev pub IsZoned : Wal → Type 0
IsZoned w =
    (0 < w.zone_capacity)
    × CurrentIsValid w.zone_capacity w.zones_opened w.zones_finished w.current_zone

pub open_log-IsZoned :
    (is_zns : Bool) (disk : List ℕ) (outcomes : List Answer)
    → IsZoned (open_log is_zns disk outcomes)
unfolding open_log
open_log-IsZoned is_zns disk outcomes = omega arith

-- The fields that the I/O leaves alone.
abbrev SameZones : Wal → Wal → Type 0
SameZones v w =
    (v.current_zone ≡ w.current_zone)
    × (v.zones_opened ≡ w.zones_opened)
    × (v.zones_finished ≡ w.zones_finished)
    × (v.zone_capacity ≡ w.zone_capacity)

pub sync_same : (w : Wal) → SameZones (sync w).1 w
unfolding sync flush_file device
sync_same w = ground arith

pub flush_same : (w : Wal) → SameZones (flush w).1 w
unfolding flush flush_file device
flush_same w = ground arith

zone_ioctl_same : (w : Wal) → SameZones (zone_ioctl w).1 w
unfolding zone_ioctl device
zone_ioctl_same w = ground arith

-- `finish_zone` opens no zone, and the other calls open at most one.
pub opened-finish_zone : (w : Wal) → (finish_zone w).1.zones_opened ≡ w.zones_opened
unfolding finish_zone count_finished
opened-finish_zone w =
    let v = record w { current_zone = none } in
    ground (arith, zone_ioctl_same v, sync_same (zone_ioctl v).1)

pub finish_zone-IsZoned :
    (w : Wal) → w.zones_opened < u64_mod → IsZoned w → IsZoned (finish_zone w).1
unfolding finish_zone count_finished
finish_zone-IsZoned w b h =
    let v = record w { current_zone = none } in
    ground (arith, zone_ioctl_same v, sync_same (zone_ioctl v).1)

-- Behind `finish_zone` no zone is open, whether it failed or not.
finish_zone_closes : (w : Wal) → (finish_zone w).1.current_zone ≡ none
unfolding finish_zone count_finished
finish_zone_closes w =
    let v = record w { current_zone = none } in
    ground (arith, zone_ioctl_same v, sync_same (zone_ioctl v).1)

finish_if_open-IsZoned :
    (w : Wal) → w.zones_opened < u64_mod → IsZoned w → IsZoned (finish_if_open w).1
unfolding finish_if_open
finish_if_open-IsZoned w b h = ground (arith, finish_zone-IsZoned w b h)

opened-finish_if_open : (w : Wal) → (finish_if_open w).1.zones_opened ≡ w.zones_opened
unfolding finish_if_open
opened-finish_if_open w = ground (arith, opened-finish_zone w)

finish_if_open_closes : (w : Wal) → (finish_if_open w).1.current_zone ≡ none
unfolding finish_if_open
finish_if_open_closes w = ground (arith, finish_zone_closes w)

pub open_zone-IsZoned :
    (w : Wal) → w.zones_opened + 1 < u64_mod → IsZoned w → IsZoned (open_zone w).1
unfolding open_zone take_zone_id start_zone new_zone
open_zone-IsZoned w b h =
    let v = (finish_if_open w).1 in
    let u = record v { zones_opened = (v.zones_opened + 1) % u64_mod } in
    ground (
      arith,
      finish_if_open-IsZoned w (omega arith) h,
      finish_if_open_closes w,
      opened-finish_if_open w,
      zone_ioctl_same u,
    )

pub opened-open_zone : (w : Wal) → (open_zone w).1.zones_opened ≤ w.zones_opened + 1
unfolding open_zone take_zone_id start_zone
opened-open_zone w =
    let v = (finish_if_open w).1 in
    let u = record v { zones_opened = (v.zones_opened + 1) % u64_mod } in
    ground (arith, opened-finish_if_open w, zone_ioctl_same u)

pub opened-rotate : (w : Wal) → (rotate w).1.zones_opened ≤ w.zones_opened + 1
unfolding rotate
opened-rotate w = ground (arith, opened-finish_zone w, opened-open_zone (finish_zone w).1)

pub rotate-IsZoned : (w : Wal) → w.zones_opened + 1 < u64_mod → IsZoned w → IsZoned (rotate w).1
unfolding rotate
rotate-IsZoned w b h =
    let v = (finish_zone w).1 in
    ground (arith, finish_zone-IsZoned w (omega arith) h, opened-finish_zone w, open_zone-IsZoned v)

-- `n` more bytes fit in the current zone, if there is one.
abbrev pub HasRoom : ℕ → Wal → Type 0
HasRoom n w = elim w.current_zone [ none ↦ Unit | some z ↦ z.write_offset + n ≤ z.capacity ]

pub capacity-finish_zone : (w : Wal) → (finish_zone w).1.zone_capacity ≡ w.zone_capacity
unfolding finish_zone count_finished
capacity-finish_zone w =
    let v = record w { current_zone = none } in
    ground (arith, zone_ioctl_same v, sync_same (zone_ioctl v).1)

pub open_zone_room :
    (n : ℕ) (w : Wal)
    → n ≤ w.zone_capacity
    → HasRoom n (open_zone w).1 × ((open_zone w).1.zone_capacity ≡ w.zone_capacity)
unfolding open_zone finish_if_open take_zone_id start_zone new_zone
open_zone_room n w h =
    let v = (finish_if_open w).1 in
    let u = record v { zones_opened = (v.zones_opened + 1) % u64_mod } in
    ground (
      arith,
      finish_if_open_closes w,
      zone_ioctl_same u,
      capacity-finish_zone w,
      finish_zone_closes w,
    )

pub rotate_room :
    (n : ℕ) (w : Wal)
    → n ≤ w.zone_capacity
    → HasRoom n (rotate w).1 × ((rotate w).1.zone_capacity ≡ w.zone_capacity)
unfolding rotate
rotate_room n w h =
    let v = (finish_zone w).1 in
    ground (arith, finish_zone_closes w, capacity-finish_zone w, open_zone_room n v)

pub rotate_for_lem :
    (n : ℕ) (w : Wal)
    → n ≤ w.zone_capacity
    → w.zones_opened + 1 < u64_mod
    → IsZoned w
    → IsZoned (rotate_for n w).1
      × HasRoom n (rotate_for n w).1
      × ((rotate_for n w).1.zone_capacity ≡ w.zone_capacity)
      × ((rotate_for n w).1.zones_opened ≤ w.zones_opened + 1)
unfolding rotate_for need_rotate remaining
rotate_for_lem n w room b h =
    ground (arith, rotate-IsZoned w b h, rotate_room n w room, opened-rotate w)

pub fill_zone-IsZoned :
    (n : ℕ) (w : Wal)
    → 0 < n
    → w.zone_capacity < u64_mod
    → HasRoom n w
    → IsZoned w
    → IsZoned (fill_zone n w).1
unfolding fill_zone advance_zone started
fill_zone-IsZoned n w pos b room h = ground arith

pub write_all_same : (bytes : List ℕ) (w : Wal) → SameZones (write_all bytes w).1 w
unfolding write_all put_bytes write_through buffer_bytes device
write_all_same bytes w = ground (arith, flush_same w)
