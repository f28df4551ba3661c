-- ===== src/Protocol/Clock.antt =====
-- src/protocol/clock.rs: the hybrid logical clock. The reading of the system clock, since the
-- epoch in nanoseconds or an error before it, is an argument of `now`; u64 sums wrap.
mod Order
pub mod Steps
pub mod History
mod Examples
use tensorvault.Prelude.{
  ℕ, ◌+◌, ◌%◌, ◌<◌, ◌==◌, ltb, u64_mod, if◌then◌else◌, max, ◌⊎◌, ◌≡◌, Option, none, some, List, [],
  ◌∷◌,
}

pub record HlcTimestamp : Type 0 where
  pub physical_ns : ℕ
  pub logical : ℕ

abbrev pub zero_timestamp : HlcTimestamp
zero_timestamp = record { physical_ns = 0; logical = 0 }

-- The derived `Ord`: lexicographic in the order of the fields.
abbrev pub Before : HlcTimestamp → HlcTimestamp → Type 0
Before a b =
    (a.physical_ns < b.physical_ns) ⊎ ((a.physical_ns ≡ b.physical_ns) × (a.logical < b.logical))

pub record HlcClock : Type 0 where
  pub last : HlcTimestamp

unfoldable pub new : HlcClock
new = record { last = zero_timestamp }

unfoldable pub physical_now : Option ℕ → ℕ
physical_now (some nanos) = nanos % u64_mod
physical_now none = 0

unfoldable pub bump : HlcTimestamp → HlcTimestamp
bump t = record t { logical = (t.logical + 1) % u64_mod }

unfoldable pub now : Option ℕ → HlcClock → HlcTimestamp × HlcClock
unfolding bump
now reading c =
    let pt = physical_now reading in
    let t =
      if ltb c.last.physical_ns pt then record { physical_ns = pt; logical = 0 } else bump c.last in
    (t, record { last = t })

unfoldable pub observe : HlcTimestamp → HlcClock → HlcTimestamp × HlcClock
unfolding bump
observe other c =
    let t =
      if ltb c.last.physical_ns other.physical_ns
      then bump other
      else if other.physical_ns == c.last.physical_ns
      then record {
        physical_ns = c.last.physical_ns;
        logical = (max c.last.logical other.logical + 1) % u64_mod;
      }
      else bump c.last in
    (t, record { last = t })

-- One call on a node's clock.
pub data Event : Type 0 where
  local : Option ℕ → Event
  remote : HlcTimestamp → Event

unfoldable pub step : Event → HlcClock → HlcTimestamp × HlcClock
step (local reading) c = now reading c
step (remote t) c = observe t c

-- The timestamps that a sequence of calls returns.
unfoldable pub issue : List Event → HlcClock → List HlcTimestamp
issue [] c = []
issue (e ∷ es) c = let (t, c') = step e c in t ∷ issue es c'
