-- ===== src/Protocol/Clock/Steps.antt =====
-- One call of the clock.
use tensorvault.Prelude.{ℕ, ◌+◌, ◌≤◌, ◌<◌, ◌≡◌, max, arith, u64_mod, Option}
use tensorvault.Protocol.Clock.{
  HlcTimestamp, HlcClock, Before, now, observe, physical_now, Event, local, remote, step,
}

-- While the logical counter is not at its end, `now` returns a timestamp after the last one and
-- remembers it; its physical part is the later of the last one and the reading.
pub now_advances :
    (c : HlcClock) (reading : Option ℕ)
    → c.last.logical + 1 < u64_mod
    → Before c.last (now reading c).0
      × ((now reading c).1.last ≡ (now reading c).0)
      × ((now reading c).0.physical_ns ≡ max c.last.physical_ns (physical_now reading))
unfolding now
now_advances c reading h = ground arith

-- While the two logical counters are not at their end, `observe` returns a timestamp after the
-- last one and after the received one, and remembers it.
pub observe_advances :
    (c : HlcClock) (other : HlcTimestamp)
    → c.last.logical + 1 < u64_mod
    → other.logical + 1 < u64_mod
    → Before c.last (observe other c).0
      × Before other (observe other c).0
      × ((observe other c).1.last ≡ (observe other c).0)
unfolding observe
observe_advances c other h k = ground arith

-- A received timestamp with a later physical part and a logical counter at its end wraps: the
-- timestamp that `observe` returns is before the received one.
pub observe_wraps :
    (c : HlcClock) (other : HlcTimestamp)
    → other.logical + 1 ≡ u64_mod
    → c.last.physical_ns < other.physical_ns
    → Before (observe other c).0 other
unfolding observe
observe_wraps c other h k = ground arith

-- The received counter of a call is at most `b`.
abbrev pub ReceivedLe : ℕ → Event → Type 0
ReceivedLe b (local reading) = Unit
ReceivedLe b (remote t) = t.logical ≤ b

-- A call returns what it remembers, after the last timestamp, with a counter at most one above
-- those it saw.
pub step_lem :
    (c : HlcClock) (e : Event) (b : ℕ)
    → c.last.logical ≤ b
    → ReceivedLe b e
    → b + 1 < u64_mod
    → Before c.last (step e c).0
      × ((step e c).1.last ≡ (step e c).0)
      × ((step e c).1.last.logical ≤ b + 1)
unfolding step now observe
step_lem c (local reading) b h k l = ground arith
step_lem c (remote t) b h k l = ground arith
