-- ===== src/Protocol/Clock/Order.antt =====
-- The order of timestamps.
use tensorvault.Prelude.{◌+◌, ◌<◌, arith, u64_mod}
use tensorvault.Protocol.Clock.{HlcTimestamp, Before, bump}

pub Before-trans : (a b c : HlcTimestamp) → Before a b → Before b c → Before a c
Before-trans a b c h k = ground arith

pub Before-bump : (t : HlcTimestamp) → t.logical + 1 < u64_mod → Before t (bump t)
unfolding bump
Before-bump t h = omega arith
