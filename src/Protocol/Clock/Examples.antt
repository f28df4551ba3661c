-- ===== src/Protocol/Clock/Examples.antt =====
-- Clocks of two nodes.
use tensorvault.Prelude.{◌∷◌, List, [], some, none, arith}
use tensorvault.Protocol.Clock.{HlcTimestamp, HlcClock, Event, local, remote, issue}
use tensorvault.Protocol.Clock.History.{Ascending, issue-Ascending}

abbrev late_clock : HlcClock
late_clock = record { last = record { physical_ns = 50; logical = 3 } }

abbrev received : HlcTimestamp
received = record { physical_ns = 60; logical = 4 }

-- The second reading is behind the received timestamp.
abbrev events : List Event
events = local none ∷ remote received ∷ local (some 55) ∷ []

abbrev at_end : HlcTimestamp
at_end = record { physical_ns = 60; logical = 18446744073709551615 }

issue-Ascending_example : Ascending (late_clock.last ∷ issue events late_clock)
issue-Ascending_example =
    issue-Ascending events late_clock 4 (omega arith) (tt, (omega arith, (tt, tt))) (omega arith)
