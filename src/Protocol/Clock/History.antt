-- ===== src/Protocol/Clock/History.antt =====
-- All timestamps that a node issues.
use tensorvault.Prelude.{ℕ, ◌+◌, ◌≤◌, ◌<◌, List, [], ◌∷◌, length, arith, u64_mod}
use tensorvault.Prelude.Forall.{All, All-imp}
use tensorvault.Protocol.Clock.{HlcTimestamp, HlcClock, Before, Event, local, remote, step, issue}
use tensorvault.Protocol.Clock.Order.{Before-trans}
use tensorvault.Protocol.Clock.Steps.{ReceivedLe, step_lem}

-- Every timestamp is before all that follow it.
abbrev pub Ascending : List HlcTimestamp → Type 0
Ascending [] = Unit
Ascending (t ∷ ts) = All (Before t) ts × Ascending ts

ReceivedLe-suc : (b : ℕ) (e : Event) → ReceivedLe b e → ReceivedLe (b + 1) e
ReceivedLe-suc b (local reading) h = tt
ReceivedLe-suc b (remote t) h = omega arith

issue_after :
    (es : List Event) (c : HlcClock) (b : ℕ)
    → c.last.logical ≤ b
    → All (ReceivedLe b) es
    → b + length es < u64_mod
    → All (Before c.last) (issue es c) × Ascending (issue es c)
unfolding issue
issue_after [] c b h k l = (tt, tt)
issue_after (e ∷ es) c b h k l =
    let (first, kept, low) = step_lem c e b h k.0 (omega arith) in
    let (all, rest) =
      issue_after es (step e c).1 (b + 1) low (All-imp (ReceivedLe-suc b) es k.1) (omega arith) in
    let all' = rw kept at all in
    (
      (
        first,
        All-imp (λ t q. Before-trans c.last (step e c).0 t first q) (issue es (step e c).1) all',
      ),
      (all', rest),
    )

-- From a clock whose counter, like every counter it receives, is at most b, a sequence of calls
-- that is shorter than 2 ^ 64 - b issues timestamps that are strictly increasing and all after
-- the clock's last one.
pub issue-Ascending :
    (es : List Event) (c : HlcClock) (b : ℕ)
    → c.last.logical ≤ b
    → All (ReceivedLe b) es
    → b + length es < u64_mod
    → Ascending (c.last ∷ issue es c)
issue-Ascending es c b h k l = issue_after es c b h k l
