-- ===== src/Relay/Drain/Schedule.antt =====
-- shookie/src/slack/message-relay/drain.ts: the drain cycle `tick`, its batch and its start and stop.
use shookie.Prelude.{ℕ, ◌-◌, ◌*◌, Bool, true, false, Option, none, some, leb, ◌||◌, if◌then◌else◌}
use shookie.Relay.Outbox.Upkeep.{requeue_parked}
use shookie.Relay.Outbox.{Table}
use shookie.Relay.Drain.{Config, Drainer}

-- `maintain` is due when it never ran or ran long enough ago.
abbrev maintenance_due : Config → ℕ → Option ℕ → Bool
maintenance_due c now none = true
maintenance_due c now (some last) = leb c.maintenance_every_ms (now - last)

-- `maintain`: the retention runs, in its two transactions, and the counts are read for the log. A
-- retention that throws ends the tick.
unfoldable pub maintain : Config → ℕ → (Table → Table) → Drainer → Table → Drainer × Table
maintain c now pruned s t =
    if maintenance_due c now s.last_maintenance
    then (record s { last_maintenance = some now }, if s.hard_stopped then t else pruned t)
    else (s, t)

-- What a tick comes to: the drainer is halted and only reports it; a claim of so many rows was
-- worked off; or the maintenance or the claim threw.
pub data Tick : Type 0 where
  reports : Tick
  drains : ℕ → Tick
  throws : Tick

-- The delay until the next tick.
unfoldable pub next_delay : Config → Tick → ℕ
next_delay c reports = c.idle_poll_ms * 5
next_delay c (drains rows) = if leb c.batch_size rows then 0 else c.idle_poll_ms
next_delay c throws = c.error_poll_ms

-- `schedule`: the delay of the timer that is set, unless the drainer is stopping.
unfoldable pub schedule : Drainer → ℕ → Option ℕ
schedule s delay_ms = if s.stopping then none else some delay_ms

-- `start` puts the parked rows back, or fails to (`requeued` is false); then it polls.
unfoldable pub start : ℕ → Bool → Drainer → Table → Drainer × Table
start db_now requeued s t = (
  record s { stopping = false; hard_stopped = false },
  if requeued then (requeue_parked db_now t).0 else t,
)

-- `stop`, with whether the wait for the running tick timed out.
unfoldable pub stop : Bool → Drainer → Drainer
stop timed_out s = record s { stopping = true; hard_stopped = s.hard_stopped || timed_out }
