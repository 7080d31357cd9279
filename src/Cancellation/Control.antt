-- ===== src/Cancellation/Control.antt =====
-- shookie/src/cancellation/conversation-control.ts: `ConversationControl`. The clock (`now()`) is an
-- argument of each method, in milliseconds. An async method is split where it awaits: `commit` is
-- `begin_commit` up to the call of `persist` and `end_commit` after it has settled.

pub mod Trace
use shookie.Prelude.{ℕ, ◌+◌, Bool, true, false, Option, none, some, leb, if◌then◌else◌}

abbrev pub conversation_deadline_ms : ℕ
conversation_deadline_ms = 180000

pub data StopReason : Type 0 where
  cancelled timed_out : StopReason

pub data ExecutionState : Type 0 where
  running committing committed settled : ExecutionState

-- What the methods throw: `ConversationStoppedError`, "Conversation is not executing", and what a
-- caller's operation throws.
pub data ControlError : Type 0 where
  stopped_error : StopReason → ControlError
  not_executing : ControlError
  operation_error : ControlError

-- How a promise settles.
pub data Outcome : Type 0 where
  done : Outcome
  failed : ControlError → Outcome

-- `signal` is the reason that the abort signal carries, `timer` whether the timeout is still set.
pub record Control : Type 0 where
  pub state : ExecutionState
  pub stopped : Option StopReason
  pub signal : Option StopReason
  pub timer : Bool
  pub started_at : ℕ
  pub deadline_at : ℕ

unfoldable pub new : ℕ → Control
new now = record {
  state = running;
  stopped = none;
  signal = none;
  timer = true;
  started_at = now;
  deadline_at = now + conversation_deadline_ms;
}

abbrev can_stop : ExecutionState → Option StopReason → Bool
can_stop running none = true
can_stop committing none = true
can_stop _ _ = false

unfoldable pub stop : StopReason → Control → Control × Bool
stop reason c =
    if can_stop c.state c.stopped
    then (record c { stopped = some reason; timer = false; signal = some reason }, true)
    else (c, false)

unfoldable pub refresh_deadline : ℕ → Control → Control
unfolding stop
refresh_deadline now c = if leb c.deadline_at now then (stop timed_out c).0 else c

-- The timeout's callback, which the event loop runs at most once and only while the timer is set.
unfoldable pub fire_timer : Control → Control
unfolding stop
fire_timer c = if c.timer then (stop timed_out (record c { timer = false })).0 else c

-- The getter `stopReason`.
unfoldable pub stop_reason : ℕ → Control → Control × Option StopReason
unfolding refresh_deadline
stop_reason now c = let c' = refresh_deadline now c in (c', c'.stopped)

abbrev is_executing : ExecutionState → Option StopReason → Bool
is_executing running none = true
is_executing _ _ = false

unfoldable pub cancel : ℕ → Control → Control × Bool
unfolding refresh_deadline stop
cancel now c =
    let c' = refresh_deadline now c in
    if is_executing c'.state c'.stopped then stop cancelled c' else (c', false)

abbrev verdict : Option StopReason → ExecutionState → Outcome
verdict (some reason) s = failed (stopped_error reason)
verdict none running = done
verdict none _ = failed not_executing

unfoldable pub checkpoint : ℕ → Control → Control × Outcome
unfolding refresh_deadline
checkpoint now c = let c' = refresh_deadline now c in (c', verdict c'.stopped c'.state)

-- The `catch` of `operation` and of `commit`: a stop outranks the error that it caused.
abbrev normalize : Option StopReason → ControlError → ControlError
normalize (some reason) e = stopped_error reason
normalize none e = e

-- The part of `operation` after its callback has settled; the part before it is `checkpoint`.
abbrev settle_operation : ℕ → Control → Outcome → Control × Outcome
settle_operation now c (failed e) = (c, failed (normalize c.stopped e))
settle_operation now c done = checkpoint now c

unfoldable pub end_operation : ℕ → Outcome → Control → Control × Outcome
unfolding checkpoint
end_operation now result c = settle_operation now c result

abbrev start_commit : Control × Outcome → Control × Outcome
start_commit (c, done) = (record c { state = committing }, done)
start_commit (c, failed e) = (c, failed e)

unfoldable pub begin_commit : ℕ → Control → Control × Outcome
unfolding checkpoint
begin_commit now c = start_commit (checkpoint now c)

unfoldable pub end_commit : Outcome → Control → Control × Outcome
end_commit done c = (record c { state = committed; timer = false }, done)
end_commit (failed e) c = (record c { state = running }, failed (normalize c.stopped e))

abbrev settle : ExecutionState → ExecutionState
settle committed = committed
settle _ = settled

unfoldable pub finish : Control → Control
finish c = record c { timer = false; state = settle c.state }
