-- ===== src/Conversation/Runtime.antt =====
-- shookie/src/slack/conversation-runtime.ts: the admission of a request by `ConversationRuntime.run`,
-- the lane of each thread, and the semaphore of `acquire` and `release`. A promise that another one
-- chains on becomes a phase of the run and a place in a queue; what a run does while it executes (the
-- callbacks, the repository, the cache) is between `start` and `leave`.
pub mod Semaphore
pub mod Places
pub mod Lanes
pub mod Trace
use Prim.Native.String.{len}
use shookie.Prelude.{
  ℕ, ◌+◌, ◌-◌, String, Bool, true, false, Option, none, some, List, [], ◌∷◌, ◌++◌, ltb, leb, ◌==◌,
  ◌&&◌, ◌||◌, str_eq, is_some, if◌then◌else◌, length, drop,
}
use shookie.Prelude.Maps.{lookup, insert, erase}
use shookie.Conversation.Memory.{input_bytes, active_runs, admitted_runs, per_thread_runs}

-- Queued behind its thread's tail, waiting in `acquire`, between `acquire` and `release`, and
-- released but with its promise not yet settled.
pub data Phase : Type 0 where
  queued waiting executing released : Phase

pub record Run : Type 0 where
  pub session : String
  pub phase : Phase

-- A thread's `tail` is the promise of the last member of `members`; each starts when the one before
-- it has settled.
pub record Lane : Type 0 where
  pub members : List String
  pub count : ℕ

pub record Runtime : Type 0 where
  pub pending : List (String × Run)
  pub threads : List (String × Lane)
  pub active : ℕ
  pub waiters : List String

pub data Admission : Type 0 where
  duplicate input_too_large busy admitted : Admission

unfoldable pub empty_runtime : Runtime
empty_runtime = record { pending = []; threads = []; active = 0; waiters = [] }

-- `previous ?? { tail: Promise.resolve(), count: 0 }`
abbrev pub lane_or_new : Option Lane → Lane
lane_or_new none = record { members = []; count = 0 }
lane_or_new (some lane) = lane

abbrev pub enter_lane : String → Lane → Lane
enter_lane id lane = record { members = lane.members ++ id ∷ []; count = lane.count + 1 }

abbrev pub admit : String → String → Runtime → Runtime
admit id session rt = record rt {
  pending = insert id (record { session = session; phase = queued }) rt.pending;
  threads = insert session (enter_lane id (lane_or_new (lookup session rt.threads))) rt.threads;
}

-- `run`, up to the promise that it returns
unfoldable pub submit : String → String → String → Runtime → Runtime × Admission
submit id session text rt =
    if is_some (lookup id rt.pending)
    then (rt, duplicate)
    else if ltb input_bytes (len text)
    then (rt, input_too_large)
    else if leb admitted_runs (length rt.pending)
        || leb per_thread_runs (lane_or_new (lookup session rt.threads)).count
    then (rt, busy)
    else (admit id session rt, admitted)

abbrev pub set_phase : String → Phase → Option Run → List (String × Run) → List (String × Run)
set_phase id phase none m = m
set_phase id phase (some r) m = insert id (record r { phase = phase }) m

-- `acquire`
unfoldable pub acquire : String → Run → Runtime → Runtime
acquire id r rt =
    if ltb rt.active active_runs
    then record rt {
      active = rt.active + 1;
      pending = insert id (record r { phase = executing }) rt.pending;
    }
    else record rt {
      waiters = rt.waiters ++ id ∷ [];
      pending = insert id (record r { phase = waiting }) rt.pending;
    }

abbrev pub is_queued : Phase → Bool
is_queued queued = true
is_queued _ = false

abbrev pub is_first : String → List String → Bool
is_first id [] = false
is_first id (first ∷ members) = str_eq first id

abbrev pub begin : String → Runtime → Option Run → Runtime
begin id rt none = rt
begin id rt (some r) =
    if is_queued r.phase && is_first id (lane_or_new (lookup r.session rt.threads)).members
    then acquire id r rt
    else rt

-- `thread.tail.then(...)` fires, when all the members before have settled.
unfoldable pub start : String → Runtime → Runtime
unfolding acquire
start id rt = begin id rt (lookup id rt.pending)

-- `release`: the first waiter takes the place over, or the place becomes free.
abbrev pub release : List String → Runtime → Runtime
release [] rt = record rt { active = rt.active - 1 }
release (next ∷ waiters) rt = record rt {
  waiters = waiters;
  pending = set_phase next executing (lookup next rt.pending) rt.pending;
}

abbrev pub is_executing : Phase → Bool
is_executing executing = true
is_executing _ = false

abbrev pub give_up : String → Runtime → Option Run → Runtime
give_up id rt none = rt
give_up id rt (some r) =
    if is_executing r.phase
    then release rt.waiters
        (record rt { pending = insert id (record r { phase = released }) rt.pending })
    else rt

-- The end of the `finally` block of the task.
unfoldable pub leave : String → Runtime → Runtime
leave id rt = give_up id rt (lookup id rt.pending)

abbrev pub is_released : Phase → Bool
is_released released = true
is_released _ = false

abbrev pub exit_lane : Lane → Lane
exit_lane lane = record { members = drop 1 lane.members; count = lane.count - 1 }

abbrev pub drop_member : String → Lane → List (String × Lane) → List (String × Lane)
drop_member session lane threads =
    if lane.count == 0 then erase session threads else insert session lane threads

abbrev pub withdraw : String → Runtime → Option Run → Runtime
withdraw id rt none = rt
withdraw id rt (some r) =
    if is_released r.phase
    then record rt {
      pending = erase id rt.pending;
      threads =
          drop_member r.session (exit_lane (lane_or_new (lookup r.session rt.threads))) rt.threads;
    }
    else rt

-- `task.finally(...)`
unfoldable pub settle : String → Runtime → Runtime
settle id rt = withdraw id rt (lookup id rt.pending)
