-- ===== src/Examples/Runtime.antt =====
-- Runs of the conversation runtime at concrete requests: five threads, of which four execute.
use shookie.Prelude.{String, some, List, [], ◌∷◌, ◌≡◌, refl, arith}
use shookie.Prelude.Maps.{lookup, insert}
use shookie.Conversation.Runtime.{queued, executing, Runtime, empty_runtime, submit, acquire, start}
use shookie.Conversation.Runtime.Trace.{
  Reach, initially, next, submitted, started, thread_exclusive, Reach-WithinCapacity,
  WithinCapacity,
}

abbrev submit_all : List (String × String) → Runtime → Runtime
submit_all [] rt = rt
submit_all ((id, session) ∷ requests) rt = submit_all requests (submit id session "hello" rt).0

abbrev start_all : List String → Runtime → Runtime
start_all [] rt = rt
start_all (id ∷ ids) rt = start_all ids (start id rt)

abbrev requests : List (String × String)
requests =
    ("r1", "t1") ∷ ("r2", "t2") ∷ ("r3", "t3") ∷ ("r4", "t4") ∷ ("r5", "t5") ∷ ("r6", "t1") ∷ []

abbrev five_started : Runtime
five_started =
    start_all ("r1" ∷ "r2" ∷ "r3" ∷ "r4" ∷ "r5" ∷ "r6" ∷ []) (submit_all requests empty_runtime)

Reach-submit_all :
    (reqs : List (String × String)) {rt : Runtime} → Reach rt → Reach (submit_all reqs rt)
Reach-submit_all [] r = r
Reach-submit_all ((id, session) ∷ reqs) r =
    Reach-submit_all reqs (next r (submitted id session "hello"))

Reach-start_all : (ids : List String) {rt : Runtime} → Reach rt → Reach (start_all ids rt)
Reach-start_all [] r = r
Reach-start_all (id ∷ ids) r = Reach-start_all ids (next r (started id))

five_started-Reach : Reach five_started
five_started-Reach =
    Reach-start_all ("r1" ∷ "r2" ∷ "r3" ∷ "r4" ∷ "r5" ∷ "r6" ∷ [])
      (Reach-submit_all requests initially)

r5_waits : five_started.waiters ≡ "r5" ∷ []
unfolding empty_runtime submit start acquire lookup insert
r5_waits = refl

r1_executes : lookup "r1" five_started.pending ≡ some (record { session = "t1"; phase = executing })
unfolding empty_runtime submit start acquire lookup insert
r1_executes = refl

-- The second request of a thread stays queued while the first executes.
r6_queued : lookup "r6" five_started.pending ≡ some (record { session = "t1"; phase = queued })
unfolding empty_runtime submit start acquire lookup insert
r6_queued = refl

abbrev first_id : String
first_id = "r1"

thread_exclusive_example : first_id ≡ first_id
thread_exclusive_example =
    thread_exclusive {rt = five_started} first_id first_id
      (record { session = "t1"; phase = executing }) (record { session = "t1"; phase = executing })
      five_started-Reach r1_executes r1_executes refl (λ e. ground (arith, e))
      (λ e. ground (arith, e))

Reach-WithinCapacity_example : WithinCapacity five_started
Reach-WithinCapacity_example = Reach-WithinCapacity {rt = five_started} five_started-Reach
