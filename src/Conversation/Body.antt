-- ===== src/Conversation/Body.antt =====
-- shookie/src/slack/conversation-runtime.ts: what a run does between `acquire` and `release`. The
-- callbacks are parameters: `execute` is a script, which goes on by whether its commit threw. Before
-- each step the event loop may cancel the run's control or fire its timer. `scope.drain()`, which waits
-- for work that the callbacks left behind, changes nothing here.
pub mod Durable
use Prim.Native.String.{len}
use shookie.Prelude.{
  ℕ, zero, suc, ◌+◌, ◌-◌, String, Bool, true, false, Option, none, some, List, [], ◌∷◌, ◌++◌, not,
  if◌then◌else◌, length, take,
}
use shookie.Cancellation.Control.{
  Control, Outcome, ControlError, ExecutionState, committed, done, failed, operation_error, cancel,
  fire_timer, checkpoint, end_operation, begin_commit, end_commit, finish,
}
use shookie.Conversation.Memory.{
  Message, user, assistant, Store, Budgeted, ok, input_too_large, recent_turns, get, set_messages,
  clear, budget_messages,
}
use shookie.Conversation.Repository.{Event, Turn, Database, claim, recent, complete, fail}

-- How a statement of the database ends: as it should, with an error before it took effect, or with one
-- after it did.
pub data Statement : Type 0 where
  acknowledged rejected unacknowledged : Statement

-- What the event loop does to the control from outside.
pub data Outside : Type 0 where
  cancels : ℕ → Outside
  fires : Outside

pub data Script : Type 0 where
  returns : Script
  throws : Script
  commits : String → (Bool → Script) → Script

pub record World : Type 0 where
  pub now : ℕ → ℕ
  pub outside : ℕ → List Outside
  pub statement : ℕ → Statement
  pub start_throws : Bool
  pub authoritative : Option (Option (List Message))
  pub execute : List Message → Script

pub record State : Type 0 where
  pub db : Database
  pub cache : Store
  pub control : Control
  pub step : ℕ

-- How the promise of the run settles.
pub data Ended : Type 0 where
  resolved : Ended
  threw : Ended

abbrev pub apply_outside : List Outside → Control → Control
apply_outside [] c = c
apply_outside (cancels now ∷ os) c = apply_outside os (cancel now c).0
apply_outside (fires ∷ os) c = apply_outside os (fire_timer c)

-- The next step of the run, at which the event loop has had its turn.
abbrev pub advance : World → State → State
advance w s = record s { control = apply_outside (w.outside s.step) s.control; step = suc s.step }

-- A statement's effect on the database, and whether it threw.
abbrev pub effect : Statement → Database → Database → Database × Bool
effect acknowledged db db' = (db', false)
effect rejected db db' = (db, true)
effect unacknowledged db db' = (db', true)

abbrev pub persist_effect : Statement → Option Database → Database → Database × Bool
persist_effect e none db = (db, true)
persist_effect e (some db') db = effect e db db'

abbrev pub thrown_outcome : Bool → Outcome
thrown_outcome true = failed operation_error
thrown_outcome false = done

abbrev pub has_failed : Outcome → Bool
has_failed done = false
has_failed (failed e) = true

abbrev pub drop_last : List Message → List Message
drop_last ms = take (length ms - 1) ms

-- `budgetMessages([...messages, answer], "").slice(0, -1)`, which is never too large
abbrev pub cached : Budgeted → List Message
cached (ok ms) = drop_last ms
cached input_too_large = []

abbrev pub remember : World → Event → List Message → String → State → State
remember w e messages answer s = elim w.authoritative [
  | some source ↦ record s { cache = clear e.session_id s.cache }
  | none ↦ record s {
    cache =
        set_messages (w.now s.step) e.session_id
          (cached
            (budget_messages (messages ++ record { role = assistant; content = answer } ∷ []) ""))
          s.cache;
  }
]

-- The part of `commit` from `persist` on, once the control has let it begin.
abbrev pub persist_turn : World → Event → String → List Message → String → State → State × Bool
persist_turn w e text messages answer s =
    let s' = advance w s in
    let (db, failed_write) =
      persist_effect (w.statement s'.step)
        (complete (w.now s'.step) e (record { user_content = text; assistant_content = answer })
          s'.db)
        s'.db in
    let (control, outcome) = end_commit (thrown_outcome failed_write) s'.control in
    let stored = record s' { db = db; control = control } in
    if failed_write then (stored, true) else (remember w e messages answer stored, false)

-- The callback `commit`, and whether it threw.
abbrev pub commit_turn : World → Event → String → List Message → String → State → State × Bool
commit_turn w e text messages answer s =
    let s' = advance w s in
    let (control, outcome) = begin_commit (w.now s'.step) s'.control in
    let begun = record s' { control = control } in
    if has_failed outcome then (begun, true) else persist_turn w e text messages answer begun

-- `execute`, with whether a commit has succeeded before; after one another throws.
unfoldable pub run_script :
    World → Event → String → List Message → Script → Bool → State → State × Bool × Ended
run_script w e text messages returns done_before s = (s, done_before, resolved)
run_script w e text messages throws done_before s = (s, done_before, threw)
run_script w e text messages (commits answer next) true s =
    run_script w e text messages (next true) true s
run_script w e text messages (commits answer next) false s =
    let (s', failed_commit) = commit_turn w e text messages answer s in
    run_script w e text messages (next failed_commit) (not failed_commit) s'

abbrev pub end_script : State × Bool × Ended → State × Ended
end_script (s, false, e) = (s, threw)
end_script (s, true, e) = (s, e)

-- A checkpoint, after which the run goes on.
abbrev pub check : World → State → (State → State × Ended) → State × Ended
check w s go =
    let s' = advance w s in
    let (control, outcome) = checkpoint (w.now s'.step) s'.control in
    let checked = record s' { control = control } in
    if has_failed outcome then (checked, threw) else go checked

abbrev pub execute_with : World → Event → String → List Message → State → State × Ended
execute_with w e text messages s =
    check w s (λ s'. end_script (run_script w e text messages (w.execute messages) false s'))

abbrev pub messages_of : List Turn → List Message
messages_of [] = []
messages_of (t ∷ ts) =
    record { role = user; content = t.user_content }
    ∷ record { role = assistant; content = t.assistant_content }
    ∷ messages_of ts

abbrev pub with_budget : World → Event → String → Budgeted → State → State × Ended
with_budget w e text input_too_large s = (s, threw)
with_budget w e text (ok messages) s = execute_with w e text messages s

-- The history: the cache's, or the newest turns of the database, where the statement may fail.
abbrev pub read_history : World → Event → String → Statement → State → State × Ended
read_history w e text acknowledged s =
    with_budget w e text
      (budget_messages (messages_of (recent e.session_id recent_turns s.db)) text) s
read_history w e text rejected s = (s, threw)
read_history w e text unacknowledged s = (s, threw)

abbrev pub with_history : World → Event → String → Option (List Message) → State → State × Ended
with_history w e text (some history) s = with_budget w e text (budget_messages history text) s
with_history w e text none s =
    let s' = advance w s in read_history w e text (w.statement s'.step) s'

-- `scope.control.operation(authoritativeContext)`; the source throws if it gives none.
abbrev pub source_outcome : Option (List Message) → Outcome
source_outcome none = failed operation_error
source_outcome (some messages) = done

abbrev pub use_source :
    World → Event → String → Option (List Message) → Bool → State → State × Ended
use_source w e text none stopped s = (s, threw)
use_source w e text (some messages) true s = (s, threw)
use_source w e text (some messages) false s = execute_with w e text messages s

abbrev pub read_source : World → Event → String → Option (List Message) → State → State × Ended
read_source w e text source s =
    let s' = advance w s in
    let (control, outcome) = end_operation (w.now s'.step) (source_outcome source) s'.control in
    use_source w e text source (has_failed outcome) (record s' { control = control })

abbrev pub with_source : World → Event → String → Option (List Message) → State → State × Ended
with_source w e text source s = check w s (read_source w e text source)

abbrev pub use_cache : World → Event → String → State → State × Ended
use_cache w e text s =
    let (cache, history) = get (w.now s.step) e.session_id s.cache in
    with_history w e text history (record s { cache = cache })

abbrev pub choose_context :
    World → Event → String → Option (Option (List Message)) → State → State × Ended
choose_context w e text none s = use_cache w e text s
choose_context w e text (some source) s = with_source w e text source s

abbrev pub with_context : World → Event → String → State → State × Ended
with_context w e text s = choose_context w e text w.authoritative s

abbrev pub after_start : World → Event → String → Bool → State → State × Ended
after_start w e text true s = (s, threw)
after_start w e text false s = check w s (with_context w e text)

-- From the claim on, to the end of `try`.
abbrev pub claimed_body : World → Event → String → State → State × Ended
claimed_body w e text s = check w s (after_start w e text w.start_throws)

-- The `catch`: a committed run has succeeded, whatever came after; otherwise its event fails.
abbrev pub fail_claimed : World → Event → Bool → State → State
fail_claimed w e false s = s
fail_claimed w e true s = record s {
  db = (effect (w.statement s.step) s.db (fail (w.now s.step) e.request_id s.db)).0;
}

abbrev pub is_committed : ExecutionState → Bool
is_committed committed = true
is_committed _ = false

abbrev pub catch_error : World → Event → Bool → State → State × Ended
catch_error w e claimed s =
    if is_committed s.control.state
    then (s, resolved)
    else (fail_claimed w e claimed (record s { cache = clear e.session_id s.cache }), threw)

abbrev pub end_try : World → Event → State × Ended → State × Ended
end_try w e (s, resolved) = (s, resolved)
end_try w e (s, threw) = catch_error w e true s

-- `finally`, without the release, which is the runtime's.
abbrev pub finish_body : State × Ended → State × Ended
finish_body (s, ended) = (record s { control = finish s.control }, ended)

abbrev pub after_claim : World → Event → String → Database × Bool → Bool → State → State × Ended
after_claim w e text (db, claimed) true s = catch_error w e false (record s { db = db })
after_claim w e text (db, false) false s = (record s { db = db }, resolved)
after_claim w e text (db, true) false s = end_try w e (claimed_body w e text (record s { db = db }))

-- The task of `run` while it holds its place.
unfoldable pub run_body : World → Event → String → State → State × Ended
unfolding run_script
run_body w e text s =
    let s' = advance w s in
    let (db', claimed) = claim (w.now s'.step) e s'.db in
    let (db, failed_claim) = effect (w.statement s'.step) s'.db db' in
    finish_body (after_claim w e text (db, claimed) failed_claim s')
