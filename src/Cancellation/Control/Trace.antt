-- ===== src/Cancellation/Control/Trace.antt =====
-- What holds of a `ConversationControl` over every order of its method calls.
use shookie.Prelude.{ℕ, ◌+◌, ◌<◌, ◌≡◌, refl, ◌≢◌, ◌↔◌, ◌⊎◌, Bool, true, false, none, some, arith}
use shookie.Cancellation.Control.{
  Control, StopReason, Outcome, ControlError, running, committing, committed, settled, cancelled,
  timed_out, done, failed, stopped_error, conversation_deadline_ms, new, stop_reason, cancel,
  checkpoint, end_operation, begin_commit, end_commit, fire_timer, finish,
}

-- A control, and whether a call of `commit` awaits its `persist`.
pub record Run : Type 0 where
  pub control : Control
  pub in_flight : Bool

abbrev took_off : Outcome → Bool → Bool
took_off done b = true
took_off (failed e) b = b

-- The calls that the event loop may interleave. `end_commit` resumes only a commit that has begun;
-- `finish` is called only when none is in flight, as its comment demands and the runtime does.
pub data Step : Run → Run → Type 0 where
  fires : (r : Run) → Step r (record r { control = fire_timer r.control })
  reads : (r : Run) (now : ℕ) → Step r (record r { control = (stop_reason now r.control).0 })
  cancels : (r : Run) (now : ℕ) → Step r (record r { control = (cancel now r.control).0 })
  checks : (r : Run) (now : ℕ) → Step r (record r { control = (checkpoint now r.control).0 })
  operates :
      (r : Run) (now : ℕ) (result : Outcome)
      → Step r (record r { control = (end_operation now result r.control).0 })
  begins :
      (r : Run) (now : ℕ)
      → Step r (record {
        control = (begin_commit now r.control).0;
        in_flight = took_off (begin_commit now r.control).1 r.in_flight;
      })
  ends :
      (r : Run) (result : Outcome)
      → r.in_flight ≡ true
      → Step r (record { control = (end_commit result r.control).0; in_flight = false })
  finishes : (r : Run) → r.in_flight ≡ false → Step r (record r { control = finish r.control })

pub data Reach (r : Run) : Run → Type 0 where
  here : Reach r r
  next : {s t : Run} → Reach r s → Step s t → Reach r t

pub record Inv (r : Run) : Type 0 where
  pub flying : r.in_flight ≡ true → r.control.state ≡ committing
  pub grounded : r.control.state ≡ committing → r.in_flight ≡ true
  pub signalled : r.control.signal ≡ r.control.stopped
  pub armed :
      r.control.timer ≡ true
      → (r.control.stopped ≡ none) × (r.control.state ≢ committed) × (r.control.state ≢ settled)
  pub deadline : r.control.deadline_at ≡ r.control.started_at + conversation_deadline_ms
  pub uncommitted :
      r.control.stopped ≡ some cancelled
      → (r.control.state ≢ committing) × (r.control.state ≢ committed)

abbrev pub start : ℕ → Run
start now = record { control = new now; in_flight = false }

pub start-Inv : (now : ℕ) → Inv (start now)
unfolding new
start-Inv now = ground arith

Step-Inv : {r s : Run} → Step r s → Inv r → Inv s
unfolding fire_timer stop_reason cancel checkpoint end_operation begin_commit end_commit finish
Step-Inv (fires r) v = ground arith
Step-Inv (reads r now) v = ground arith
Step-Inv (cancels r now) v = ground arith
Step-Inv (checks r now) v = ground arith
Step-Inv (operates r now done) v = ground arith
Step-Inv (operates r now (failed e)) v = v
Step-Inv (begins r now) v = ground arith
Step-Inv (ends r done h) v = ground arith
Step-Inv (ends r (failed e) h) v = ground arith
Step-Inv (finishes r h) v = ground arith

-- Whatever the calls and their order, the abort signal carries exactly the recorded stop reason, the
-- timer is set only on an unfinished run that nothing stopped, and no cancelled run is being
-- committed or has been.
pub Reach-Inv : {r s : Run} → Reach r s → Inv r → Inv s
Reach-Inv here v = v
Reach-Inv (next p st) v = Step-Inv st (Reach-Inv p v)

Step-stopped :
    {r s : Run} {reason : StopReason}
    → Step r s
    → r.control.stopped ≡ some reason
    → s.control.stopped ≡ some reason
unfolding fire_timer stop_reason cancel checkpoint end_operation begin_commit end_commit finish
Step-stopped (fires r) h = ground arith
Step-stopped (reads r now) h = ground arith
Step-stopped (cancels r now) h = ground arith
Step-stopped (checks r now) h = ground arith
Step-stopped (operates r now done) h = ground arith
Step-stopped (operates r now (failed e)) h = h
Step-stopped (begins r now) h = ground arith
Step-stopped (ends r done f) h = h
Step-stopped (ends r (failed e) f) h = h
Step-stopped (finishes r f) h = h

-- The first stop reason is kept for good.
pub Reach-stopped :
    {r s : Run} {reason : StopReason}
    → Reach r s
    → r.control.stopped ≡ some reason
    → s.control.stopped ≡ some reason
Reach-stopped here h = h
Reach-stopped (next p st) h = Step-stopped st (Reach-stopped p h)

cancel-stopped :
    (now : ℕ) (c : Control) → (cancel now c).1 ≡ true → (cancel now c).0.stopped ≡ some cancelled
unfolding cancel
cancel-stopped now c h = ground arith

-- Once `cancel` has returned true to the requester of a run in good order, no later call, in any
-- order, commits that run: its answer is never stored.
pub cancel_never_committed :
    {r s : Run} (now : ℕ)
    → Inv r
    → (cancel now r.control).1 ≡ true
    → Reach (record r { control = (cancel now r.control).0 }) s
    → s.control.state ≢ committed
cancel_never_committed {r} {s} now v h p =
    ((Reach-Inv p (Step-Inv (cancels r now) v)).uncommitted
      (Reach-stopped p (cancel-stopped now r.control h))).1

Step-committed :
    {r s : Run}
    → Step r s
    → Inv r
    → r.control.state ≡ committed
    → (s.control.state ≡ committed) × (s.control.stopped ≡ r.control.stopped)
unfolding fire_timer stop_reason cancel checkpoint end_operation begin_commit end_commit finish
Step-committed (fires r) v h = ground arith
Step-committed (reads r now) v h = ground arith
Step-committed (cancels r now) v h = ground arith
Step-committed (checks r now) v h = ground arith
Step-committed (operates r now done) v h = ground arith
Step-committed (operates r now (failed e)) v h = (h, refl)
Step-committed (begins r now) v h = ground arith
Step-committed (ends r result f) v h = ground arith
Step-committed (finishes r f) v h = ground arith

-- A committed run stays committed under every later call, and no late cancellation or deadline
-- changes its stop reason.
pub committed_final :
    {r s : Run}
    → Reach r s
    → Inv r
    → r.control.state ≡ committed
    → (s.control.state ≡ committed) × (s.control.stopped ≡ r.control.stopped)
committed_final here v h = (h, refl)
committed_final (next p st) v h =
    let (c, e) = committed_final p v h in
    let (c', e') = Step-committed st (Reach-Inv p v) c in (c', ground arith)

abbrev pub IsLive : ℕ → Control → Type 0
IsLive now c = (c.state ≡ running) × (c.stopped ≡ none) × (now < c.deadline_at)

-- `cancel` succeeds exactly on a run that is executing, was not stopped and has not reached its
-- deadline; `checkpoint` passes and a commit begins under that same condition and no other.
pub IsLive-iff :
    (now : ℕ) (c : Control)
    → (((cancel now c).1 ≡ true) ↔ IsLive now c)
      × (((checkpoint now c).1 ≡ done) ↔ IsLive now c)
      × (((begin_commit now c).1 ≡ done) ↔ IsLive now c)
unfolding cancel checkpoint begin_commit
IsLive-iff now c = (
  (λ h. ground arith, λ h. ground arith),
  (λ h. ground arith, λ h. ground arith),
  (λ h. ground arith, λ h. ground arith),
)

-- What may happen to the control between the begin and the end of a commit.
pub data Flight (c : Control) : Control → Type 0 where
  sets_off : Flight c c
  fires : {c' : Control} → Flight c c' → Flight c (fire_timer c')
  reads : {c' : Control} (now : ℕ) → Flight c c' → Flight c (stop_reason now c').0
  cancels : {c' : Control} (now : ℕ) → Flight c c' → Flight c (cancel now c').0
  checks : {c' : Control} (now : ℕ) → Flight c c' → Flight c (checkpoint now c').0
  operates :
      {c' : Control} (now : ℕ) (result : Outcome)
      → Flight c c'
      → Flight c (end_operation now result c').0
  begins : {c' : Control} (now : ℕ) → Flight c c' → Flight c (begin_commit now c').0

IsFlying : Control → Type 0
IsFlying c = (c.state ≡ committing) × ((c.stopped ≡ none) ⊎ (c.stopped ≡ some timed_out))

begin_commit-IsFlying :
    (t : ℕ) (c : Control) → (begin_commit t c).1 ≡ done → IsFlying (begin_commit t c).0
unfolding begin_commit IsFlying
begin_commit-IsFlying t c h = ground arith

Flight-IsFlying : {c c' : Control} → Flight c c' → IsFlying c → IsFlying c'
unfolding fire_timer stop_reason cancel checkpoint end_operation begin_commit IsFlying
Flight-IsFlying sets_off v = v
Flight-IsFlying (fires p) v = let u = Flight-IsFlying p v in ground (arith, u)
Flight-IsFlying (reads now p) v = let u = Flight-IsFlying p v in ground (arith, u)
Flight-IsFlying (cancels now p) v = let u = Flight-IsFlying p v in ground (arith, u)
Flight-IsFlying (checks now p) v = let u = Flight-IsFlying p v in ground (arith, u)
Flight-IsFlying (operates now done p) v = let u = Flight-IsFlying p v in ground (arith, u)
Flight-IsFlying (operates now (failed e) p) v = Flight-IsFlying p v
Flight-IsFlying (begins now p) v = let u = Flight-IsFlying p v in ground (arith, u)

-- While a commit is in flight, whatever is called and whether or not the timer fires, a cancellation is
-- refused at any time and the run is committed if `persist` succeeds. If `persist` fails, the caller is
-- told of the timeout if the run has been stopped by then, as it has if the timer fired, and of the
-- error if it has not.
pub commit_wins :
    (t now : ℕ) (c c' : Control) (e : ControlError)
    → (begin_commit t c).1 ≡ done
    → Flight (begin_commit t c).0 c'
    → ((cancel now c').1 ≡ false)
      × ((end_commit done c').0.state ≡ committed)
      × ((end_commit done c').1 ≡ done)
      × (c'.stopped ≡ none → (end_commit (failed e) c').1 ≡ failed e)
      × (c'.stopped ≢ none → (end_commit (failed e) c').1 ≡ failed (stopped_error timed_out))
      × (c'.timer ≡ true
          → (end_commit (failed e) (fire_timer c')).1 ≡ failed (stopped_error timed_out))
unfolding cancel fire_timer end_commit IsFlying
commit_wins t now c c' e h p =
    let flying = Flight-IsFlying p (begin_commit-IsFlying t c h) in
    (
      ground (arith, flying),
      refl,
      refl,
      λ n. ground (arith, flying, n),
      λ n. ground (arith, flying, n),
      λ timer. ground (arith, flying, timer),
    )
