-- ===== src/Conversation/Runtime/Trace.antt =====
-- shookie/src/slack/conversation-runtime.ts: `ConversationRuntime` under every order of its events.
use Prim.Native.String.{len}
use shookie.Prelude.{
  ◌≤◌, ◌<◌, subst, String, true, none, some, List, [], ◌∷◌, ◌≡◌, ◌⊎◌, inl, inr, refl, arith,
  Bool-cases, Option-cases, eq_iff, ltb, leb, ◌||◌, length, sym, All, ◌↔◌, ◌≢◌,
}
use shookie.Prelude.Maps.{lookup, insert, count, lookup-insert}
use shookie.Conversation.Memory.{input_bytes, active_runs, admitted_runs, per_thread_runs}
use shookie.Conversation.Runtime.{
  queued, executing, released, Run, Lane, Runtime, empty_runtime, submit, start, leave, settle,
  release, set_phase, is_executing, is_first, is_released, admitted,
}
use shookie.Conversation.Runtime.Semaphore.{Balanced, executes, waits, waits_in}
use shookie.Conversation.Runtime.Places.{
  waits_in-some, vacated, vacated-count, start-Balanced, leave-Balanced, settle-Balanced,
  submit-Balanced, empty-Balanced,
}
use shookie.Conversation.Runtime.Lanes.{
  Laned, lane_in, in_session, retag-Laned, admit-Laned, withdraw-Laned, start-Laned, started-first,
  is_first_unique,
}

wake-Laned :
    (next : String) (m : List (String × Run)) (threads : List (String × Lane))
    → waits_in m next ≡ true
    → Laned m threads
    → Laned (set_phase next executing (lookup next m) m) threads
wake-Laned next m threads w l = elim (Option-cases (lookup next m)) [
  | inl absent ↦ rw absent l
  | inr (r, found) ↦ rw found (
      retag-Laned next r executing m threads found
        (started-first next r m threads found (ground (arith, w, found)) l) l)
]

vacate-Laned :
    (id : String) (r : Run) (rt : Runtime)
    → lookup id rt.pending ≡ some r
    → is_executing r.phase ≡ true
    → Laned rt.pending rt.threads
    → Laned (insert id (record r { phase = released }) rt.pending) rt.threads
vacate-Laned id r rt h e l =
    retag-Laned id r released rt.pending rt.threads h
      (started-first id r rt.pending rt.threads h (ground (arith, e)) l) l

release-Laned :
    (id : String) (r : Run) (rt : Runtime) (ws : List String)
    → lookup id rt.pending ≡ some r
    → is_executing r.phase ≡ true
    → All (λ other. waits_in (insert id (record r { phase = released }) rt.pending) other ≡ true) ws
    → Laned rt.pending rt.threads
    → Laned
        (release ws
          (record rt { pending = insert id (record r { phase = released }) rt.pending })).pending
        (release ws
          (record rt { pending = insert id (record r { phase = released }) rt.pending })).threads
release-Laned id r rt [] h e a l = vacate-Laned id r rt h e l
release-Laned id r rt (next ∷ ws) h e a l =
    wake-Laned next (insert id (record r { phase = released }) rt.pending) rt.threads a.0
      (vacate-Laned id r rt h e l)

leave-Laned :
    (id : String) (rt : Runtime)
    → Balanced rt
    → Laned rt.pending rt.threads
    → Laned (leave id rt).pending (leave id rt).threads
unfolding leave
leave-Laned id rt b l = elim (Option-cases (lookup id rt.pending)) [
  | inl absent ↦ rw absent l
  | inr (r, found) ↦ rw found (elim (Bool-cases (is_executing r.phase)) [
    | inr e ↦ rw e l
    | inl e ↦ rw e (release-Laned id r rt rt.waiters found e (vacated-count id r rt found e b).2 l)
  ])
]

settle-Laned :
    (id : String) (rt : Runtime)
    → Laned rt.pending rt.threads
    → Laned (settle id rt).pending (settle id rt).threads
unfolding settle
settle-Laned id rt l = elim (Option-cases (lookup id rt.pending)) [
  | inl absent ↦ rw absent l
  | inr (r, found) ↦ rw found (elim (Bool-cases (is_released r.phase)) [
    | inl e ↦ withdraw-Laned id r rt found e l
    | inr e ↦ rw e l
  ])
]

submit-Laned :
    (id session text : String) (rt : Runtime)
    → Laned rt.pending rt.threads
    → Laned (submit id session text rt).0.pending (submit id session text rt).0.threads
unfolding submit
submit-Laned id session text rt l = elim (Option-cases (lookup id rt.pending)) [
  | inr (r, found) ↦ rw found l
  | inl absent ↦ rw absent (elim (Bool-cases (ltb input_bytes (len text))) [
    | inl large ↦ rw large l
    | inr fits ↦
        rw fits
          (elim (Bool-cases (
            leb admitted_runs (length rt.pending)
            || leb per_thread_runs (lane_in rt.threads session).count)) [
              | inl full ↦ rw full l
              | inr room ↦ rw room (admit-Laned id session rt absent room l)
            ])
  ])
]

empty-Laned : Laned empty_runtime.pending empty_runtime.threads
unfolding empty_runtime lookup
empty-Laned = record {
  keys = tt;
  lanes = tt;
  counts = λ s. refl;
  per_thread = λ s. omega arith;
  total = omega arith;
  turn = λ id. refl;
}

-- One event at the runtime: a request comes in, or a run comes to its turn, ends or settles.
pub data Step : Runtime → Runtime → Type 0 where
  submitted : {rt : Runtime} (id session text : String) → Step rt (submit id session text rt).0
  started : {rt : Runtime} (id : String) → Step rt (start id rt)
  left : {rt : Runtime} (id : String) → Step rt (leave id rt)
  settled : {rt : Runtime} (id : String) → Step rt (settle id rt)

pub data Reach : Runtime → Type 0 where
  initially : Reach empty_runtime
  next : {a b : Runtime} → Reach a → Step a b → Reach b

Step-Inv :
    {a b : Runtime}
    → Step a b
    → Balanced a × Laned a.pending a.threads
    → Balanced b × Laned b.pending b.threads
Step-Inv (submitted {rt} id s t) (bal, l) =
    (submit-Balanced id s t rt bal, submit-Laned id s t rt l)
Step-Inv (started {rt} id) (bal, l) = (start-Balanced id rt bal, start-Laned id rt l)
Step-Inv (left {rt} id) (bal, l) = (leave-Balanced id rt bal, leave-Laned id rt bal l)
Step-Inv (settled {rt} id) (bal, l) = (settle-Balanced id rt bal, settle-Laned id rt l)

Reach-both : {rt : Runtime} → Reach rt → Balanced rt × Laned rt.pending rt.threads
Reach-both initially = (empty-Balanced, empty-Laned)
Reach-both (next r s) = Step-Inv s (Reach-both r)

-- After any events, two runs of one thread that have both left the thread's queue are the same run.
pub thread_exclusive :
    {rt : Runtime} (i j : String) (r q : Run)
    → Reach rt
    → lookup i rt.pending ≡ some r
    → lookup j rt.pending ≡ some q
    → r.session ≡ q.session
    → r.phase ≢ queued
    → q.phase ≢ queued
    → i ≡ j
thread_exclusive {rt} i j r q reach hr hq same nr nq =
    let l = (Reach-both reach).1 in
    is_first_unique i j (lane_in rt.threads r.session).members
      (started-first i r rt.pending rt.threads hr (ground (arith, nr)) l)
      (subst (λ s. is_first j (lane_in rt.threads s).members ≡ true) (sym same)
        (started-first j q rt.pending rt.threads hq (ground (arith, nq)) l))

-- What the runtime keeps to: `active` counts the executing runs and stays in its bound, which is
-- reached whenever a run waits; the runs that wait are the waiters; and the pending runs stay within
-- the bounds for all and for each thread.
pub record WithinCapacity (rt : Runtime) : Type 0 where
  pub holders : rt.active ≡ count executes rt.pending
  pub bound : rt.active ≤ active_runs
  pub queue : length rt.waiters ≡ count waits rt.pending
  pub full : (count waits rt.pending ≡ 0) ⊎ (rt.active ≡ active_runs)
  pub total : length rt.pending ≤ admitted_runs
  pub per_thread : (s : String) → count (in_session s) rt.pending ≤ per_thread_runs

-- After any events the runtime is within its capacity: the semaphore's count is that of the executing
-- runs, at most four, and no run waits while a place is free; at most 64 runs are pending, and at most
-- eight of one thread.
pub Reach-WithinCapacity : {rt : Runtime} → Reach rt → WithinCapacity rt
Reach-WithinCapacity {rt} reach =
    let (b, l) = Reach-both reach in
    record {
      holders = b.holders;
      bound = b.bound;
      queue = b.queue;
      full = elim b.full [ inl e ↦ inl (ground (arith, e, b.queue)) | inr e ↦ inr e ];
      total = l.total;
      per_thread = λ s. ground (arith, l.counts s, l.per_thread s);
    }

-- The conditions under which a request is admitted.
abbrev pub Admissible : String → String → String → Runtime → Type 0
Admissible id session text rt =
    (lookup id rt.pending ≡ none)
    × (len text ≤ input_bytes)
    × (length rt.pending < admitted_runs)
    × (count (in_session session) rt.pending < per_thread_runs)

-- After any events a request is admitted exactly if no run of its id is pending, its text is within
-- the bound, and fewer runs are pending than may be, in all and in its thread; it is then pending and
-- queued, and otherwise nothing changes.
pub submit_iff :
    {rt : Runtime} (id session text : String)
    → Reach rt
    → ((submit id session text rt).1 ≡ admitted ↔ Admissible id session text rt)
      × ((submit id session text rt).1 ≡ admitted
          → lookup id (submit id session text rt).0.pending
            ≡ some (record { session = session; phase = queued }))
      × ((submit id session text rt).1 ≢ admitted → (submit id session text rt).0 ≡ rt)
unfolding submit
submit_iff {rt} id session text reach =
    let counts = (Reach-both reach).1.counts session in
    (
      (ground (arith, counts), ground (arith, counts)),
      ground (
        arith,
        eq_iff id id,
        lookup-insert id id (record { session = session; phase = queued }) rt.pending,
      ),
      ground arith,
    )

-- After any events, when an executing run leaves while others wait, the one that has waited longest
-- executes, `active` stays the same and the others wait on.
pub leave_hands_over :
    {rt : Runtime} (id first : String) (r : Run) (others : List String)
    → Reach rt
    → lookup id rt.pending ≡ some r
    → r.phase ≡ executing
    → rt.waiters ≡ first ∷ others
    → ((q : Run) × (lookup first (leave id rt).pending ≡ some q) × (q.phase ≡ executing))
      × ((leave id rt).waiters ≡ others)
      × ((leave id rt).active ≡ rt.active)
unfolding leave
leave_hands_over {rt} id first r others reach h e w =
    let b = (Reach-both reach).0 in
    let all =
      subst (λ l. All (λ other. waits_in (vacated id r rt) other ≡ true) l) w
        (vacated-count id r rt h (ground (arith, e)) b).2 in
    let (n, found, waited) = waits_in-some (vacated id r rt) first all.0 in
    rw (h, e, w)
      (rw found (
        (
          record n { phase = executing },
          ground (
            arith,
            eq_iff first first,
            lookup-insert first first (record n { phase = executing }) (vacated id r rt),
          ),
          refl,
        ),
        refl,
        refl,
      ))
