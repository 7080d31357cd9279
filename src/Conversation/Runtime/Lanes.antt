-- ===== src/Conversation/Runtime/Lanes.antt =====
-- shookie/src/slack/conversation-runtime.ts: the lane of a thread, whose runs execute one at a time.
use shookie.Prelude.{
  ◌≤◌, String, Bool, true, false, Option, none, some, List, [], ◌∷◌, ◌++◌, ◌≡◌, inl, inr, refl,
  arith, Bool-cases, Option-cases, str_eq, ◌||◌, eq_iff, ltb, leb, if◌then◌else◌, length,
}
use shookie.Prelude.Maps.{
  lookup, insert, Distinct, lookup-insert, insert-Distinct, erase-Distinct, count,
  count-insert-none, count-insert-some, count-erase-some, lookup-erase, length-insert-none,
  length-insert-some, length-erase-some,
}
use shookie.Conversation.Memory.{active_runs, admitted_runs, per_thread_runs}
use shookie.Conversation.Runtime.{
  Phase, queued, waiting, executing, Run, Lane, Runtime, acquire, start, admit, withdraw, is_queued,
  is_first, lane_or_new, enter_lane, exit_lane, drop_member, is_released,
}

abbrev pub in_session : String → Run → Bool
in_session s r = str_eq r.session s

abbrev pub lane_in : List (String × Lane) → String → Lane
lane_in threads s = lane_or_new (lookup s threads)

-- A run has started only if it is the first of its thread, which `is_first` tests.
abbrev pub in_turn : List (String × Lane) → String → Option Run → Bool
in_turn threads id none = true
in_turn threads id (some r) =
    if is_queued r.phase then true else is_first id (lane_in threads r.session).members

-- The map of the threads is in order, a thread counts its pending runs, at most as many as it may
-- have, there are at most as many runs as may be, and every started run is the first of its thread.
pub record Laned (pending : List (String × Run)) (threads : List (String × Lane)) : Type 0 where
  pub keys : Distinct pending
  pub lanes : Distinct threads
  pub counts : (s : String) → (lane_in threads s).count ≡ count (in_session s) pending
  pub per_thread : (s : String) → (lane_in threads s).count ≤ per_thread_runs
  pub total : length pending ≤ admitted_runs
  pub turn : (id : String) → in_turn threads id (lookup id pending) ≡ true

is_first-append :
    (id other : String) (members : List String)
    → is_first id members ≡ true
    → is_first id (members ++ other ∷ []) ≡ true
is_first-append id other [] h = cc
is_first-append id other (m ∷ members) h = h

-- Another phase for a run that is the first of its thread.
pub retag-Laned :
    (id : String) (r : Run) (p : Phase) (m : List (String × Run)) (threads : List (String × Lane))
    → lookup id m ≡ some r
    → is_first id (lane_in threads r.session).members ≡ true
    → Laned m threads
    → Laned (insert id (record r { phase = p }) m) threads
retag-Laned id r p m threads h first l = record {
  keys = insert-Distinct id _ m l.keys;
  lanes = l.lanes;
  counts = λ s.
      ground (
        arith,
        l.counts s,
        count-insert-some (in_session s) id (record r { phase = p }) m {w = r} h,
      );
  per_thread = l.per_thread;
  total = ground (arith, l.total, length-insert-some id (record r { phase = p }) m {w = r} h);
  turn = λ j.
      ground (arith, first, l.turn j, eq_iff id j, lookup-insert id j (record r { phase = p }) m);
}

-- Entering a thread leaves its first member first.
enter_turn :
    (id session : String) (j : String) (threads : List (String × Lane)) (o : Option Run)
    → in_turn threads j o ≡ true
    → in_turn (insert session (enter_lane id (lane_in threads session)) threads) j o ≡ true
enter_turn id session j threads none t = refl
enter_turn id session j threads (some q) t = ground (
  arith,
  t,
  eq_iff session q.session,
  is_first-append j id (lane_in threads session).members,
  lookup-insert session q.session (enter_lane id (lane_in threads session)) threads,
)

pub admit-Laned :
    (id session : String) (rt : Runtime)
    → lookup id rt.pending ≡ none
    → (leb admitted_runs (length rt.pending)
        || leb per_thread_runs (lane_in rt.threads session).count)
      ≡ false
    → Laned rt.pending rt.threads
    → Laned (admit id session rt).pending (admit id session rt).threads
admit-Laned id session rt h room l =
    let r : Run = record { session = session; phase = queued } in
    let lane = enter_lane id (lane_in rt.threads session) in
    record {
      keys = insert-Distinct id r rt.pending l.keys;
      lanes = insert-Distinct session lane rt.threads l.lanes;
      counts = λ s. ground (
        arith,
        l.counts s,
        l.counts session,
        count-insert-none (in_session s) id r rt.pending h,
        lookup-insert session s lane rt.threads,
        eq_iff session s,
      );
      per_thread =
          λ s. ground (arith, room, l.per_thread s, lookup-insert session s lane rt.threads);
      total = ground (arith, room, l.total, length-insert-none id r rt.pending h);
      turn = λ j. ground (
        arith,
        lookup-insert id j r rt.pending,
        enter_turn id session j rt.threads (lookup j rt.pending) (l.turn j),
      );
    }

drop_member-lookup_ne :
    (session s : String) (lane : Lane) (threads : List (String × Lane))
    → Distinct threads
    → str_eq session s ≡ false
    → lookup s (drop_member session lane threads) ≡ lookup s threads
drop_member-lookup_ne session s lane threads d h =
    ground (arith, lookup-insert session s lane threads, lookup-erase session s threads d)

drop_member-count :
    (session s : String) (lane : Lane) (threads : List (String × Lane))
    → Distinct threads
    → (lane_in (drop_member session lane threads) s).count
      ≡ (if str_eq session s then lane.count else (lane_in threads s).count)
drop_member-count session s lane threads d =
    ground (arith, lookup-insert session s lane threads, lookup-erase session s threads d)

drop_member-Distinct :
    (session : String) (lane : Lane) (threads : List (String × Lane))
    → Distinct threads
    → Distinct (drop_member session lane threads)
drop_member-Distinct session lane threads d =
    ground (arith, insert-Distinct session lane threads d, erase-Distinct session threads d)

pub is_first_unique :
    (id other : String) (members : List String)
    → is_first id members ≡ true
    → is_first other members ≡ true
    → id ≡ other
is_first_unique id other [] h g = cc
is_first_unique id other (m ∷ members) h g = ground (arith, eq_iff m id, eq_iff m other)

-- The first member's leaving does not concern the runs that have started: they are of other threads.
exit_turn :
    (id : String) (r : Run) (j : String) (threads : List (String × Lane)) (o : Option Run)
    → Distinct threads
    → is_first id (lane_in threads r.session).members ≡ true
    → str_eq id j ≡ false
    → in_turn threads j o ≡ true
    → in_turn (drop_member r.session (exit_lane (lane_in threads r.session)) threads) j o ≡ true
exit_turn id r j threads none d first ne t = refl
exit_turn id r j threads (some q) d first ne t = ground (
  arith,
  t,
  eq_iff r.session q.session,
  eq_iff id j,
  is_first_unique id j (lane_in threads r.session).members first,
  drop_member-lookup_ne r.session q.session (exit_lane (lane_in threads r.session)) threads d,
)

pub withdraw-Laned :
    (id : String) (r : Run) (rt : Runtime)
    → lookup id rt.pending ≡ some r
    → is_released r.phase ≡ true
    → Laned rt.pending rt.threads
    → Laned (withdraw id rt (some r)).pending (withdraw id rt (some r)).threads
withdraw-Laned id r rt h e l =
    let first : is_first id (lane_in rt.threads r.session).members ≡ true =
      ground (arith, h, e, l.turn id) in
    let lane = exit_lane (lane_in rt.threads r.session) in
    rw e (record {
      keys = erase-Distinct id rt.pending l.keys;
      lanes = drop_member-Distinct r.session lane rt.threads l.lanes;
      counts = λ s. ground (
        arith,
        l.counts s,
        l.counts r.session,
        eq_iff r.session s,
        count-erase-some (in_session s) id rt.pending {w = r} h,
        drop_member-count r.session s lane rt.threads l.lanes,
      );
      per_thread = λ s. ground (
        arith,
        l.per_thread s,
        eq_iff r.session s,
        drop_member-count r.session s lane rt.threads l.lanes,
      );
      total = ground (arith, l.total, length-erase-some id rt.pending {v = r} h);
      turn = λ j. ground (
        arith,
        lookup-erase id j rt.pending l.keys,
        exit_turn id r j rt.threads (lookup j rt.pending) l.lanes first,
        l.turn j,
      );
    })

pub start-Laned :
    (id : String) (rt : Runtime)
    → Laned rt.pending rt.threads
    → Laned (start id rt).pending (start id rt).threads
unfolding start acquire
start-Laned id rt l = elim (Option-cases (lookup id rt.pending)) [
  | inl absent ↦ rw absent l
  | inr (r, found) ↦ rw found (elim (Bool-cases (is_queued r.phase)) [
    | inr late ↦ rw late l
    | inl q ↦ rw q (elim (Bool-cases (is_first id (lane_in rt.threads r.session).members)) [
      | inr later ↦ rw later l
      | inl first ↦ rw first (elim (Bool-cases (ltb rt.active active_runs)) [
        | inl free ↦ rw free (retag-Laned id r executing rt.pending rt.threads found first l)
        | inr taken ↦ rw taken (retag-Laned id r waiting rt.pending rt.threads found first l)
      ])
    ])
  ])
]

-- A run that has started is the first of its thread.
pub started-first :
    (id : String) (r : Run) (m : List (String × Run)) (threads : List (String × Lane))
    → lookup id m ≡ some r
    → is_queued r.phase ≡ false
    → Laned m threads
    → is_first id (lane_in threads r.session).members ≡ true
started-first id r m threads h q l = ground (arith, h, q, l.turn id)
