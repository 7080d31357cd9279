-- ===== src/Conversation/Runtime/Places.antt =====
-- shookie/src/slack/conversation-runtime.ts: each event keeps the semaphore's count and its waiters.
use shookie.Prelude.{
  String, true, false, some, List, [], ◌∷◌, ◌≡◌, inl, inr, refl, subst, ◌+◌, arith, Bool-cases,
  Option-cases, str_eq, eq_iff, ltb, leb, ◌||◌, length, All, All-imp, All-zip,
}
use shookie.Prelude.Maps.{
  lookup, insert, erase, Distinct, insert-Distinct, erase-Distinct, count, count-insert-some,
  count-erase-some, lookup-erase,
}
use Prim.Native.String.{len}
use shookie.Conversation.Memory.{input_bytes, admitted_runs, per_thread_runs}
use shookie.Conversation.Runtime.{
  executing, released, Run, Runtime, empty_runtime, submit, start, leave, settle, begin, withdraw,
  release, is_executing, is_queued, is_first, lane_or_new, is_released,
}
use shookie.Conversation.Runtime.Semaphore.{
  executes, waits, waits_in, Unique, Balanced, known-waits, All-insert, waits_in-insert_ne,
  acquire-Balanced, admit-Balanced,
}

-- One run has stopped executing, and its place is not yet given away.
abbrev pub vacated : String → Run → Runtime → List (String × Run)
vacated id r rt = insert id (record r { phase = released }) rt.pending

pub vacated-count :
    (id : String) (r : Run) (rt : Runtime)
    → lookup id rt.pending ≡ some r
    → is_executing r.phase ≡ true
    → Balanced rt
    → (rt.active ≡ count executes (vacated id r rt) + 1)
      × (length rt.waiters ≡ count waits (vacated id r rt))
      × All (λ other. waits_in (vacated id r rt) other ≡ true) rt.waiters
vacated-count id r rt h e b = (
  ground (
    arith,
    b.holders,
    e,
    count-insert-some executes id (record r { phase = released }) rt.pending {w = r} h,
  ),
  ground (
    arith,
    b.queue,
    e,
    count-insert-some waits id (record r { phase = released }) rt.pending {w = r} h,
  ),
  All-insert rt.pending id (record r { phase = released }) rt.waiters
      (known-waits rt.pending id r h (ground (arith, e))) b.waiting_all,
)

pub waits_in-some :
    (m : List (String × Run)) (id : String)
    → waits_in m id ≡ true
    → (r : Run) × (lookup id m ≡ some r) × (waits r ≡ true)
waits_in-some m id h = elim (Option-cases (lookup id m)) [
  | inl e ↦ ground (arith, e)
  | inr (r, e) ↦ (r, e, ground (arith, e, h))
]

release-Balanced :
    (id : String) (r : Run) (rt : Runtime) (ws : List String)
    → rt.waiters ≡ ws
    → lookup id rt.pending ≡ some r
    → is_executing r.phase ≡ true
    → Balanced rt
    → Balanced (release ws (record rt { pending = vacated id r rt }))
release-Balanced id r rt [] w h e b = record {
  keys = insert-Distinct id (record r { phase = released }) rt.pending b.keys;
  holders = ground (arith, vacated-count id r rt h e b);
  bound = ground (arith, b.bound);
  full = inl w;
  queue = (vacated-count id r rt h e b).1;
  waiting_all = (vacated-count id r rt h e b).2;
  once = b.once;
}
release-Balanced id r rt (next ∷ ws) w h e b =
    let counts = vacated-count id r rt h e b in
    let all = subst (λ l. All (λ other. waits_in (vacated id r rt) other ≡ true) l) w counts.2 in
    let once = subst Unique w b.once in
    let (n, found, waited) = waits_in-some (vacated id r rt) next all.0 in
    rw found (record {
      keys =
          insert-Distinct next (record n { phase = executing }) (vacated id r rt)
            (insert-Distinct id (record r { phase = released }) rt.pending b.keys);
      holders = ground (
        arith,
        counts.0,
        waited,
        count-insert-some executes next (record n { phase = executing }) (vacated id r rt) {w = n}
            found,
      );
      bound = b.bound;
      full = inr (ground (arith, b.full, w));
      queue = ground (
        arith,
        counts.1,
        waited,
        w,
        count-insert-some waits next (record n { phase = executing }) (vacated id r rt) {w = n}
            found,
      );
      waiting_all =
          All-zip (λ other. str_eq next other ≡ false)
            (λ other. waits_in (vacated id r rt) other ≡ true) _ ws
            (λ other.
              waits_in-insert_ne (vacated id r rt) next (record n { phase = executing }) other)
            once.0 all.1;
      once = once.1;
    })

waits_in-erase :
    (m : List (String × Run)) (id other : String)
    → Distinct m
    → waits_in m id ≡ false
    → waits_in m other ≡ true
    → waits_in (erase id m) other ≡ true
waits_in-erase m id other d h g = ground (arith, lookup-erase id other m d, eq_iff id other)

withdraw-Balanced :
    (id : String) (r : Run) (rt : Runtime)
    → lookup id rt.pending ≡ some r
    → is_released r.phase ≡ true
    → Balanced rt
    → Balanced (withdraw id rt (some r))
withdraw-Balanced id r rt h e b = rw e (record {
  keys = erase-Distinct id rt.pending b.keys;
  holders = ground (arith, b.holders, e, count-erase-some executes id rt.pending {w = r} h);
  bound = b.bound;
  full = b.full;
  queue = ground (arith, b.queue, e, count-erase-some waits id rt.pending {w = r} h);
  waiting_all =
      All-imp (λ other. waits_in rt.pending other ≡ true) _ rt.waiters
        (λ other.
          waits_in-erase rt.pending id other b.keys
            (known-waits rt.pending id r h (ground (arith, e))))
        b.waiting_all;
  once = b.once;
})

begin-Balanced :
    (id : String) (r : Run) (rt : Runtime)
    → lookup id rt.pending ≡ some r
    → Balanced rt
    → Balanced (begin id rt (some r))
begin-Balanced id r rt h b = elim (Bool-cases (is_queued r.phase)) [
  | inr late ↦ rw late b
  | inl q ↦
      rw q (elim (Bool-cases (is_first id (lane_or_new (lookup r.session rt.threads)).members)) [
        | inl first ↦ rw first (acquire-Balanced id r rt h q b)
        | inr later ↦ rw later b
      ])
]

pub leave-Balanced : (id : String) (rt : Runtime) → Balanced rt → Balanced (leave id rt)
unfolding leave
leave-Balanced id rt b = elim (Option-cases (lookup id rt.pending)) [
  | inl absent ↦ rw absent b
  | inr (r, found) ↦ rw found (elim (Bool-cases (is_executing r.phase)) [
    | inl e ↦ rw e (release-Balanced id r rt rt.waiters refl found e b)
    | inr e ↦ rw e b
  ])
]

pub settle-Balanced : (id : String) (rt : Runtime) → Balanced rt → Balanced (settle id rt)
unfolding settle
settle-Balanced id rt b = elim (Option-cases (lookup id rt.pending)) [
  | inl absent ↦ rw absent b
  | inr (r, found) ↦ rw found (elim (Bool-cases (is_released r.phase)) [
    | inl e ↦ withdraw-Balanced id r rt found e b
    | inr e ↦ rw e b
  ])
]

pub start-Balanced : (id : String) (rt : Runtime) → Balanced rt → Balanced (start id rt)
unfolding start
start-Balanced id rt b = elim (Option-cases (lookup id rt.pending)) [
  | inl none_found ↦ rw none_found b
  | inr (r, found) ↦ rw found (begin-Balanced id r rt found b)
]

pub submit-Balanced :
    (id session text : String) (rt : Runtime) → Balanced rt → Balanced (submit id session text rt).0
unfolding submit
submit-Balanced id session text rt b = elim (Option-cases (lookup id rt.pending)) [
  | inr (r, found) ↦ rw found b
  | inl absent ↦ rw absent (elim (Bool-cases (ltb input_bytes (len text))) [
    | inl large ↦ rw large b
    | inr fits ↦
        rw fits
          (elim (Bool-cases (
            leb admitted_runs (length rt.pending)
            || leb per_thread_runs (lane_or_new (lookup session rt.threads)).count)) [
              | inl full ↦ rw full b
              | inr room ↦ rw room (admit-Balanced id session rt absent b)
            ])
  ])
]

pub empty-Balanced : Balanced empty_runtime
unfolding empty_runtime
empty-Balanced = record {
  keys = tt;
  holders = refl;
  bound = omega arith;
  full = inl refl;
  queue = refl;
  waiting_all = tt;
  once = tt;
}
