-- ===== src/Conversation/Runtime/Semaphore.antt =====
-- shookie/src/slack/conversation-runtime.ts: the semaphore counts the runs that execute.
use shookie.Prelude.{
  ◌≤◌, String, Bool, true, false, Option, none, some, List, [], ◌∷◌, ◌++◌, ◌≡◌, ◌⊎◌, inl, inr, refl,
  arith, Bool-cases, str_eq, eq_iff, ltb, length, length-append, All, All-append, All-imp,
}
use shookie.Prelude.Maps.{
  lookup, insert, Distinct, lookup-insert, insert-Distinct, count, count-insert-none,
  count-insert-some,
}
use shookie.Conversation.Memory.{active_runs}
use shookie.Conversation.Runtime.{
  Phase, queued, waiting, executing, Run, Runtime, acquire, admit, is_executing, is_queued,
}

abbrev pub executes : Run → Bool
executes r = is_executing r.phase

abbrev is_waiting : Phase → Bool
is_waiting waiting = true
is_waiting _ = false

abbrev pub waits : Run → Bool
waits r = is_waiting r.phase

abbrev passes : Option Run → Bool
passes none = false
passes (some r) = waits r

-- The request waits in `acquire`.
abbrev pub waits_in : List (String × Run) → String → Bool
waits_in m id = passes (lookup id m)

abbrev pub Unique : List String → Type 0
Unique [] = Unit
Unique (id ∷ ids) = All (λ other. str_eq id other ≡ false) ids × Unique ids

-- `active` is the number of the executing runs, at most the bound, and reaches it while a run waits;
-- the waiters are the runs that wait, each once.
pub record Balanced (rt : Runtime) : Type 0 where
  pub keys : Distinct rt.pending
  pub holders : rt.active ≡ count executes rt.pending
  pub bound : rt.active ≤ active_runs
  pub full : (rt.waiters ≡ []) ⊎ (rt.active ≡ active_runs)
  pub queue : length rt.waiters ≡ count waits rt.pending
  pub waiting_all : All (λ id. waits_in rt.pending id ≡ true) rt.waiters
  pub once : Unique rt.waiters

waits_in-insert :
    (m : List (String × Run)) (id : String) (r : Run) (other : String)
    → waits_in m id ≡ false
    → waits_in m other ≡ true
    → waits_in (insert id r m) other ≡ true
waits_in-insert m id r other h g = ground (arith, lookup-insert id other r m, eq_iff id other)

pub waits_in-insert_ne :
    (m : List (String × Run)) (id : String) (r : Run) (other : String)
    → str_eq id other ≡ false
    → waits_in m other ≡ true
    → waits_in (insert id r m) other ≡ true
waits_in-insert_ne m id r other h g = ground (arith, lookup-insert id other r m)

waits_in-insert_self :
    (m : List (String × Run)) (id : String) (r : Run)
    → waits r ≡ true
    → waits_in (insert id r m) id ≡ true
waits_in-insert_self m id r h = ground (arith, lookup-insert id id r m, eq_iff id id)

pub absent-waits :
    (m : List (String × Run)) (id : String) → lookup id m ≡ none → waits_in m id ≡ false
absent-waits m id h = ground (arith, h)

pub known-waits :
    (m : List (String × Run)) (id : String) (r : Run)
    → lookup id m ≡ some r
    → waits r ≡ false
    → waits_in m id ≡ false
known-waits m id r h g = ground (arith, h, g)

-- The waiters still wait after another run, which does not wait, has been written.
pub All-insert :
    (m : List (String × Run)) (id : String) (r : Run) (ids : List String)
    → waits_in m id ≡ false
    → All (λ other. waits_in m other ≡ true) ids
    → All (λ other. waits_in (insert id r m) other ≡ true) ids
All-insert m id r ids h =
    All-imp (λ other. waits_in m other ≡ true) (λ other. waits_in (insert id r m) other ≡ true) ids
      (λ other. waits_in-insert m id r other h)

Fresh-of :
    (m : List (String × Run)) (id : String) (ids : List String)
    → waits_in m id ≡ false
    → All (λ other. waits_in m other ≡ true) ids
    → All (λ other. str_eq other id ≡ false) ids
Fresh-of m id ids h =
    All-imp (λ other. waits_in m other ≡ true) (λ other. str_eq other id ≡ false) ids
      (λ other g. ground (arith, eq_iff other id))

Unique-append :
    (ids : List String) (id : String)
    → All (λ other. str_eq other id ≡ false) ids
    → Unique ids
    → Unique (ids ++ id ∷ [])
Unique-append [] id h u = (tt, tt)
Unique-append (x ∷ ids) id h u = (
  All-append (λ other. str_eq x other ≡ false) ids (id ∷ []) u.0 (h.0, tt),
  Unique-append ids id h.1 u.1,
)

pub admit-Balanced :
    (id session : String) (rt : Runtime)
    → lookup id rt.pending ≡ none
    → Balanced rt
    → Balanced (admit id session rt)
admit-Balanced id session rt h b =
    let r : Run = record { session = session; phase = queued } in
    record {
      keys = insert-Distinct id r rt.pending b.keys;
      holders = ground (arith, b.holders, count-insert-none executes id r rt.pending h);
      bound = b.bound;
      full = b.full;
      queue = ground (arith, b.queue, count-insert-none waits id r rt.pending h);
      waiting_all =
          All-insert rt.pending id r rt.waiters (absent-waits rt.pending id h) b.waiting_all;
      once = b.once;
    }

pub acquire-Balanced :
    (id : String) (r : Run) (rt : Runtime)
    → lookup id rt.pending ≡ some r
    → is_queued r.phase ≡ true
    → Balanced rt
    → Balanced (acquire id r rt)
unfolding acquire
acquire-Balanced id r rt h q b = elim (Bool-cases (ltb rt.active active_runs)) [
  | inl free ↦ rw free (record {
    keys = insert-Distinct id (record r { phase = executing }) rt.pending b.keys;
    holders = ground (
      arith,
      b.holders,
      q,
      count-insert-some executes id (record r { phase = executing }) rt.pending {w = r} h,
    );
    bound = ground (arith, b.bound);
    full = ground (arith, b.full);
    queue = ground (
      arith,
      b.queue,
      q,
      count-insert-some waits id (record r { phase = executing }) rt.pending {w = r} h,
    );
    waiting_all =
        All-insert rt.pending id (record r { phase = executing }) rt.waiters
          (known-waits rt.pending id r h (ground (arith, q))) b.waiting_all;
    once = b.once;
  })
  | inr taken ↦ rw taken (record {
    keys = insert-Distinct id (record r { phase = waiting }) rt.pending b.keys;
    holders = ground (
      arith,
      b.holders,
      q,
      count-insert-some executes id (record r { phase = waiting }) rt.pending {w = r} h,
    );
    bound = b.bound;
    full = ground (arith, b.bound);
    queue = ground (
      arith,
      b.queue,
      q,
      length-append rt.waiters (id ∷ []),
      count-insert-some waits id (record r { phase = waiting }) rt.pending {w = r} h,
    );
    waiting_all =
        All-append _ rt.waiters (id ∷ [])
          (All-insert rt.pending id (record r { phase = waiting }) rt.waiters
            (known-waits rt.pending id r h (ground (arith, q))) b.waiting_all)
          (waits_in-insert_self rt.pending id (record r { phase = waiting }) refl, tt);
    once =
        Unique-append rt.waiters id
          (Fresh-of rt.pending id rt.waiters (known-waits rt.pending id r h (ground (arith, q)))
            b.waiting_all)
          b.once;
  })
]
