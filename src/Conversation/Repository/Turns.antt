-- ===== src/Conversation/Repository/Turns.antt =====
-- database/src/conversations.ts: the turns are those of the completed events.
use shookie.Prelude.{
  ℕ, ◌+◌, ◌≤◌, String, Bool, true, false, Option, none, some, List, [], ◌∷◌, ◌++◌, ◌≡◌, ◌↔◌, inl,
  inr, arith, Option-cases, str_eq, eq_iff, is_some, if◌then◌else◌,
}
use shookie.Prelude.Maps.{lookup, lookup-insert}
use shookie.Conversation.Repository.{
  Event, Turn, processing, completed, failed, EventRow, TurnRow, Database, claim, complete, fail,
}

abbrev pub is_completed : Option EventRow → Bool
is_completed none = false
is_completed (some row) = elim row.status [ completed ↦ true | _ ↦ false ]

abbrev pub turns_of : String → List TurnRow → ℕ
turns_of id [] = 0
turns_of id (r ∷ rows) = if str_eq r.request_id id then 1 + turns_of id rows else turns_of id rows

-- Every request has one turn if its event is completed, and none otherwise.
abbrev pub Matched : Database → Type 0
Matched db =
    (id : String) → turns_of id db.turns ≡ (if is_completed (lookup id db.events) then 1 else 0)

turns_of-append :
    (id : String) (rows : List TurnRow) (r : TurnRow)
    → turns_of id (rows ++ r ∷ []) ≡ turns_of id rows + (if str_eq r.request_id id then 1 else 0)
turns_of-append id [] r = ground arith
turns_of-append id (q ∷ rows) r = ground (arith, turns_of-append id rows r)

claim-Matched : (now : ℕ) (e : Event) (db : Database) → Matched db → Matched (claim now e db).0
unfolding claim
claim-Matched now e db m id = ground (
  arith,
  m id,
  eq_iff e.request_id id,
  lookup-insert e.request_id id
      (record { event = e; status = processing; created_at = now; completed_at = none }) db.events,
)

complete-Matched :
    (now : ℕ) (e : Event) (turn : Turn) (db db' : Database)
    → complete now e turn db ≡ some db'
    → Matched db
    → Matched db'
unfolding complete
complete-Matched now e turn db db' h m id = elim (Option-cases (lookup e.request_id db.events)) [
  | inl absent ↦ ground (arith, h, absent)
  | inr (row, found) ↦ ground (
    arith,
    h,
    found,
    m id,
    eq_iff e.request_id id,
    lookup-insert e.request_id id (record row { status = completed; completed_at = some now })
        db.events,
    turns_of-append id db.turns
        (record { request_id = e.request_id; session_id = e.session_id; turn = turn }),
  )
]

fail-Matched : (now : ℕ) (id : String) (db : Database) → Matched db → Matched (fail now id db)
unfolding fail
fail-Matched now id db m j = elim (Option-cases (lookup id db.events)) [
  | inl absent ↦ ground (arith, absent, m j)
  | inr (row, found) ↦ ground (
    arith,
    found,
    m j,
    eq_iff id j,
    lookup-insert id j (record row { status = failed; completed_at = some now }) db.events,
  )
]

pub data Step : Database → Database → Type 0 where
  claims : {db : Database} (now : ℕ) (e : Event) → Step db (claim now e db).0
  completes :
      {db db' : Database} (now : ℕ) (e : Event) (turn : Turn)
      → complete now e turn db ≡ some db'
      → Step db db'
  fails : {db : Database} (now : ℕ) (id : String) → Step db (fail now id db)

pub data Later (db : Database) : Database → Type 0 where
  here : Later db db
  next : {db' db'' : Database} → Later db db' → Step db' db'' → Later db db''

-- An event stays, and a completed one stays completed.
abbrev Stays : String → Database → Database → Type 0
Stays id db db' =
    (is_some (lookup id db.events) ≡ true → is_some (lookup id db'.events) ≡ true)
    × (is_completed (lookup id db.events) ≡ true → is_completed (lookup id db'.events) ≡ true)

complete-Stays :
    (id : String) (now : ℕ) (e : Event) (turn : Turn) (db db' : Database)
    → complete now e turn db ≡ some db'
    → Stays id db db'
unfolding complete
complete-Stays id now e turn db db' h = elim (Option-cases (lookup e.request_id db.events)) [
  | inl absent ↦ ground (arith, h, absent)
  | inr (row, found) ↦ ground (
    arith,
    h,
    found,
    eq_iff e.request_id id,
    lookup-insert e.request_id id (record row { status = completed; completed_at = some now })
        db.events,
  )
]

fail-Stays : (id j : String) (now : ℕ) (db : Database) → Stays id db (fail now j db)
unfolding fail
fail-Stays id j now db = elim (Option-cases (lookup j db.events)) [
  | inl absent ↦ ground (arith, absent)
  | inr (row, found) ↦ ground (
    arith,
    found,
    eq_iff j id,
    lookup-insert j id (record row { status = failed; completed_at = some now }) db.events,
  )
]

claim-Stays : (id : String) (now : ℕ) (e : Event) (db : Database) → Stays id db (claim now e db).0
unfolding claim
claim-Stays id now e db = ground (
  arith,
  eq_iff e.request_id id,
  lookup-insert e.request_id id
      (record { event = e; status = processing; created_at = now; completed_at = none }) db.events,
)

Step-Stays : (id : String) {db db' : Database} → Step db db' → Stays id db db'
Step-Stays id (claims {db} now e) = claim-Stays id now e db
Step-Stays id (completes {db} {db'} now e turn h) = complete-Stays id now e turn db db' h
Step-Stays id (fails {db} now j) = fail-Stays id j now db

Later-Stays : (id : String) {db db' : Database} → Later db db' → Stays id db db'
Later-Stays id here = (λ h. h, λ h. h)
Later-Stays id (next l s) = (
  λ h. (Step-Stays id s).0 ((Later-Stays id l).0 h),
  λ h. (Step-Stays id s).1 ((Later-Stays id l).1 h),
)

pub Step-Matched : {db db' : Database} → Step db db' → Matched db → Matched db'
Step-Matched (claims {db} now e) m = claim-Matched now e db m
Step-Matched (completes {db} {db'} now e turn h) m = complete-Matched now e turn db db' h m
Step-Matched (fails {db} now id) m = fail-Matched now id db m

pub Later-Matched : {db db' : Database} → Later db db' → Matched db → Matched db'
Later-Matched here m = m
Later-Matched (next l s) m = Step-Matched s (Later-Matched l m)

claim-some :
    (now : ℕ) (e : Event) (db : Database)
    → is_some (lookup e.request_id (claim now e db).0.events) ≡ true
unfolding claim
claim-some now e db = ground (
  arith,
  eq_iff e.request_id e.request_id,
  lookup-insert e.request_id e.request_id
      (record { event = e; status = processing; created_at = now; completed_at = none }) db.events,
)

claim_again :
    (now : ℕ) (e : Event) (db : Database)
    → is_some (lookup e.request_id db.events) ≡ true
    → (claim now e db).1 ≡ false
unfolding claim
claim_again now e db h = ground (arith, h)

-- Whatever transactions follow a claim, the request is not claimed again, it has at most one turn, and
-- it has one exactly if its event is completed.
pub claim-Later :
    (now later : ℕ) (e : Event) (db db' : Database)
    → Matched db
    → Later (claim now e db).0 db'
    → ((claim later e db').1 ≡ false)
      × (turns_of e.request_id db'.turns ≤ 1)
      × (turns_of e.request_id db'.turns ≡ 1 ↔ is_completed (lookup e.request_id db'.events) ≡ true)
claim-Later now later e db db' m l =
    let there = (Later-Stays e.request_id l).0 (claim-some now e db) in
    let count = Later-Matched l (claim-Matched now e db m) e.request_id in
    (
      claim_again later e db' there,
      ground (arith, count),
      (ground (arith, count), ground (arith, count)),
    )
