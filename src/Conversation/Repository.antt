-- ===== src/Conversation/Repository.antt =====
-- database/src/conversations.ts: `conversationRepository`, each function one transaction at the
-- database's time `now`. The events stand under their primary key, the turns in the order of their ids.
pub mod Turns
use shookie.Prelude.{
  ℕ, ◌+◌, ◌-◌, String, Bool, true, false, Option, none, some, List, [], ◌∷◌, ◌++◌, not, str_eq,
  is_some, if◌then◌else◌, length, drop, select, map, ◌||◌,
}
use shookie.Prelude.Maps.{lookup, insert}

pub record Event : Type 0 where
  pub request_id : String
  pub session_id : String
  pub channel : String
  pub thread_ts : String
  pub user_id : String
  pub team_id : Option String
  pub event_id : Option String

pub record Turn : Type 0 where
  pub user_content : String
  pub assistant_content : String

pub data Status : Type 0 where
  processing completed failed : Status

pub record EventRow : Type 0 where
  pub event : Event
  pub status : Status
  pub created_at : ℕ
  pub completed_at : Option ℕ

pub record TurnRow : Type 0 where
  pub request_id : String
  pub session_id : String
  pub turn : Turn

pub record Database : Type 0 where
  pub events : List (String × EventRow)
  pub turns : List TurnRow

-- `claim`: ON CONFLICT (request_id) DO NOTHING
unfoldable pub claim : ℕ → Event → Database → Database × Bool
claim now e db = if is_some (lookup e.request_id db.events) then (db, false) else (
  record db {
    events =
        insert e.request_id
          (record { event = e; status = processing; created_at = now; completed_at = none })
          db.events;
  },
  true,
)

abbrev pub of_session : String → TurnRow → Bool
of_session session r = str_eq r.session_id session

abbrev turn_of : TurnRow → Turn
turn_of r = r.turn

-- `recent`: the last `limit` turns of the session, the oldest of them first.
unfoldable pub recent : String → ℕ → Database → List Turn
recent session limit db =
    let turns = select (of_session session) db.turns in
    map turn_of (drop (length turns - limit) turns)

abbrev pub is_processing : Status → Bool
is_processing processing = true
is_processing _ = false

-- The row is there and processing.
abbrev pub processes : Option EventRow → Bool
processes none = false
processes (some row) = is_processing row.status

abbrev pub has_turn : String → List TurnRow → Bool
has_turn id [] = false
has_turn id (r ∷ rows) = if str_eq r.request_id id then true else has_turn id rows

abbrev pub settle_row : ℕ → Status → Option EventRow → Option EventRow
settle_row now status none = none
settle_row now status (some row) = some (record row { status = status; completed_at = some now })

abbrev pub put_row : String → Option EventRow → List (String × EventRow) → List (String × EventRow)
put_row id none events = events
put_row id (some row) events = insert id row events

-- `complete`: none if it throws, with its transaction rolled back. A second turn of a request would
-- violate the table's UNIQUE.
unfoldable pub complete : ℕ → Event → Turn → Database → Option Database
complete now e turn db =
    let row = lookup e.request_id db.events in
    if not (processes row) || has_turn e.request_id db.turns
    then none
    else some (record {
      events = put_row e.request_id (settle_row now completed row) db.events;
      turns =
          db.turns
          ++ record { request_id = e.request_id; session_id = e.session_id; turn = turn } ∷ [];
    })

-- `fail`
unfoldable pub fail : ℕ → String → Database → Database
fail now id db =
    let row = lookup id db.events in
    if processes row
    then record db { events = put_row id (settle_row now failed row) db.events }
    else db
