-- ===== src/Relay/Event.antt =====
-- shookie/src/slack/message-relay/event.ts: `extractRelayMessage`. The envelope is a value as JSON
-- gives it; the patterns are tested on the code points of a text.
pub mod Format
pub mod Reads
use shookie.Prelude.{
  ℕ, String, Bool, true, false, Option, none, some, List, [], ◌∷◌, ltb, leb, ◌==◌, ◌&&◌, ◌||◌, not,
  str_eq, is_some, if◌then◌else◌, length, take, drop,
}
use shookie.Prelude.Text.{
  codes, is_upper, is_lower, is_digit, is_id_unit, all_of, is_shape, text_lt,
}
use shookie.Prelude.Value.{Value, undefined, null, str, obj, Fields, get_field, text_of, is_text}
use shookie.Relay.Outbox.{Metadata}

pub record RelayIdentity : Type 0 where
  pub app_id : String
  pub team_id : String

-- `CAPTURED_SUBTYPES`
unfoldable pub is_captured_subtype : String → Bool
is_captured_subtype s =
    str_eq s "bot_message"
    || str_eq s "thread_broadcast"
    || str_eq s "file_share"
    || str_eq s "me_message"

-- /^T[A-Z0-9]{2,31}$/u and its like, with another first letter
unfoldable pub is_id : ℕ → String → Bool
unfolding is_shape
is_id first s = is_shape (λ c. c == first) is_id_unit 2 31 (codes s)

-- /^[UW][A-Z0-9]{2,31}$/u
unfoldable pub is_user_id : String → Bool
unfolding is_shape
is_user_id s = is_shape (λ c. c == b'U' || c == b'W') is_id_unit 2 31 (codes s)

abbrev is_event_unit : ℕ → Bool
is_event_unit c = is_upper c || is_lower c || is_digit c

abbrev is_event_codes : List ℕ → Bool
is_event_codes (a ∷ b ∷ cs) =
    a == b'E' && b == b'v' && all_of is_event_unit cs && leb 2 (length cs) && leb (length cs) 63
is_event_codes _ = false

-- /^Ev[A-Za-z0-9]{2,63}$/u
unfoldable pub is_event_id : String → Bool
unfolding all_of
is_event_id s = is_event_codes (codes s)

abbrev is_ts_codes : List ℕ → Bool
is_ts_codes cs =
    length cs == 17
    && all_of is_digit (take 10 cs)
    && all_of (λ c. c == b'.') (take 1 (drop 10 cs))
    && all_of is_digit (drop 11 cs)

-- /^\d{10}\.\d{6}$/u
unfoldable pub is_slack_ts : String → Bool
unfolding all_of
is_slack_ts s = is_ts_codes (codes s)

pub data Extraction : Type 0 where
  ignore : Extraction
  mismatch : String → Extraction
  invalid : String → Option String → Extraction
  capture : Metadata → Extraction

-- The subtype that counts: none for a value that is ignored.
abbrev pub subtype_of : Value → Option (Option String)
subtype_of undefined = some none
subtype_of null = some none
subtype_of (str t) = if is_captured_subtype t then some (some t) else none
subtype_of _ = none

abbrev pub thread_from : String → String → Option (Option String)
thread_from ts raw =
    if not (is_slack_ts raw) || text_lt ts raw
    then none
    else some (if str_eq raw ts then none else some raw)

-- The thread, none for an invalid value. A parent's own thread is no thread.
abbrev pub thread_of : String → Value → Option (Option String)
thread_of ts undefined = some none
thread_of ts null = some none
thread_of ts (str raw) = thread_from ts raw
thread_of ts _ = none

abbrev pub is_given : (String → Bool) → Option String → Bool
is_given p none = false
is_given p (some t) = p t

abbrev pub is_subtype : String → Option String → Bool
is_subtype s subtype = is_given (λ t. str_eq t s) subtype

abbrev pub bot_user : Option String → Value → Option (Option String)
bot_user subtype bot =
    if is_subtype "bot_message" subtype && is_given (is_id b'B') (text_of bot)
    then some none
    else none

-- The sender, none for an invalid one. Only a bot's message may be without a user.
abbrev pub user_of : Option String → Value → Value → Option (Option String)
user_of subtype undefined bot = bot_user subtype bot
user_of subtype null bot = bot_user subtype bot
user_of subtype (str user) bot = if is_user_id user then some (some user) else none
user_of subtype _ bot = none

abbrev pub or_empty : Option String → String
or_empty none = ""
or_empty (some t) = t

abbrev pub with_user : Metadata → Option String → Option (Option String) → Extraction
with_user m id none = invalid "user" id
with_user m id (some user) = capture (record m { user_id = user })

abbrev pub with_thread : Metadata → Option String → Fields → Option (Option String) → Extraction
with_thread m id event none = invalid "thread_ts" id
with_thread m id event (some thread) =
    if is_subtype "thread_broadcast" m.subtype && not (is_some thread)
    then invalid "thread_broadcast_thread_ts" id
    else with_user (record m { thread_ts = thread }) id
        (user_of m.subtype (get_field "user" event) (get_field "bot_id" event))

abbrev pub opened :
    RelayIdentity → Option String → Option String → Option String → Option String → Metadata
opened i id channel ts subtype = record {
  team_id = i.team_id;
  app_id = i.app_id;
  event_id = or_empty id;
  channel_id = or_empty channel;
  ts = or_empty ts;
  thread_ts = none;
  user_id = none;
  subtype = subtype;
}

abbrev pub with_ids : RelayIdentity → Option String → Option String → Fields → Extraction
with_ids i id subtype event =
    let channel = text_of (get_field "channel" event) in
    let ts = text_of (get_field "ts" event) in
    if not (is_given is_event_id id)
    then invalid "event_id" id
    else if not (is_given (is_id b'C') channel)
    then invalid "channel" id
    else if not (is_given is_slack_ts ts)
    then invalid "ts" id
    else with_thread (opened i id channel ts subtype) id event
        (thread_of (or_empty ts) (get_field "thread_ts" event))

abbrev pub check_identity : RelayIdentity → Fields → Fields → Option (Option String) → Extraction
check_identity i envelope event none = ignore
check_identity i envelope event (some subtype) =
    let id = text_of (get_field "event_id" envelope) in
    let team = get_field "team_id" envelope in
    let app = get_field "api_app_id" envelope in
    if not (is_text team i.team_id)
    then (if is_some (text_of team) then mismatch "team" else invalid "team" id)
    else if not (is_text app i.app_id)
    then (if is_some (text_of app) then mismatch "app" else invalid "app" id)
    else with_ids i id subtype event

abbrev pub in_event : RelayIdentity → Fields → Value → Extraction
in_event i envelope (obj event) =
    if is_text (get_field "type" event) "message"
      && is_text (get_field "channel_type" event) "channel"
    then check_identity i envelope event (subtype_of (get_field "subtype" event))
    else ignore
in_event i envelope _ = ignore

-- `extractRelayMessage`
unfoldable pub extract : RelayIdentity → Value → Extraction
unfolding get_field is_captured_subtype is_id is_user_id is_event_id is_slack_ts
extract i (obj envelope) =
    if is_text (get_field "type" envelope) "event_callback"
    then in_event i envelope (get_field "event" envelope)
    else ignore
extract i _ = ignore
