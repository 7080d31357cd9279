-- ===== src/Mentions/Event.antt =====
-- shookie/src/slack/mention-groups/event.ts: `extractMentionMessageEvent`, on any JSON values. `units` is
-- a text's length in UTF-16 units.
pub mod Formats
pub mod Posted
use Prim.Native.String.{◌++◌ as text_append}
use shookie.Prelude.{
  ℕ, String, Bool, true, false, not, Option, none, some, List, [], ◌∷◌, leb, ◌==◌, ◌&&◌, ◌||◌,
  str_eq, is_some, length, if◌then◌else◌,
}
use shookie.Prelude.Text.{codes, is_digit, is_id_unit, all_of}
use shookie.Prelude.Value.{
  Value, bool, obj, array, undefined, str, Fields, end, get_field, text_of, is_text, is_truthy,
}

pub record MessageEvent : Type 0 where
  pub event_id : String
  pub team_id : String
  pub user_id : String
  pub channel_id : String
  pub message_ts : String
  pub thread_ts : Option String
  pub text : String

-- One of the first units, then at least two of [A-Z0-9].
abbrev pub is_id_codes : (ℕ → Bool) → List ℕ → Bool
is_id_codes first [] = false
is_id_codes first (c ∷ cs) = first c && all_of is_id_unit cs && leb 2 (length cs)

unfoldable pub is_team_id : String → Bool
unfolding all_of
is_team_id id = is_id_codes (λ c. c == b'T') (codes id)

unfoldable pub is_channel_id : String → Bool
unfolding all_of
is_channel_id id = is_id_codes (λ c. c == b'C' || c == b'G') (codes id)

-- At most 20 units after the first.
unfoldable pub is_user_id : String → Bool
unfolding all_of
is_user_id id = is_id_codes (λ c. c == b'U' || c == b'W') (codes id) && leb (length (codes id)) 21

abbrev pub before_dot : List ℕ → List ℕ
before_dot [] = []
before_dot (c ∷ cs) = let rest = before_dot cs in if c == b'.' then [] else c ∷ rest

abbrev pub after_dot : List ℕ → List ℕ
after_dot [] = []
after_dot (c ∷ cs) = let rest = after_dot cs in if c == b'.' then cs else rest

abbrev pub is_digits : List ℕ → Bool
is_digits cs = all_of is_digit cs && leb 1 (length cs) && leb (length cs) 20

-- /^\d{1,20}\.\d{1,20}$/
unfoldable pub is_timestamp : String → Bool
unfolding all_of
is_timestamp ts = is_digits (before_dot (codes ts)) && is_digits (after_dot (codes ts))

-- `isRecord`: an array is one, without the keys that are read.
abbrev pub fields_of : Value → Option Fields
fields_of (obj fields) = some fields
fields_of (array items) = some end
fields_of _ = none

abbrev pub is_true : Value → Bool
is_true (bool b) = b
is_true _ = false

abbrev pub is_open_subtype : Value → Bool
is_open_subtype undefined = true
is_open_subtype (str t) = str_eq t "me_message"
is_open_subtype _ = false

-- A new message that a person wrote.
unfoldable pub is_human_message : Fields → Bool
unfolding get_field
is_human_message event =
    is_text (get_field "type" event) "message"
    && not (
        is_true (get_field "hidden" event)
        || is_truthy (get_field "bot_id" event)
        || is_truthy (get_field "app_id" event))
    && not (is_truthy (get_field "edited" event))
    && is_open_subtype (get_field "subtype" event)

abbrev pub has_format : (String → Bool) → Option String → Bool
has_format p none = false
has_format p (some t) = p t

-- A text that is missing or empty, or passes.
abbrev pub passes : (String → Bool) → Option String → Bool
passes p none = true
passes p (some t) = str_eq t "" || p t

abbrev pub or_given : Option String → Option String → Option String
or_given none other = other
or_given (some t) other = some t

abbrev pub or_empty : Option String → String
or_empty none = ""
or_empty (some t) = t

abbrev pub nonempty : Option String → Option String
nonempty none = none
nonempty (some t) = if str_eq t "" then none else some t

abbrev pub is_channel_type : String → Bool
is_channel_type t = str_eq t "channel" || str_eq t "group"

-- The texts of an event, as far as they are texts.
pub record Parts : Type 0 where
  pub supplied_id : Option String
  pub team : Option String
  pub user : Option String
  pub channel : Option String
  pub ts : Option String
  pub text : Option String
  pub user_team : Option String
  pub channel_type : Option String
  pub thread : Option String

unfoldable pub parts_of : Fields → Fields → Parts
unfolding get_field
parts_of body event = record {
  supplied_id = text_of (get_field "event_id" body);
  team = or_given (text_of (get_field "team" event)) (text_of (get_field "team_id" body));
  user = text_of (get_field "user" event);
  channel = text_of (get_field "channel" event);
  ts = text_of (get_field "ts" event);
  text = text_of (get_field "text" event);
  user_team = text_of (get_field "user_team" event);
  channel_type = text_of (get_field "channel_type" event);
  thread = text_of (get_field "thread_ts" event);
}

unfoldable pub is_accepted : Parts → Bool
is_accepted p =
    has_format is_team_id p.team
    && has_format is_channel_id p.channel
    && has_format is_user_id p.user
    && has_format is_timestamp p.ts
    && is_some p.text
    && passes is_channel_type p.channel_type
    && passes is_timestamp p.thread
    && passes (str_eq (or_empty p.team)) p.user_team

module _ (units : String → ℕ) where
  abbrev own_id : Parts → String
  own_id p =
      text_append (or_empty p.team)
        (text_append ":" (text_append (or_empty p.channel) (text_append ":" (or_empty p.ts))))

  abbrev pub id_of : Parts → Option String → String
  id_of p none = own_id p
  id_of p (some id) = if not (str_eq id "") && leb (units id) 255 then id else own_id p

  abbrev pub event_of : Parts → MessageEvent
  event_of p = record {
    event_id = id_of p p.supplied_id;
    team_id = or_empty p.team;
    user_id = or_empty p.user;
    channel_id = or_empty p.channel;
    message_ts = or_empty p.ts;
    thread_ts = nonempty p.thread;
    text = or_empty p.text;
  }

  abbrev pub extract_fields : Option Fields → Option Fields → Option MessageEvent
  extract_fields none event = none
  extract_fields (some body) none = none
  extract_fields (some body) (some event) =
      if is_human_message event && is_accepted (parts_of body event)
      then some (event_of (parts_of body event))
      else none

  -- `extractMentionMessageEvent`
  unfoldable pub extract_message : Value → Value → Option MessageEvent
  unfolding is_human_message is_accepted parts_of
  extract_message body event = extract_fields (fields_of body) (fields_of event)
