-- ===== src/Relay/Event/Format.antt =====
-- shookie/src/slack/message-relay/event.ts: what is known of captured metadata.
use shookie.Prelude.{
  String, Bool, true, false, Option, none, some, ◌≡◌, inl, inr, refl, subst, arith, ◌&&◌, not,
  str_eq, is_some, Bool-cases,
}
use shookie.Prelude.Text.{text_lt}
use shookie.Prelude.Value.{
  Value, undefined, null, bool, number, str, array, obj, Fields, get_field, text_of, is_text,
}
use shookie.Relay.Outbox.{Metadata}
use shookie.Relay.Event.{
  RelayIdentity, is_captured_subtype, is_id, is_user_id, is_event_id, is_slack_ts, Extraction,
  capture, subtype_of, thread_of, is_given, is_subtype, bot_user, user_of, or_empty, opened,
  with_user, with_thread, with_ids, check_identity, in_event, extract,
}

abbrev Each : (String → Bool) → Option String → Type 0
Each p none = Unit
Each p (some t) = p t ≡ true

-- The sender is a user, or a bot's message has none.
abbrev IsSender : Option String → Option String → Type 0
IsSender subtype none = is_subtype "bot_message" subtype ≡ true
IsSender subtype (some user) = is_user_id user ≡ true

-- A thread's parent is another message, and no later one.
abbrev IsThread : String → Option String → Type 0
IsThread ts none = Unit
IsThread ts (some t) = (is_slack_ts t ≡ true) × (text_lt ts t ≡ false) × (str_eq t ts ≡ false)

-- Every part has its format, and the message is of the workspace and the app.
pub record IsCaptured (i : RelayIdentity) (m : Metadata) : Type 0 where
  pub team : m.team_id ≡ i.team_id
  pub app : m.app_id ≡ i.app_id
  pub event : is_event_id m.event_id ≡ true
  pub channel : is_id b'C' m.channel_id ≡ true
  pub ts : is_slack_ts m.ts ≡ true
  pub thread : IsThread m.ts m.thread_ts
  pub broadcast : is_subtype "thread_broadcast" m.subtype ≡ true → is_some m.thread_ts ≡ true
  pub sender : IsSender m.subtype m.user_id
  pub subtype : Each is_captured_subtype m.subtype

abbrev Sound : RelayIdentity → Extraction → Type 0
Sound i (capture m) = IsCaptured i m
Sound i _ = Unit

bot_user-IsSender :
    (subtype : Option String) (bot : Value) (user : Option String)
    → bot_user subtype bot ≡ some user
    → IsSender subtype user
bot_user-IsSender subtype bot none h = ground (arith, h)
bot_user-IsSender subtype bot (some u) h = ground (arith, h)

user_of-IsSender :
    (subtype : Option String) (v bot : Value) (user : Option String)
    → user_of subtype v bot ≡ some user
    → IsSender subtype user
user_of-IsSender subtype undefined bot user h = bot_user-IsSender subtype bot user h
user_of-IsSender subtype null bot user h = bot_user-IsSender subtype bot user h
user_of-IsSender subtype (str t) bot none h = ground (arith, h)
user_of-IsSender subtype (str t) bot (some u) h = ground (arith, h)
user_of-IsSender subtype (bool b) bot user h = cc
user_of-IsSender subtype (number b) bot user h = cc
user_of-IsSender subtype (array b) bot user h = cc
user_of-IsSender subtype (obj b) bot user h = cc

thread_of-IsThread :
    (ts : String) (v : Value) (thread : Option String)
    → thread_of ts v ≡ some thread
    → IsThread ts thread
thread_of-IsThread ts v none h = tt
thread_of-IsThread ts undefined (some t) h = cc
thread_of-IsThread ts null (some t) h = cc
thread_of-IsThread ts (str raw) (some t) h =
    (ground (arith, h), ground (arith, h), ground (arith, h))
thread_of-IsThread ts (bool b) (some t) h = cc
thread_of-IsThread ts (number b) (some t) h = cc
thread_of-IsThread ts (array b) (some t) h = cc
thread_of-IsThread ts (obj b) (some t) h = cc

subtype_of-Each :
    (v : Value) (subtype : Option String)
    → subtype_of v ≡ some subtype
    → Each is_captured_subtype subtype
subtype_of-Each v none h = tt
subtype_of-Each undefined (some t) h = cc
subtype_of-Each null (some t) h = cc
subtype_of-Each (str raw) (some t) h = ground (arith, h)
subtype_of-Each (bool b) (some t) h = cc
subtype_of-Each (number b) (some t) h = cc
subtype_of-Each (array b) (some t) h = cc
subtype_of-Each (obj b) (some t) h = cc

given-or_empty :
    (p : String → Bool) (o : Option String) → not (is_given p o) ≡ false → p (or_empty o) ≡ true
given-or_empty p none h = cc
given-or_empty p (some t) h = ground (arith, h)

-- The metadata before its thread and its sender are known.
abbrev Opened : RelayIdentity → Metadata → Type 0
Opened i m =
    (m.team_id ≡ i.team_id)
    × (m.app_id ≡ i.app_id)
    × (is_event_id m.event_id ≡ true)
    × (is_id b'C' m.channel_id ≡ true)
    × (is_slack_ts m.ts ≡ true)
    × Each is_captured_subtype m.subtype

with_user-Sound :
    (i : RelayIdentity) (m : Metadata) (id : Option String) (o : Option (Option String))
    → Opened i m
    → IsThread m.ts m.thread_ts
    → (is_subtype "thread_broadcast" m.subtype ≡ true → is_some m.thread_ts ≡ true)
    → ((user : Option String) → o ≡ some user → IsSender m.subtype user)
    → Sound i (with_user m id o)
with_user-Sound i m id none p t b s = tt
with_user-Sound i m id (some user) p t b s = record {
  team = p.0;
  app = p.1;
  event = p.2;
  channel = p.3;
  ts = p.4;
  thread = t;
  broadcast = b;
  sender = s user refl;
  subtype = p.5;
}

with_thread-Sound :
    (i : RelayIdentity) (m : Metadata) (id : Option String) (event : Fields)
    (o : Option (Option String))
    → Opened i m
    → ((thread : Option String) → o ≡ some thread → IsThread m.ts thread)
    → Sound i (with_thread m id event o)
with_thread-Sound i m id event none p t = tt
with_thread-Sound i m id event (some thread) p t =
    elim (Bool-cases (is_subtype "thread_broadcast" m.subtype && not (is_some thread))) [
      | inl lacking ↦ rw lacking tt
      | inr fine ↦ rw fine (
          with_user-Sound i (record m { thread_ts = thread }) id
            (user_of m.subtype (get_field "user" event) (get_field "bot_id" event)) p
            (t thread refl) (λ b. ground (arith, b, fine))
            (user_of-IsSender m.subtype (get_field "user" event) (get_field "bot_id" event)))
    ]

with_ids-Sound :
    (i : RelayIdentity) (id subtype : Option String) (event : Fields)
    → Each is_captured_subtype subtype
    → Sound i (with_ids i id subtype event)
with_ids-Sound i id subtype event e = elim (Bool-cases (not (is_given is_event_id id))) [
  | inl bad ↦ rw bad tt
  | inr id_ok ↦
      rw id_ok
        (elim (Bool-cases (not (is_given (is_id b'C') (text_of (get_field "channel" event))))) [
          | inl bad ↦ rw bad tt
          | inr channel_ok ↦
              rw channel_ok
                (elim (Bool-cases (not (is_given is_slack_ts (text_of (get_field "ts" event))))) [
                  | inl bad ↦ rw bad tt
                  | inr ts_ok ↦ rw ts_ok (
                      with_thread-Sound i
                        (opened i id (text_of (get_field "channel" event))
                          (text_of (get_field "ts" event)) subtype)
                        id event
                        (thread_of (or_empty (text_of (get_field "ts" event)))
                          (get_field "thread_ts" event))
                        (
                          refl,
                          refl,
                          given-or_empty is_event_id id id_ok,
                          given-or_empty (is_id b'C') (text_of (get_field "channel" event))
                              channel_ok,
                          given-or_empty is_slack_ts (text_of (get_field "ts" event)) ts_ok,
                          e,
                        )
                        (thread_of-IsThread (or_empty (text_of (get_field "ts" event)))
                          (get_field "thread_ts" event)))
                ])
        ])
]

check_identity-Sound :
    (i : RelayIdentity) (envelope event : Fields) (o : Option (Option String))
    → ((subtype : Option String) → o ≡ some subtype → Each is_captured_subtype subtype)
    → Sound i (check_identity i envelope event o)
check_identity-Sound i envelope event none e = tt
check_identity-Sound i envelope event (some subtype) e = ground (
  arith,
  with_ids-Sound i (text_of (get_field "event_id" envelope)) subtype event (e subtype refl),
)

in_event-Sound :
    (i : RelayIdentity) (envelope : Fields) (v : Value) → Sound i (in_event i envelope v)
in_event-Sound i envelope (obj event) =
    elim (Bool-cases (
      is_text (get_field "type" event) "message"
      && is_text (get_field "channel_type" event) "channel")) [
        | inl message ↦ rw message (
            check_identity-Sound i envelope event (subtype_of (get_field "subtype" event))
              (subtype_of-Each (get_field "subtype" event)))
        | inr other ↦ rw other tt
      ]
in_event-Sound i envelope _ = tt

extract-Sound : (i : RelayIdentity) (body : Value) → Sound i (extract i body)
unfolding extract
extract-Sound i (obj envelope) =
    elim (Bool-cases (is_text (get_field "type" envelope) "event_callback")) [
      | inl callback ↦ rw callback (in_event-Sound i envelope (get_field "event" envelope))
      | inr other ↦ rw other tt
    ]
extract-Sound i _ = tt

-- Captured metadata is of the configured workspace and app, each of its parts has its format, its
-- thread is an earlier message and is there for a broadcast, and only a bot's message has no user.
pub extract-IsCaptured :
    (i : RelayIdentity) (body : Value) {m : Metadata} → extract i body ≡ capture m → IsCaptured i m
extract-IsCaptured i body h = subst (Sound i) h (extract-Sound i body)
