-- ===== src/Relay/Event/Reads.antt =====
-- shookie/src/slack/message-relay/event.ts: which fields of an event the extraction reads.
use shookie.Prelude.{String, Option, none, some, List, [], ◌∷◌, ◌≡◌, refl, arith}
use shookie.Prelude.Value.{obj, Fields, get_field, text_of}
use shookie.Relay.Outbox.{Metadata}
use shookie.Relay.Event.{
  RelayIdentity, subtype_of, thread_of, with_thread, with_ids, check_identity, extract, or_empty,
  opened,
}

-- Two records have the same value under each of the keys.
abbrev pub Agree : List String → Fields → Fields → Type 0
Agree [] a b = Unit
Agree (key ∷ keys) a b = (get_field key a ≡ get_field key b) × Agree keys a b

abbrev pub envelope_keys : List String
envelope_keys = "type" ∷ "event_id" ∷ "team_id" ∷ "api_app_id" ∷ []

abbrev pub event_keys : List String
event_keys =
    "type" ∷ "channel_type" ∷ "subtype" ∷ "channel" ∷ "ts" ∷ "thread_ts" ∷ "user" ∷ "bot_id" ∷ []

with_thread-Agree :
    (m : Metadata) (id : Option String) (event event' : Fields) (o : Option (Option String))
    → Agree event_keys event event'
    → with_thread m id event o ≡ with_thread m id event' o
with_thread-Agree m id event event' none k = refl
with_thread-Agree m id event event' (some thread) k = rw (k.1.1.1.1.1.1.0, k.1.1.1.1.1.1.1.0) refl

with_ids-Agree :
    (i : RelayIdentity) (id subtype : Option String) (event event' : Fields)
    → Agree event_keys event event'
    → with_ids i id subtype event ≡ with_ids i id subtype event'
with_ids-Agree i id subtype event event' k =
    rw (k.1.1.1.0, k.1.1.1.1.0, k.1.1.1.1.1.0)
      (ground (
        arith,
        with_thread-Agree
            (opened i id (text_of (get_field "channel" event')) (text_of (get_field "ts" event'))
              subtype)
            id event event'
            (thread_of (or_empty (text_of (get_field "ts" event'))) (get_field "thread_ts" event'))
            k,
      ))

check_identity-Agree :
    (i : RelayIdentity) (envelope envelope' event event' : Fields) (o : Option (Option String))
    → Agree envelope_keys envelope envelope'
    → Agree event_keys event event'
    → check_identity i envelope event o ≡ check_identity i envelope' event' o
check_identity-Agree i envelope envelope' event event' none h k = refl
check_identity-Agree i envelope envelope' event event' (some subtype) h k =
    rw (h.1.0, h.1.1.0, h.1.1.1.0)
      (ground
        (arith, with_ids-Agree i (text_of (get_field "event_id" envelope')) subtype event event' k))

-- The extraction reads nothing of a message but its type, channel, times, sender and subtype: two
-- envelopes that agree on these, and on their own type and ids, give the same, whatever else, such as
-- the text, the files and the blocks, they hold.
pub extract-Agree :
    (i : RelayIdentity) (envelope envelope' event event' : Fields)
    → Agree envelope_keys envelope envelope'
    → Agree event_keys event event'
    → get_field "event" envelope ≡ obj event
    → get_field "event" envelope' ≡ obj event'
    → extract i (obj envelope) ≡ extract i (obj envelope')
unfolding extract
extract-Agree i envelope envelope' event event' h k e e' =
    rw (e, e', h.0, k.0, k.1.0, k.1.1.0)
      (ground (
        arith,
        check_identity-Agree i envelope envelope' event event'
            (subtype_of (get_field "subtype" event')) h k,
      ))
