-- ===== src/Examples/Posted.antt =====
-- A message of a person, with a handle in it.
use shookie.Prelude.{none, some, ◌≡◌, refl}
use shookie.Prelude.Text.{all_of}
use shookie.Prelude.Value.{str, obj, Fields, field, end, get_field}
use shookie.Mentions.Event.{
  MessageEvent, extract_message, is_human_message, is_accepted, parts_of, fields_of, is_team_id,
  is_channel_id, is_user_id, is_timestamp,
}
use shookie.Mentions.Event.Posted.{IsHuman, IsPosted, extract_message-IsPosted}

abbrev posted_fields : Fields
posted_fields = field "type" (str "message") (
    field "channel" (str "C01")
      (field "user" (str "U01") (field "ts" (str "1.5") (field "text" (str "@dev") end))))

abbrev envelope_fields : Fields
envelope_fields = field "team_id" (str "T01") end

abbrev posted_event : MessageEvent
posted_event = record {
  event_id = "T01:C01:1.5";
  team_id = "T01";
  user_id = "U01";
  channel_id = "C01";
  message_ts = "1.5";
  thread_ts = none;
  text = "@dev";
}

is_taken : extract_message (λ t. 8) (obj envelope_fields) (obj posted_fields) ≡ some posted_event
unfolding extract_message is_human_message is_accepted parts_of get_field is_team_id is_channel_id
    is_user_id is_timestamp all_of
is_taken = refl

extract_message-IsPosted_example :
    (b : Fields) × (fields_of (obj envelope_fields) ≡ some b)
    × ((f : Fields) × (fields_of (obj posted_fields) ≡ some f)
        × IsHuman f
        × IsPosted b f posted_event)
extract_message-IsPosted_example =
    extract_message-IsPosted (λ t. 8) (obj envelope_fields) (obj posted_fields) posted_event
      is_taken
