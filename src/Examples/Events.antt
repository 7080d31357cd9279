-- ===== src/Examples/Events.antt =====
-- A message of a public channel and its capture.
use shookie.Prelude.{String, true, none, some, [], ◌∷◌, ◌≡◌, refl}
use shookie.Prelude.Value.{str, obj, Fields, field, end, get_field}
use shookie.Relay.Outbox.{Metadata, Table, enqueue}
use shookie.Relay.Event.{RelayIdentity, extract, capture}
use shookie.Relay.Event.Format.{IsCaptured, extract-IsCaptured}
use shookie.Relay.Event.Reads.{extract-Agree}
use shookie.Relay.Capture.{begin_capture, end_capture, new_capture}
use shookie.Relay.Capture.Runs.{Relay}

abbrev identity : RelayIdentity
identity = record { app_id = "A12"; team_id = "T12" }

abbrev message_event : String → Fields
message_event words = field "type" (str "message") (
    field "channel_type" (str "channel") (
      field "channel" (str "C12") (
        field "ts" (str "1700000000.000100")
          (field "user" (str "U12") (field "text" (str words) end)))))

abbrev envelope_of : String → Fields
envelope_of words = field "type" (str "event_callback") (
    field "event_id" (str "Ev12") (
      field "team_id" (str "T12")
        (field "api_app_id" (str "A12") (field "event" (obj (message_event words)) end))))

abbrev captured : Metadata
captured = record {
  team_id = "T12";
  app_id = "A12";
  event_id = "Ev12";
  channel_id = "C12";
  ts = "1700000000.000100";
  thread_ts = none;
  user_id = some "U12";
  subtype = none;
}

extracts : extract identity (obj (envelope_of "hi")) ≡ capture captured
unfolding extract
extracts = refl

extract-IsCaptured_example : IsCaptured identity captured
extract-IsCaptured_example = extract-IsCaptured identity (obj (envelope_of "hi")) extracts

extract-Agree_example :
    extract identity (obj (envelope_of "hi")) ≡ extract identity (obj (envelope_of "bye"))
unfolding get_field
extract-Agree_example =
    extract-Agree identity (envelope_of "hi") (envelope_of "bye") (message_event "hi")
      (message_event "bye") (refl, (refl, (refl, (refl, tt))))
      (refl, (refl, (refl, (refl, (refl, (refl, (refl, (refl, tt)))))))) refl refl

abbrev empty_table : Table
empty_table = record { rows = []; next_id = 1 }

abbrev waiting_relay : Relay
waiting_relay = record {
  capture = (begin_capture identity 5 (obj (envelope_of "hi")) new_capture).0;
  table = empty_table;
  handed = [];
}

abbrev acked_relay : Relay
acked_relay = record {
  capture = (end_capture captured 0 true waiting_relay.capture).0;
  table = (enqueue 6 captured empty_table).0;
  handed = capture captured ∷ [];
}
