-- ===== src/Relay/Capture/Acks.antt =====
-- shookie/src/slack/message-relay/capture.ts: an event with metadata is handed on, and so acknowledged,
-- only when it has been stored in the outbox.
use shookie.Prelude.{String, true, ◌≡◌, All}
use shookie.Prelude.Value.{Value}
use shookie.Relay.Outbox.{Table}
use shookie.Relay.Event.{RelayIdentity, capture}
use shookie.Relay.Capture.{Capture, has_key}
use shookie.Relay.Capture.Runs.{Relay, WasStored, MayBeHanded}

record Kept (i : RelayIdentity) (t : Table) (s : Relay) : Type 0 where
  committed : (key : String) → has_key key s.capture.committed ≡ true → WasStored i t key s
  handed : All (MayBeHanded i t s) s.handed
