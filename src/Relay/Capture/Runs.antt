-- ===== src/Relay/Capture/Runs.antt =====
-- shookie/src/slack/message-relay/capture.ts: the relay's captures among all that happens to its outbox.
use shookie.Prelude.{ℕ, String, true, false, some, List, [], ◌∷◌, ◌≡◌, All, All-imp}
use shookie.Prelude.Value.{Value}
use shookie.Relay.Outbox.{Metadata, Table, enqueue, has_event}
use shookie.Relay.Outbox.Steps.{Step as Transaction}
use shookie.Relay.Event.{RelayIdentity, extract, Extraction, ignore, mismatch, invalid, capture}
use shookie.Relay.Capture.{
  Capture, new_capture, event_key, Begun, returned, begin_capture, find_ticket, end_capture,
  close_capture,
}

-- The relay with its outbox: `handed` are the events that `wrapProcessEvent` has passed on to the
-- listeners, each as what was extracted from it.
pub record Relay : Type 0 where
  pub capture : Capture
  pub table : Table
  pub handed : List Extraction

abbrev pub hand_on : Begun → Extraction → List Extraction → List Extraction
hand_on returned e handed = e ∷ handed
hand_on _ e handed = handed

-- An event arrives; the commit of a capture succeeds, or fails; captures are closed; or a transaction
-- of the table that is none of this process's captures takes place: a delivery, the retention, or a
-- write whose acknowledgement was lost.
pub data Step (i : RelayIdentity) (s : Relay) : Relay → Type 0 where
  arrives :
      (now : ℕ) (body : Value)
      → Step i s (record s {
        capture = (begin_capture i now body s.capture).0;
        handed = hand_on (begin_capture i now body s.capture).1 (extract i body) s.handed;
      })
  commits :
      (now ticket : ℕ) (m : Metadata)
      → find_ticket ticket s.capture.inflight ≡ some m
      → Step i s (record {
        capture = (end_capture m ticket true s.capture).0;
        table = (enqueue now m s.table).0;
        handed = hand_on (end_capture m ticket true s.capture).1 (capture m) s.handed;
      })
  fails :
      (ticket : ℕ) (m : Metadata)
      → find_ticket ticket s.capture.inflight ≡ some m
      → Step i s (record s {
        capture = (end_capture m ticket false s.capture).0;
        handed = hand_on (end_capture m ticket false s.capture).1 (capture m) s.handed;
      })
  closes : Step i s (record s { capture = close_capture s.capture })
  works : (t : Table) → Transaction s.table t → Step i s (record s { table = t })

pub data Steps (i : RelayIdentity) (s : Relay) : Relay → Type 0 where
  here : Steps i s s
  next : {s' s'' : Relay} → Steps i s s' → Step i s' s'' → Steps i s s''

-- The relay as the process starts it.
abbrev pub start : Table → Relay
start t = record { capture = new_capture; table = t; handed = [] }

-- At some moment since the start an event of this key stood in the outbox.
pub record WasStored (i : RelayIdentity) (t : Table) (key : String) (s : Relay) : Type 0 where
  pub moment : Relay
  pub event : Metadata
  pub since : Steps i (start t) moment
  pub later : Steps i moment s
  pub key_of : event_key event ≡ key
  pub stood : has_event event moment.table.rows ≡ true

-- What may be handed on: an event with metadata that was stored, or one without metadata, but none of
-- another workspace or app.
abbrev pub MayBeHanded : RelayIdentity → Table → Relay → Extraction → Type 0
MayBeHanded i t s ignore = Unit
MayBeHanded i t s (mismatch reason) = ⊥
MayBeHanded i t s (invalid reason id) = Unit
MayBeHanded i t s (capture m) = WasStored i t (event_key m) s

module _ (i : RelayIdentity) (t : Table) where
  pub WasStored-next :
      {s s' : Relay} (key : String) → Step i s s' → WasStored i t key s → WasStored i t key s'
  WasStored-next key st w = record {
    moment = w.moment;
    event = w.event;
    since = w.since;
    later = next w.later st;
    key_of = w.key_of;
    stood = w.stood;
  }

  MayBeHanded-next :
      {s s' : Relay} (e : Extraction) → Step i s s' → MayBeHanded i t s e → MayBeHanded i t s' e
  MayBeHanded-next ignore st h = h
  MayBeHanded-next (mismatch reason) st h = h
  MayBeHanded-next (invalid reason id) st h = h
  MayBeHanded-next (capture m) st h = WasStored-next (event_key m) st h

  pub handed-next :
      {s s' : Relay} (es : List Extraction)
      → Step i s s'
      → All (MayBeHanded i t s) es
      → All (MayBeHanded i t s') es
  handed-next {s} {s'} es st h =
      All-imp (MayBeHanded i t s) (MayBeHanded i t s') es (λ e. MayBeHanded-next e st) h
