-- ===== src/Relay/Capture.antt =====
-- shookie/src/slack/message-relay/capture.ts: `createRelayCapture` and `wrapProcessEvent`. A capture is
-- split where it awaits the commit: `begin_capture` before and `end_capture` after it. The clock is an
-- argument; the logs are left out but for the times that limit them.
pub mod Runs
pub mod Acks
use Prim.Native.String.{◌++◌ as text_append}
use shookie.Prelude.{
  ℕ, suc, ◌+◌, ◌-◌, String, Bool, true, false, Option, none, some, List, [], ◌∷◌, ◌++◌, ltb, leb,
  ◌==◌, not, str_eq, if◌then◌else◌, length,
}
use shookie.Prelude.Value.{Value}
use shookie.Relay.Outbox.{Metadata}
use shookie.Relay.Event.{RelayIdentity, Extraction, ignore, mismatch, invalid, capture, extract}

abbrev pub dedupe_limit : ℕ
dedupe_limit = 20000

abbrev pub mismatch_log_interval_ms : ℕ
mismatch_log_interval_ms = 60000

-- `RelayIdentityMismatchError` with its reason, and the two messages of `RelayCaptureError`.
pub data CaptureError : Type 0 where
  identity_mismatch : String → CaptureError
  capture_closed : CaptureError
  persist_failed : CaptureError

-- `committed` is a Set in insertion order, and `inflight` the commits that are awaited, each with the
-- number of its capture. The times of the logs are none for -Infinity.
pub record Capture : Type 0 where
  pub committed : List String
  pub inflight : List (ℕ × Metadata)
  pub next_ticket : ℕ
  pub closed : Bool
  pub last_mismatch_log : Option ℕ
  pub mismatches : ℕ
  pub last_invalid_log : Option ℕ

unfoldable pub new_capture : Capture
new_capture = record {
  committed = [];
  inflight = [];
  next_ticket = 0;
  closed = false;
  last_mismatch_log = none;
  mismatches = 0;
  last_invalid_log = none;
}

unfoldable pub event_key : Metadata → String
event_key m =
    text_append m.team_id (text_append ":" (text_append m.app_id (text_append ":" m.event_id)))

abbrev pub has_key : String → List String → Bool
has_key key [] = false
has_key key (k ∷ ks) = if str_eq k key then true else has_key key ks

-- `now() - last >= MISMATCH_LOG_INTERVAL_MS`
abbrev pub next_log : ℕ → Option ℕ → Option ℕ
next_log now none = some now
next_log now (some last) = if leb (last + mismatch_log_interval_ms) now then some now else some last

-- How a capture goes on: it returns, so that the event is handed on; it throws; or it awaits a commit.
pub data Begun : Type 0 where
  returned : Begun
  threw : CaptureError → Begun
  awaiting : ℕ → Metadata → Begun

abbrev pub begin_with : ℕ → Extraction → Capture → Capture × Begun
begin_with now ignore c = (c, returned)
begin_with now (mismatch reason) c = (
  record c { mismatches = suc c.mismatches; last_mismatch_log = next_log now c.last_mismatch_log },
  threw (identity_mismatch reason),
)
begin_with now (invalid reason id) c =
    (record c { last_invalid_log = next_log now c.last_invalid_log }, returned)
begin_with now (capture m) c =
    if c.closed
    then (c, threw capture_closed)
    else if has_key (event_key m) c.committed
    then (c, returned)
    else (
      record c {
        inflight = c.inflight ++ (c.next_ticket, m) ∷ [];
        next_ticket = suc c.next_ticket;
      },
      awaiting c.next_ticket m,
    )

unfoldable pub begin_capture : RelayIdentity → ℕ → Value → Capture → Capture × Begun
begin_capture i now body c = begin_with now (extract i body) c

abbrev pub find_ticket : ℕ → List (ℕ × Metadata) → Option Metadata
find_ticket n [] = none
find_ticket n (e ∷ es) = if e.0 == n then some e.1 else find_ticket n es

unfoldable pub drop_ticket : ℕ → List (ℕ × Metadata) → List (ℕ × Metadata)
drop_ticket n [] = []
drop_ticket n (e ∷ es) = if e.0 == n then es else e ∷ drop_ticket n es

abbrev drop_oldest : List String → List String
drop_oldest [] = []
drop_oldest (k ∷ ks) = if str_eq k "" then k ∷ ks else ks

-- `committed.add(key)`, and the oldest key goes when there are too many.
unfoldable pub remember : String → List String → List String
remember key ks =
    let added = if has_key key ks then ks else ks ++ key ∷ [] in
    if ltb dedupe_limit (length added) then drop_oldest added else added

-- The commit of a capture has settled, with success or with an error.
unfoldable pub end_capture : Metadata → ℕ → Bool → Capture → Capture × Begun
unfolding drop_ticket remember
end_capture m ticket success c =
    let c' = record c { inflight = drop_ticket ticket c.inflight } in
    if success
    then (record c' { committed = remember (event_key m) c.committed }, returned)
    else (c', threw persist_failed)

-- `close`: it returns when nothing is awaited any more.
unfoldable pub close_capture : Capture → Capture
close_capture c = record c { closed = true }

abbrev pub is_quiet : Capture → Bool
is_quiet c = length c.inflight == 0
