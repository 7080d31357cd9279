-- ===== src/Relay/Outbox.antt =====
-- database/src/slack-message-relay.ts: the operations on the table slack_message_relay_outbox, each
-- one transaction. A transaction that fails changes nothing and is the caller's business. `now` is
-- the database's `now()` in milliseconds, and the claim token is `randomUUID()`, an argument.
pub mod Outcomes
pub mod Upkeep
pub mod Invariant
pub mod Find
pub mod Steps
pub mod Follow
pub mod Fence
pub mod Lease
pub mod Lifecycle
pub mod Claims
use shookie.Prelude.{
  ℕ, zero, suc, ◌+◌, ◌-◌, max, String, Bool, true, false, Option, none, some, List, [], ◌∷◌, ◌++◌,
  map, ltb, leb, ◌==◌, ◌&&◌, ◌||◌, not, str_eq, if◌then◌else◌, length, take, select,
}

pub record Metadata : Type 0 where
  pub team_id : String
  pub app_id : String
  pub event_id : String
  pub channel_id : String
  pub ts : String
  pub thread_ts : Option String
  pub user_id : Option String
  pub subtype : Option String

pub data Status : Type 0 where
  pending delivering delivered failed parked : Status

pub record Row : Type 0 where
  pub id : ℕ
  pub metadata : Metadata
  pub status : Status
  pub attempts : ℕ
  pub next_attempt_at : ℕ
  pub claim_token : Option String
  pub lease_until : Option ℕ
  pub last_status_code : Option ℕ
  pub last_error : Option String
  pub created_at : ℕ
  pub updated_at : ℕ
  pub delivered_at : Option ℕ

-- `next_id` is the sequence of the `id` column, which is BIGSERIAL.
pub record Table : Type 0 where
  pub rows : List Row
  pub next_id : ℕ

abbrev pub is_pending : Status → Bool
is_pending pending = true
is_pending _ = false

abbrev pub is_delivering : Status → Bool
is_delivering delivering = true
is_delivering _ = false

abbrev pub is_parked : Status → Bool
is_parked parked = true
is_parked _ = false

abbrev pub same_event : Metadata → Row → Bool
same_event m r =
    str_eq m.team_id r.metadata.team_id
    && str_eq m.app_id r.metadata.app_id
    && str_eq m.event_id r.metadata.event_id

unfoldable pub has_event : Metadata → List Row → Bool
has_event m [] = false
has_event m (r ∷ rows) = same_event m r || has_event m rows

pub data EnqueueResult : Type 0 where
  inserted duplicate : EnqueueResult

-- The row that INSERT makes, with the defaults of the table's columns.
abbrev pub fresh_row : ℕ → ℕ → Metadata → Row
fresh_row now id m = record {
  id = id;
  metadata = m;
  status = pending;
  attempts = 0;
  next_attempt_at = now;
  claim_token = none;
  lease_until = none;
  last_status_code = none;
  last_error = none;
  created_at = now;
  updated_at = now;
  delivered_at = none;
}

-- The sequence gives a number also to an insertion that ON CONFLICT drops.
unfoldable pub enqueue : ℕ → Metadata → Table → Table × EnqueueResult
unfolding has_event
enqueue now m t =
    if has_event m t.rows then (record t { next_id = suc t.next_id }, duplicate) else (
      record { rows = t.rows ++ fresh_row now t.next_id m ∷ []; next_id = suc t.next_id },
      inserted,
    )

abbrev pub passed : ℕ → Option ℕ → Bool
passed now none = false
passed now (some t) = leb t now

-- The WHERE clause of the claim.
unfoldable pub is_due : ℕ → Row → Bool
is_due now r =
    is_pending r.status && leb r.next_attempt_at now
    || is_delivering r.status && passed now r.lease_until

-- ORDER BY next_attempt_at, id
abbrev pub before : Row → Row → Bool
before r s =
    ltb r.next_attempt_at s.next_attempt_at
    || r.next_attempt_at == s.next_attempt_at && leb r.id s.id

unfoldable pub insert_row : (Row → Row → Bool) → Row → List Row → List Row
insert_row le r [] = r ∷ []
insert_row le r (s ∷ rows) = if le r s then r ∷ s ∷ rows else s ∷ insert_row le r rows

unfoldable pub sort_rows : (Row → Row → Bool) → List Row → List Row
unfolding insert_row
sort_rows le [] = []
sort_rows le (r ∷ rows) = insert_row le r (sort_rows le rows)

unfoldable pub due_rows : ℕ → ℕ → List Row → List Row
unfolding is_due sort_rows
due_rows now limit rows = take limit (sort_rows before (select (is_due now) rows))

unfoldable pub has_id : ℕ → List Row → Bool
has_id i [] = false
has_id i (r ∷ rows) = r.id == i || has_id i rows

abbrev pub claimed_row : ℕ → ℕ → String → Row → Row
claimed_row now lease_ms token r = record r {
  status = delivering;
  attempts = r.attempts + 1;
  claim_token = some token;
  lease_until = some (now + lease_ms);
  updated_at = now;
}

unfoldable pub claim_row : ℕ → ℕ → String → List Row → Row → Row
unfolding has_id
claim_row now lease_ms token due r = if has_id r.id due then claimed_row now lease_ms token r else r

abbrev by_id : Row → Row → Bool
by_id r s = leb r.id s.id

-- `claimSlackMessageRelayBatch`: the rows due, up to the limit, are leased to the token. FOR UPDATE
-- SKIP LOCKED would pass over rows that another transaction holds; transactions run one at a time.
unfoldable pub claim : ℕ → ℕ → ℕ → String → Table → Table × List Row
unfolding due_rows claim_row has_id sort_rows
claim now limit lease_ms token t =
    let due = due_rows now limit t.rows in
    let rows = map (claim_row now lease_ms token due) t.rows in
    (record t { rows = rows }, sort_rows by_id (select (λ r. has_id r.id due) rows))
