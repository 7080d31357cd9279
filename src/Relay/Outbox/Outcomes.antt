-- ===== src/Relay/Outbox/Outcomes.antt =====
-- database/src/slack-message-relay.ts: the updates by which a claim holder ends its claim on a row.
use shookie.Prelude.{
  ℕ, ◌+◌, ◌-◌, String, Bool, false, Option, none, some, map, ◌==◌, ◌&&◌, str_eq, if◌then◌else◌,
  length, select,
}
use shookie.Relay.Outbox.{Status, pending, delivered, failed, parked, Row, Table, is_delivering}

abbrev pub token_is : Option String → String → Bool
token_is none token = false
token_is (some t) token = str_eq t token

-- WHERE id = $1 AND claim_token = $2 AND status = 'delivering'
unfoldable pub holds : ℕ → String → Row → Bool
holds id token r = r.id == id && token_is r.claim_token token && is_delivering r.status

-- An UPDATE of the rows that match, and whether it met exactly one (`rowCount === 1`).
unfoldable pub update_where : (Row → Bool) → (Row → Row) → Table → Table × Bool
update_where p f t =
    (record t { rows = map (λ r. if p r then f r else r) t.rows }, length (select p t.rows) == 1)

abbrev pub delivered_row : ℕ → Option ℕ → Row → Row
delivered_row now code r = record r {
  status = delivered;
  delivered_at = some now;
  claim_token = none;
  lease_until = none;
  last_status_code = code;
  last_error = none;
  updated_at = now;
}

-- `markSlackMessageRelayDelivered`
unfoldable pub mark_delivered : ℕ → ℕ → String → Option ℕ → Table → Table × Bool
unfolding holds update_where
mark_delivered now id token code = update_where (holds id token) (delivered_row now code)

-- What a failed delivery leaves in the row; `count_attempt = false` refunds the attempt.
pub record Detail : Type 0 where
  pub status_code : Option ℕ
  pub error : Option String

abbrev pub deferred_row : ℕ → ℕ → Detail → Bool → Row → Row
deferred_row now delay_ms d count_attempt r = record r {
  status = pending;
  claim_token = none;
  lease_until = none;
  attempts = if count_attempt then r.attempts else r.attempts - 1;
  next_attempt_at = now + delay_ms;
  last_status_code = d.status_code;
  last_error = d.error;
  updated_at = now;
}

-- `deferSlackMessageRelay`
unfoldable pub defer : ℕ → ℕ → String → ℕ → Detail → Bool → Table → Table × Bool
unfolding holds update_where
defer now id token delay_ms d count_attempt =
    update_where (holds id token) (deferred_row now delay_ms d count_attempt)

pub data Undelivered : Type 0 where
  as_failed as_parked : Undelivered

abbrev pub final_status : Undelivered → Status
final_status as_failed = failed
final_status as_parked = parked

abbrev pub finished_row : ℕ → Undelivered → Detail → Row → Row
finished_row now s d r = record r {
  status = final_status s;
  claim_token = none;
  lease_until = none;
  last_status_code = d.status_code;
  last_error = d.error;
  updated_at = now;
}

-- `finishSlackMessageRelayUndelivered`
unfoldable pub finish : ℕ → ℕ → String → Undelivered → Detail → Table → Table × Bool
unfolding holds update_where
finish now id token s d = update_where (holds id token) (finished_row now s d)
