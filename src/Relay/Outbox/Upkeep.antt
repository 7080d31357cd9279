-- ===== src/Relay/Outbox/Upkeep.antt =====
-- database/src/slack-message-relay.ts: recovery of parked rows, retention and the counts by status.
use shookie.Prelude.{
  ℕ, ◌+◌, max, String, Bool, true, false, none, some, map, ltb, ◌&&◌, not, if◌then◌else◌, length,
  select,
}
use shookie.Relay.Outbox.{
  Status, pending, delivering, delivered, failed, parked, Row, Table, is_pending, is_parked,
}
use shookie.Relay.Outbox.Outcomes.{token_is}

abbrev pub retry_after_excessive : String
retry_after_excessive = "retry_after_excessive"

unfoldable pub can_requeue : Row → Bool
can_requeue r = is_parked r.status && not (token_is r.last_error retry_after_excessive)

abbrev pub requeued_row : ℕ → Row → Row
requeued_row now r = record r {
  status = pending;
  attempts = 0;
  next_attempt_at = now;
  updated_at = now;
}

-- `requeueParkedSlackMessageRelays`, which returns the number of rows it met.
unfoldable pub requeue_parked : ℕ → Table → Table × ℕ
unfolding can_requeue
requeue_parked now t = (
  record t { rows = map (λ r. if can_requeue r then requeued_row now r else r) t.rows },
  length (select can_requeue t.rows),
)

pub record Retention : Type 0 where
  pub delivered_ms : ℕ
  pub failed_ms : ℕ
  pub max_pending_age_ms : ℕ

unfoldable pub is_expired : ℕ → Retention → Row → Bool
is_expired now k r =
    is_pending r.status && ltb (max r.created_at r.next_attempt_at + k.max_pending_age_ms) now

abbrev pub is_outdated_status : ℕ → Retention → ℕ → Status → Bool
is_outdated_status now k updated_at delivered = ltb (updated_at + k.delivered_ms) now
is_outdated_status now k updated_at failed = ltb (updated_at + k.failed_ms) now
is_outdated_status now k updated_at _ = false

unfoldable pub is_outdated : ℕ → Retention → Row → Bool
is_outdated now k r = is_outdated_status now k r.updated_at r.status

abbrev pub expired_row : ℕ → Row → Row
expired_row now r = record r {
  status = failed;
  claim_token = none;
  lease_until = none;
  last_error = some "expired";
  updated_at = now;
}

-- `pruneSlackMessageRelays`, two transactions at their own times. LIMIT takes some of the rows that
-- match, in no stated order: `chosen` and `chosen'` say by its id whether a row is among them.
unfoldable pub expire : ℕ → Retention → (ℕ → Bool) → Table → Table × ℕ
unfolding is_expired
expire now k chosen t =
    let p = λ (r : Row). is_expired now k r && chosen r.id in
    (
      record t { rows = map (λ r. if p r then expired_row now r else r) t.rows },
      length (select p t.rows),
    )

unfoldable pub delete_outdated : ℕ → Retention → (ℕ → Bool) → Table → Table × ℕ
unfolding is_outdated
delete_outdated now k chosen t =
    let p = λ (r : Row). is_outdated now k r && chosen r.id in
    (record t { rows = select (λ r. not (p r)) t.rows }, length (select p t.rows))

unfoldable pub prune : ℕ → ℕ → Retention → (ℕ → Bool) → (ℕ → Bool) → Table → Table × (ℕ × ℕ)
unfolding expire delete_outdated
prune now now' k chosen chosen' t =
    let (t', expired) = expire now k chosen t in
    let (t'', deleted) = delete_outdated now' k chosen' t' in (t'', (expired, deleted))

abbrev has_status : Status → Status → Bool
has_status pending pending = true
has_status delivering delivering = true
has_status delivered delivered = true
has_status failed failed = true
has_status parked parked = true
has_status _ _ = false

-- `getSlackMessageRelayStats`: the count of one status.
unfoldable pub stats : Table → Status → ℕ
stats t s = length (select (λ r. has_status s r.status) t.rows)
