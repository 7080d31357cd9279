-- ===== src/Relay/Drain/Delivery.antt =====
-- What a delivery does to its row of the outbox.
use shookie.Prelude.{
  ℕ, suc, ◌+◌, ◌-◌, ◌*◌, ◌/◌, ◌^◌, min, ◌≤◌, ◌<◌, ◌≡◌, refl, sym, ◌≢◌, ◌↔◌, ◌⊎◌, inl, inr, String,
  true, false, Option, none, some, arith, leb, Bool-cases, if◌then◌else◌, subst,
}
use Prim.Native.String
use native.Mathlib.Nat.{div-lt_iff_lt-mul, lt-mul-div-succ}
use native.Mathlib.Decide.{dec_le}
use shookie.Relay.Outbox.{Row, Table, pending, delivering, failed, is_due}
use shookie.Relay.Outbox.Outcomes.{
  Detail, as_failed, as_parked, holds, delivered_row, deferred_row, finished_row,
}
use shookie.Relay.Outbox.Invariant.{IsConsistent}
use shookie.Relay.Outbox.Find.{find_row}
use shookie.Relay.Outbox.Fence.{held_outcome}
use shookie.Relay.Outbox.Lifecycle.{IsExcessive}
use shookie.Relay.Drain.Waits.{Asks, parse_retry_after-Asks}
use shookie.Relay.Drain.{
  Config, Drainer, Attempt, response, thrown, Call, delivered_call, defer_call, finish_call,
  StoreEffect, returned, rolled_back, unacknowledged, parse_retry_after, or_default, retry_or_fail,
  attempt_call, run_call, store_call, deliver, detail, unsent, http_error,
}

-- What the store's call makes of the row.
abbrev pub settled : ℕ → Call → Row → Row
settled db_now (delivered_call status) r = delivered_row db_now (some status) r
settled db_now (defer_call delay_ms d count) r = deferred_row db_now delay_ms d count r
settled db_now (finish_call s d) r = finished_row db_now s d r

settled_released :
    (db_now : ℕ) (call : Call) (r : Row)
    → ((settled db_now call r).status ≢ delivering)
      × ((settled db_now call r).claim_token ≡ none)
      × ((settled db_now call r).lease_until ≡ none)
settled_released db_now (delivered_call status) r = (λ e. cc, refl, refl)
settled_released db_now (defer_call delay_ms d count) r = (λ e. cc, refl, refl)
settled_released db_now (finish_call as_failed d) r = (λ e. cc, refl, refl)
settled_released db_now (finish_call as_parked d) r = (λ e. cc, refl, refl)

run_call_lem :
    (db_now id : ℕ) (token : String) (call : Call) (t : Table) (r : Row)
    → IsConsistent t
    → find_row id t.rows ≡ some r
    → holds id token r ≡ true
    → (find_row id (run_call db_now id token call t).0.rows ≡ some (settled db_now call r))
      × ((run_call db_now id token call t).1 ≡ true)
unfolding run_call
run_call_lem db_now id token (delivered_call status) t r v e h =
    let (done, shown) = (held_outcome db_now id token t r v e h).0 (some status) in (shown, done)
run_call_lem db_now id token (defer_call delay_ms d count) t r v e h =
    let (done, shown) = (held_outcome db_now id token t r v e h).1 delay_ms d count in (shown, done)
run_call_lem db_now id token (finish_call s d) t r v e h =
    let (done, shown) = (held_outcome db_now id token t r v e h).2 s d in (shown, done)

jitter-le : (ceiling num den : ℕ) → num < den → (ceiling * (den + num) + den) / (2 * den) ≤ ceiling
jitter-le ceiling num den h = omega (
  arith,
  (div-lt_iff_lt-mul {k = 2 * den} {x = ceiling * (den + num) + den} {y = suc ceiling}
        (omega arith)).1
      below,
)
  where
    grown : ceiling * num ≤ ceiling * den
    grown = grind arith

    below : ceiling * (den + num) + den < suc ceiling * (2 * den)
    below = omega (arith, grown)

scaled : (a b k : ℕ) → a ≤ b → a * k ≤ b * k
scaled a b k h = grind arith

jitter_half :
    (ceiling num den : ℕ) → num < den → ceiling ≤ 2 * ((ceiling * (den + num) + den) / (2 * den))
jitter_half ceiling num den h =
    half ((ceiling * (den + num) + den) / (2 * den))
      (lt-mul-div-succ (ceiling * (den + num) + den) {b = 2 * den} (omega arith))
  where
    half : (q : ℕ) → ceiling * (den + num) + den < 2 * den * (q + 1) → ceiling ≤ 2 * q
    half q l = elim (dec_le ceiling (2 * q)) [
      | yes y ↦ y
      | no n ↦ absurd (omega (arith, l, scaled (2 * q + 1) ceiling den (omega arith)))
    ]

-- What a retry makes of the row: it waits for the jittered ceiling, or has used up its attempts.
abbrev pub IsRetried : Config → ℕ → Row → Row → Row → Type 0
IsRetried c db_now row r after =
    let ceiling = min c.max_backoff_ms (c.base_backoff_ms * 2 ^ (row.attempts - 1)) in
    (c.max_attempts ≤ row.attempts → after.status ≡ failed)
    × (row.attempts < c.max_attempts
        → (after.status ≡ pending)
          × (after.attempts ≡ r.attempts)
          × (2 * db_now + ceiling ≤ 2 * after.next_attempt_at)
          × (after.next_attempt_at ≤ db_now + ceiling))

retry_or_fail_lem :
    (c : Config) (db_now num den : ℕ) (row r : Row) (d : Detail)
    → num < den
    → IsRetried c db_now row r (settled db_now (retry_or_fail c num den row d) r)
unfolding retry_or_fail
retry_or_fail_lem c db_now num den row r d h = elim (Bool-cases (leb c.max_attempts row.attempts)) [
  | inl e ↦ rw e (λ l. refl, λ l. absurd (ground arith))
  | inr e ↦ rw e (
    λ l. absurd (ground arith),
    λ l. (
      refl,
      refl,
      omega (arith, jitter_half ceiling num den h),
      omega (arith, jitter-le ceiling num den h),
    ),
  )
]
  where
    ceiling : ℕ
    ceiling = min c.max_backoff_ms (c.base_backoff_ms * 2 ^ (row.attempts - 1))

-- A result of `fetch` that is worth another try.
abbrev pub IsTransient : Drainer → Attempt → Type 0
IsTransient s (response status header) = (status ≡ 408) ⊎ (status ≡ 425) ⊎ (500 ≤ status)
IsTransient s (thrown name aborted) = s.stopping ≡ false

module _ (trim : String → String) (parse_date : String → Option ℕ) (show_status : ℕ → String) where
  -- A row is reported delivered exactly if Radar answered with a status from 200 to 299.
  pub delivered_iff :
      (c : Config) (s : Drainer) (now num den : ℕ) (row : Row) (attempt : Attempt) (status : ℕ)
      → (attempt_call trim parse_date show_status c s now num den row attempt
          ≡ delivered_call status)
        ↔ ((header : Option String) × (attempt ≡ response status header)
            × (200 ≤ status)
            × (status < 300))
  unfolding attempt_call
  delivered_iff c s now num den row (response code header) status =
      (λ h. (header, ground arith, ground arith, ground arith), λ h. ground arith)
  delivered_iff c s now num den row (thrown name aborted) status =
      (λ h. absurd (ground arith), λ h. ground arith)

  deliver_table :
      (c : Config) (s : Drainer) (now db_now num den : ℕ) (row : Row) (attempt : Attempt)
      (effect : StoreEffect) (t : Table)
      → effect ≢ rolled_back
      → (deliver trim parse_date show_status c s now db_now num den row attempt effect t).1
        ≡ (store_call s db_now row
            (attempt_call trim parse_date show_status c s now num den row attempt)
            t).0
  unfolding deliver
  deliver_table c s now db_now num den row attempt returned t x = refl
  deliver_table c s now db_now num den row attempt rolled_back t x = absurd (x refl)
  deliver_table c s now db_now num den row attempt unacknowledged t x = refl

  -- After a delivery whose store call took effect the row shows that call's outcome, whether or not
  -- the store's answer arrived; it is no longer being delivered, and its lease is released.
  pub deliver-settled :
      (c : Config) (s : Drainer) (now db_now num den : ℕ) (row r : Row) (token : String)
      (attempt : Attempt) (effect : StoreEffect) (t : Table)
      → IsConsistent t
      → find_row row.id t.rows ≡ some r
      → row.claim_token ≡ some token
      → holds row.id token r ≡ true
      → s.hard_stopped ≡ false
      → effect ≢ rolled_back
      → let call = attempt_call trim parse_date show_status c s now num den row attempt in
        let t' =
          (deliver trim parse_date show_status c s now db_now num den row attempt effect t).1 in
        (find_row row.id t'.rows ≡ some (settled db_now call r))
        × ((settled db_now call r).status ≢ delivering)
        × ((settled db_now call r).claim_token ≡ none)
        × ((settled db_now call r).lease_until ≡ none)
  unfolding store_call
  deliver-settled c s now db_now num den row r token attempt effect t v e k h g x =
      let call = attempt_call trim parse_date show_status c s now num den row attempt in
      let (shown, _) = run_call_lem db_now row.id token call t r v e h in
      let (status, token_gone, lease_gone) = settled_released db_now call r in
      (
        ground (arith, deliver_table c s now db_now num den row attempt effect t x),
        status,
        token_gone,
        lease_gone,
      )

  -- A 429 is never retried earlier than Radar asked: its Retry-After tells the seconds or a date, and
  -- without either it is a minute. Up to the allowed maximum the row is put back with its attempt
  -- refunded, and is not due before that time has passed; beyond the maximum it is parked, with the
  -- error retry_after_excessive.
  pub rate_limit_respected :
      (c : Config) (s : Drainer) (now db_now num den later : ℕ) (row r : Row)
      (header : Option String)
      → let after =
          settled db_now
            (attempt_call trim parse_date show_status c s now num den row (response 429 header))
            r in
        (wait : ℕ) × Asks trim parse_date show_status header now wait
        × (wait ≤ c.max_retry_after_ms
            → (later < db_now + wait → is_due later after ≡ false)
              × (after.status ≡ pending)
              × (after.attempts ≡ r.attempts - 1))
        × (c.max_retry_after_ms < wait → IsExcessive after)
  unfolding attempt_call is_due
  rate_limit_respected c s now db_now num den later row r header = (
    or_default (parse_retry_after trim parse_date show_status header now),
    parse_retry_after-Asks trim parse_date show_status header now,
    λ h. (λ l. ground arith, ground arith, ground arith),
    λ h. ground arith,
  )

  transient_call :
      (c : Config) (s : Drainer) (now num den : ℕ) (row : Row) (attempt : Attempt)
      → IsTransient s attempt
      → (d : Detail) × (attempt_call trim parse_date show_status c s now num den row attempt
          ≡ retry_or_fail c num den row d)
  unfolding attempt_call
  transient_call c s now num den row (response status header) x =
      (detail status (http_error trim parse_date show_status status), ground arith)
  transient_call c s now num den row (thrown name aborted) x =
      (unsent (if aborted then "timeout" else String.◌++◌ "network:" name), rw x refl)

  -- A timeout, a network error, a 408, a 425 or a server error is retried while attempts are left,
  -- after a delay between half the exponential ceiling and the ceiling; when the attempts are used
  -- up the row is kept as failed.
  pub retry_bounds :
      (c : Config) (s : Drainer) (now db_now num den : ℕ) (row r : Row) (attempt : Attempt)
      → num < den
      → IsTransient s attempt
      → IsRetried c db_now row r
          (settled db_now (attempt_call trim parse_date show_status c s now num den row attempt) r)
  retry_bounds c s now db_now num den row r attempt h x =
      let (d, e) = transient_call c s now num den row attempt x in
      subst (λ call. IsRetried c db_now row r (settled db_now call r)) (sym e)
        (retry_or_fail_lem c db_now num den row r d h)
