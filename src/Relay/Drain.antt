-- ===== src/Relay/Drain.antt =====
-- shookie/src/slack/message-relay/drain.ts: `RelayDrainer`. One delivery is a request, whose result is
-- an `Attempt`, and then one call of the store, which may throw. The clock `now()`, `Math.random()`
-- as the fraction `num / den`, and the platform's `trim` and `Date.parse` are arguments.
pub mod Waits
pub mod Delivery
pub mod Schedule
use Prim.Native.Char.{code}
use Prim.Native.String
use shookie.Prelude.{
  ℕ, zero, suc, ◌+◌, ◌-◌, ◌*◌, ◌/◌, ◌^◌, min, String, Bool, true, false, Option, none, some, List,
  [], ◌∷◌, ltb, leb, ◌==◌, ◌&&◌, ◌||◌, if◌then◌else◌, length, is_some, not,
}
use shookie.Relay.Outbox.{Row, Table}
use shookie.Relay.Outbox.Outcomes.{
  Detail, Undelivered, as_failed, as_parked, mark_delivered, defer, finish,
}
use shookie.Relay.Outbox.Upkeep.{retry_after_excessive}

pub record Config : Type 0 where
  pub batch_size : ℕ
  pub concurrency : ℕ
  pub request_timeout_ms : ℕ
  pub idle_poll_ms : ℕ
  pub error_poll_ms : ℕ
  pub maintenance_every_ms : ℕ
  pub lease_ms : ℕ
  pub base_backoff_ms : ℕ
  pub max_backoff_ms : ℕ
  pub max_attempts : ℕ
  pub max_retry_after_ms : ℕ

pub record Halted : Type 0 where
  pub status_code : ℕ
  pub since : ℕ

-- The fields that the drainer changes; `last_maintenance` is `none` for -Infinity.
pub record Drainer : Type 0 where
  pub stopping : Bool
  pub hard_stopped : Bool
  pub halted : Option Halted
  pub last_maintenance : Option ℕ

-- What `fetch` gave: a response's status and its Retry-After header, or an exception's name and
-- whether the request had been aborted.
pub data Attempt : Type 0 where
  response : ℕ → Option String → Attempt
  thrown : String → Bool → Attempt

-- The call of the store with which a delivery ends.
pub data Call : Type 0 where
  delivered_call : ℕ → Call
  defer_call : ℕ → Detail → Bool → Call
  finish_call : Undelivered → Detail → Call

-- `codes` is the text as its code points.
abbrev pub codes : String → List ℕ
codes String.[] = []
codes (String.◌∷◌ c s) = code c ∷ codes s

unfoldable pub all_digits : List ℕ → Bool
all_digits [] = true
all_digits (c ∷ cs) = leb b'0' c && leb c b'9' && all_digits cs

unfoldable pub digits_value : ℕ → List ℕ → ℕ
digits_value acc [] = acc
digits_value acc (c ∷ cs) = digits_value (acc * 10 + (c - b'0')) cs

-- /^\d{1,9}$/u
unfoldable pub is_delta_seconds : List ℕ → Bool
unfolding all_digits
is_delta_seconds cs = all_digits cs && leb 1 (length cs) && leb (length cs) 9

abbrev pub until_date : ℕ → Option ℕ → Option ℕ
until_date now none = none
until_date now (some date) = some (date - now)

abbrev pub retry_after_default_ms : ℕ
retry_after_default_ms = 60000

abbrev pub or_default : Option ℕ → ℕ
or_default none = retry_after_default_ms
or_default (some ms) = ms

-- Math.round(ceiling / 2 + random * (ceiling / 2)) in exact arithmetic; the source's doubles are
-- exact at these sizes but for the last place of the random number.
unfoldable pub backoff : Config → ℕ → ℕ → ℕ → ℕ
backoff c attempts num den =
    let ceiling = min c.max_backoff_ms (c.base_backoff_ms * 2 ^ (attempts - 1)) in
    (ceiling * (den + num) + den) / (2 * den)

unfoldable pub retry_or_fail : Config → ℕ → ℕ → Row → Detail → Call
unfolding backoff
retry_or_fail c num den row d =
    if leb c.max_attempts row.attempts
    then finish_call as_failed d
    else defer_call (backoff c row.attempts num den) d true

abbrev detail : ℕ → String → Detail
detail status error = record { status_code = some status; error = some error }

abbrev unsent : String → Detail
unsent error = record { status_code = none; error = some error }

-- `release`: the row goes back at once, with its attempt refunded.
unfoldable pub release_call : Drainer → Call
release_call s = defer_call 0 (unsent (if s.stopping then "shutdown" else "halted")) false

unfoldable pub is_success : ℕ → Bool
is_success status = leb 200 status && ltb status 300

-- 401, 403, 404, 405 and the redirects
unfoldable pub is_config_error : ℕ → Bool
is_config_error status =
    status == 401
    || status == 403
    || status == 404
    || status == 405
    || leb 300 status && ltb status 400

-- 408, 425 and the server errors
unfoldable pub is_retryable : ℕ → Bool
is_retryable status = status == 408 || status == 425 || leb 500 status

-- A configuration error halts the drainer, once the store has recorded it.
unfoldable pub halt_on : ℕ → Attempt → Drainer → Drainer
unfolding is_config_error
halt_on now (thrown name aborted) s = s
halt_on now (response status header) s =
    if is_config_error status && not (is_some s.halted)
    then record s { halted = some (record { status_code = status; since = now }) }
    else s

unfoldable pub run_call : ℕ → ℕ → String → Call → Table → Table × Bool
run_call db_now id token (delivered_call status) = mark_delivered db_now id token (some status)
run_call db_now id token (defer_call delay_ms d count) = defer db_now id token delay_ms d count
run_call db_now id token (finish_call s d) = finish db_now id token s d

abbrev with_token : ℕ → ℕ → Call → Table → Option String → Table × Bool
with_token db_now id call t none = (t, false)
with_token db_now id call t (some token) = run_call db_now id token call t

-- The store behind `guard`: after a hard stop no call reaches the database. A claimed row has a token.
unfoldable pub store_call : Drainer → ℕ → Row → Call → Table → Table × Bool
unfolding run_call
store_call s db_now row call t =
    if s.hard_stopped then (t, false) else with_token db_now row.id call t row.claim_token

-- A call of the store returns, or throws: then its transaction was rolled back, or it committed and
-- the answer was lost.
pub data StoreEffect : Type 0 where
  returned rolled_back unacknowledged : StoreEffect

module _ (trim : String → String) (parse_date : String → Option ℕ) (show_status : ℕ → String) where
  http_error : ℕ → String
  http_error status = String.◌++◌ "http_" (show_status status)

  -- `parseRetryAfter`. A date before the epoch is long past, as 0 is.
  unfoldable pub parse_retry_after : Option String → ℕ → Option ℕ
  unfolding is_delta_seconds digits_value
  parse_retry_after none now = none
  parse_retry_after (some header) now =
      if is_delta_seconds (codes (trim header))
      then some (digits_value 0 (codes (trim header)) * 1000)
      else until_date now (parse_date (trim header))

  unfoldable pub rate_limited : Config → ℕ → ℕ → Call
  rate_limited c status requested =
      if ltb c.max_retry_after_ms requested
      then finish_call as_parked (detail status retry_after_excessive)
      else defer_call requested (detail status "rate_limited") false

  -- The call with which `deliver` ends, for a response.
  unfoldable pub response_call : Config → ℕ → ℕ → ℕ → Row → ℕ → Option String → Call
  unfolding parse_retry_after rate_limited is_success is_config_error is_retryable retry_or_fail
      http_error
  response_call c now num den row status header =
      if is_success status
      then delivered_call status
      else if status == 429
      then rate_limited c status (or_default (parse_retry_after header now))
      else if is_config_error status
      then finish_call as_parked (detail status "config")
      else if is_retryable status
      then retry_or_fail c num den row (detail status (http_error status))
      else finish_call as_failed (detail status (http_error status))

  unfoldable pub attempt_call : Config → Drainer → ℕ → ℕ → ℕ → Row → Attempt → Call
  unfolding response_call release_call retry_or_fail
  attempt_call c s now num den row (response status header) =
      response_call c now num den row status header
  attempt_call c s now num den row (thrown name aborted) =
      if s.stopping
      then release_call s
      else retry_or_fail c num den row
          (unsent (if aborted then "timeout" else String.◌++◌ "network:" name))

  -- `deliver`, at the database's time `db_now`: the call of the store and what it left behind.
  unfoldable pub deliver :
      Config → Drainer → ℕ → ℕ → ℕ → ℕ → Row → Attempt → StoreEffect → Table → Drainer × Table
  unfolding attempt_call store_call halt_on
  deliver c s now db_now num den row attempt effect t =
      let t' = (store_call s db_now row (attempt_call c s now num den row attempt) t).0 in
      elim effect [
        | returned ↦ (halt_on now attempt s, t')
        | rolled_back ↦ (s, t)
        | unacknowledged ↦ (s, t')
      ]
