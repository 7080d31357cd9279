-- ===== src/Examples/Drain.antt =====
-- Deliveries of the claimed message, under a platform that trims nothing and parses no date.
use shookie.Prelude.{ℕ, ◌+◌, ◌<◌, ◌≤◌, ◌≡◌, refl, false, Option, none, some, String}
use shookie.Relay.Outbox.{pending, is_due}
use shookie.Relay.Outbox.Lifecycle.{IsExcessive}
use shookie.Relay.Drain.{Config, Drainer, response, parse_retry_after, attempt_call, backoff}
use shookie.Relay.Drain.Waits.{Asks}
use shookie.Relay.Drain.Delivery.{settled, rate_limit_respected}
use shookie.Examples.Relay.{taken}

abbrev trim : String → String
trim s = s

abbrev no_date : String → Option ℕ
no_date s = none

abbrev show : ℕ → String
show n = "500"

-- The defaults of the constructor.
abbrev defaults : Config
defaults = record {
  batch_size = 20;
  concurrency = 3;
  request_timeout_ms = 5000;
  idle_poll_ms = 2000;
  error_poll_ms = 10000;
  maintenance_every_ms = 300000;
  lease_ms = 120000;
  base_backoff_ms = 5000;
  max_backoff_ms = 900000;
  max_attempts = 15;
  max_retry_after_ms = 604800000;
}

abbrev active : Drainer
active = record { stopping = false; hard_stopped = false; halted = none; last_maintenance = none }

reads_seconds : parse_retry_after trim no_date show (some "120") 7 ≡ some 120000
unfolding parse_retry_after
reads_seconds = refl

backs_off : backoff defaults 4 1 2 ≡ 30000
unfolding backoff
backs_off = refl

rate_limit_respected_example :
    let after =
      settled 121
        (attempt_call trim no_date show defaults active 120 1 2 taken (response 429 (some "120")))
        taken in
    (wait : ℕ) × Asks trim no_date show (some "120") 120 wait
    × (wait ≤ 604800000
        → (5000 < 121 + wait → is_due 5000 after ≡ false)
          × (after.status ≡ pending)
          × (after.attempts ≡ 0))
    × (604800000 < wait → IsExcessive after)
rate_limit_respected_example =
    rate_limit_respected trim no_date show defaults active 120 121 1 2 5000 taken taken (some "120")
