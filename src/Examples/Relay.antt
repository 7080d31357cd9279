-- ===== src/Examples/Relay.antt =====
-- One message in the outbox, claimed by a worker at time 100 with a lease of 50.
use shookie.Prelude.{◌≡◌, refl, true, none, some, [], ◌∷◌, arith}
use shookie.Relay.Outbox.{
  Metadata, Row, Table, pending, delivering, parked, claim, has_id, has_event,
}
use shookie.Relay.Outbox.Outcomes.{mark_delivered, delivered_row}
use shookie.Relay.Outbox.Upkeep.{retry_after_excessive}
use shookie.Relay.Outbox.Invariant.{IsConsistent}
use shookie.Relay.Outbox.Find.{find_row}
use shookie.Relay.Outbox.Steps.{here, next, claims, delivers, Reach-IsConsistent}
use shookie.Relay.Outbox.Lease
use shookie.Relay.Outbox.Lease.{IsLeased, Others, lease_exclusive, claim-IsLeased}
use shookie.Relay.Outbox.Lifecycle.{Fate, Step-Fate}

abbrev pub news : Metadata
news = record {
  team_id = "T1";
  app_id = "A1";
  event_id = "Ev1";
  channel_id = "C1";
  ts = "1.0";
  thread_ts = none;
  user_id = some "U1";
  subtype = none;
}

abbrev pub waiting : Row
waiting = record {
  id = 1;
  metadata = news;
  status = pending;
  attempts = 0;
  next_attempt_at = 90;
  claim_token = none;
  lease_until = none;
  last_status_code = none;
  last_error = none;
  created_at = 90;
  updated_at = 90;
  delivered_at = none;
}

abbrev pub taken : Row
taken = record waiting {
  status = delivering;
  attempts = 1;
  claim_token = some "a";
  lease_until = some 150;
  updated_at = 100;
}

abbrev pub waiting_table : Table
waiting_table = record { rows = waiting ∷ []; next_id = 2 }

abbrev pub taken_table : Table
taken_table = record { rows = taken ∷ []; next_id = 2 }

claims_it : claim 100 20 50 "a" waiting_table ≡ (taken_table, taken ∷ [])
unfolding claim
claims_it = refl

waits_for_lease : claim 149 20 50 "b" taken_table ≡ (taken_table, [])
unfolding claim
waits_for_lease = refl

pub waiting-IsConsistent : IsConsistent waiting_table
unfolding has_id has_event
waiting-IsConsistent = ground arith

pub taken-IsConsistent : IsConsistent taken_table
unfolding has_id has_event
taken-IsConsistent = ground arith

Reach-IsConsistent_example :
    IsConsistent (mark_delivered 120 1 "a" (some 200) (claim 100 20 50 "a" waiting_table).0).0
Reach-IsConsistent_example =
    Reach-IsConsistent (next (next here (claims 100 20 50 "a")) (delivers 120 1 "a" (some 200)))
      waiting-IsConsistent

lease_exclusive_example :
    (find_row 1 (claim 149 20 50 "b" taken_table).0.rows ≡ some taken)
    × ((mark_delivered 149 1 "a" (some 200) (claim 149 20 50 "b" taken_table).0).1 ≡ true)
    × (find_row 1 (mark_delivered 149 1 "a" (some 200) (claim 149 20 50 "b" taken_table).0).0.rows
        ≡ some (delivered_row 149 (some 200) taken))
unfolding find_row
lease_exclusive_example =
    lease_exclusive "a" 150 1 149 taken (some 200) taken-IsConsistent refl
      (record { delivering_now = refl; held = refl; until = refl })
      (Others.next Others.here (Lease.claims 149 20 50 "b" (omega arith)))

Step-Fate_example : Fate 1 taken (mark_delivered 120 1 "a" (some 200) taken_table).0
unfolding find_row
Step-Fate_example = Step-Fate 1 taken (delivers 120 1 "a" (some 200)) taken-IsConsistent refl

abbrev aside : Row
aside = record waiting { status = parked; last_error = some retry_after_excessive }

abbrev aside_table : Table
aside_table = record { rows = aside ∷ []; next_id = 2 }

aside-IsConsistent : IsConsistent aside_table
unfolding has_id has_event
aside-IsConsistent = ground arith
