-- ===== src/Examples/Cancellation.antt =====
-- A question asked at time 1000 and cancelled by its requester.
use shookie.Prelude.{
  ◌≡◌, refl, ◌≢◌, ◌↔◌, true, false, none, some, [], ◌∷◌, arith, eq_iff, get_elem?,
}
use shookie.Prelude.Maps.{lookup}
use shookie.Cancellation.Control.{
  Control, committed, timed_out, done, failed, stopped_error, operation_error, new, cancel,
  checkpoint, begin_commit, end_commit, fire_timer,
}
use shookie.Cancellation.Control.Trace.{
  Run, Inv, Reach, here, next, fires, checks, begins, ends, start, start-Inv, Reach-Inv,
  cancel_never_committed, committed_final, commit_wins, Flight,
}
use shookie.Cancellation.Registry
use shookie.Cancellation.Registry.{
  CancellationOwner, TrustedCancellationAction, Entry, World, accepted, unavailable, ok, register,
  bind_message, cancel_request, remove,
}
use shookie.Cancellation.Registry.Requester.{IsRequester, cancel_request_iff}
use shookie.Cancellation.Registry.Upkeep.{registry-Inv, remove_lem, register-bind-cancel}

-- Half a second after the start the requester cancels; a later checkpoint and the timer come after.
abbrev stopped_run : Run
stopped_run = record { control = (cancel 1500 (new 1000)).0; in_flight = false }

abbrev late_run : Run
late_run = record {
  control = (checkpoint 1600 (fire_timer (cancel 1500 (new 1000)).0)).0;
  in_flight = false;
}

cancels_once : (cancel 1500 (new 1000)).1 ≡ true
unfolding cancel new
cancels_once = refl

cancels_twice : (cancel 1600 (cancel 1500 (new 1000)).0).1 ≡ false
unfolding cancel new
cancels_twice = refl

late_run-Reach : Reach stopped_run late_run
late_run-Reach =
    next (next here (fires stopped_run))
      (checks (record { control = fire_timer stopped_run.control; in_flight = false }) 1600)

cancel_never_committed_example : late_run.control.state ≢ committed
cancel_never_committed_example =
    cancel_never_committed {r = start 1000} {s = late_run} 1500 (start-Inv 1000) cancels_once
      late_run-Reach

abbrev committing_run : Run
committing_run = record { control = (begin_commit 2000 (new 1000)).0; in_flight = true }

abbrev committed_run : Run
committed_run = record { control = (end_commit done committing_run.control).0; in_flight = false }

committed_run-Reach : Reach (start 1000) committed_run
unfolding begin_commit new
committed_run-Reach = next (next here (begins (start 1000) 2000)) (ends committing_run done refl)

Reach-Inv_example : Inv committed_run
Reach-Inv_example = Reach-Inv committed_run-Reach (start-Inv 1000)

committed_final_example :
    ((fire_timer committed_run.control).state ≡ committed)
    × ((fire_timer committed_run.control).stopped ≡ committed_run.control.stopped)
unfolding begin_commit end_commit new
committed_final_example = committed_final (next here (fires committed_run)) Reach-Inv_example refl

-- The requester cancels while the turn is being stored, and then the timer fires.
abbrev late_control : Control
late_control = fire_timer (cancel 2500 (begin_commit 2000 (new 1000)).0).0

late_control-Flight : Flight (begin_commit 2000 (new 1000)).0 late_control
late_control-Flight = Flight.fires (Flight.cancels 2500 Flight.sets_off)

commit_wins_example :
    ((cancel 2600 late_control).1 ≡ false)
    × ((end_commit done late_control).0.state ≡ committed)
    × ((end_commit done late_control).1 ≡ done)
    × (late_control.stopped ≡ none
        → (end_commit (failed operation_error) late_control).1 ≡ failed operation_error)
    × (late_control.stopped ≢ none
        → (end_commit (failed operation_error) late_control).1 ≡ failed (stopped_error timed_out))
    × (late_control.timer ≡ true
        → (end_commit (failed operation_error) (fire_timer late_control)).1
          ≡ failed (stopped_error timed_out))
unfolding begin_commit new
commit_wins_example =
    commit_wins 2000 2600 (new 1000) late_control operation_error refl late_control-Flight

abbrev asker : CancellationOwner
asker = record {
  request_id = "Ev1";
  team_id = "T1";
  channel = "C1";
  thread_ts = "1.0";
  user_id = "U1";
}

abbrev press : TrustedCancellationAction
press = record {
  request_id = "Ev1";
  user_id = "U1";
  team_id = "T1";
  channel = "C1";
  message_ts = "2.0";
  thread_ts = some "1.0";
}

abbrev bound : Entry
bound = record { owner = asker; control = 0; message_ts = some "2.0" }

abbrev idle_world : World
idle_world = record { entries = []; controls = new 1000 ∷ [] }

abbrev registered_world : World
registered_world = record idle_world { entries = ("Ev1", record bound { message_ts = none }) ∷ [] }

abbrev bound_world : World
bound_world = record idle_world { entries = ("Ev1", bound) ∷ [] }

idle_world-Inv : Registry.Upkeep.Inv idle_world
unfolding lookup
idle_world-Inv = record { distinct = tt; keyed = λ k entry h. ground arith }

bound_world-Inv : Registry.Upkeep.Inv bound_world
unfolding lookup
bound_world-Inv = record {
  distinct = (refl, tt);
  keyed = λ k entry h. ground (arith, eq_iff "Ev1" k);
}

cancel_request_iff_example :
    (((cancel_request 1500 press bound_world).1 ≡ accepted)
      ↔ (IsRequester press bound × ((cancel 1500 (new 1000)).1 ≡ true)))
    × ((cancel_request 1500 press bound_world).1 ≡ accepted
        → get_elem? (cancel_request 1500 press bound_world).0.controls 0
          ≡ some (cancel 1500 (new 1000)).0)
    × (¬ IsRequester press bound
        → cancel_request 1500 press bound_world ≡ (bound_world, unavailable))
unfolding lookup
cancel_request_iff_example = cancel_request_iff 1500 press bound_world bound (new 1000) refl refl
