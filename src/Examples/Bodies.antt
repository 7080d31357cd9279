-- ===== src/Examples/Bodies.antt =====
-- A run whose callback commits and then throws, on an empty database.
use shookie.Prelude.{
  if◌then◌else◌, ◌==◌, true, false, none, some, [], ◌∷◌, ◌≡◌, ◌≤◌, ◌⊎◌, ◌↔◌, refl, is_some,
}
use shookie.Prelude.Maps.{lookup, insert}
use shookie.Cancellation.Control.{new, checkpoint, begin_commit, end_commit, finish}
use shookie.Conversation.Memory.{default_store, budget_messages, get, set_messages}
use shookie.Conversation.Repository.{
  Event, Turn, Database, completed, claim, complete, recent, has_turn,
}
use shookie.Conversation.Repository.Turns.{
  Matched, Later, here, next, completes, turns_of, is_completed, claim-Later,
}
use shookie.Conversation.Body.{
  World, State, acknowledged, fires, commits, throws, resolved, run_body,
}
use shookie.Conversation.Body.Durable.{run_body-Stored}

abbrev asked : Event
asked = record {
  request_id = "R1";
  session_id = "C1:1.0";
  channel = "C1";
  thread_ts = "1.0";
  user_id = "U1";
  team_id = none;
  event_id = none;
}

abbrev no_rows : Database
no_rows = record { events = []; turns = [] }

no_rows-Matched : Matched no_rows
unfolding lookup
no_rows-Matched id = refl

abbrev spoken : Turn
spoken = record { user_content = "hi"; assistant_content = "hello" }

abbrev answered : Database
answered = record {
  events =
      ("R1", record { event = asked; status = completed; created_at = 5; completed_at = some 9 })
      ∷ [];
  turns = record { request_id = "R1"; session_id = "C1:1.0"; turn = spoken } ∷ [];
}

answered-Later : Later (claim 5 asked no_rows).0 answered
unfolding claim complete lookup insert
answered-Later = next here (completes 9 asked spoken refl)

claim-Later_example :
    ((claim 20 asked answered).1 ≡ false)
    × (turns_of "R1" answered.turns ≤ 1)
    × (turns_of "R1" answered.turns ≡ 1 ↔ is_completed (lookup "R1" answered.events) ≡ true)
claim-Later_example = claim-Later 5 20 asked no_rows answered no_rows-Matched answered-Later

-- The timer fires before the callback throws; every statement but the last is acknowledged.
abbrev troubled : World
troubled = record {
  now = (λ step. step);
  outside = (λ step. if step == 6 then fires ∷ [] else []);
  statement = (λ step. acknowledged);
  start_throws = false;
  authoritative = none;
  execute = (λ messages. commits "hello" (λ failed_commit. throws));
}

abbrev idle : State
idle = record { db = no_rows; cache = default_store; control = new 0; step = 0 }

troubled_resolves : (run_body troubled asked "hi" idle).1 ≡ resolved
unfolding run_body claim complete lookup insert new checkpoint begin_commit end_commit finish
    default_store get set_messages recent budget_messages
troubled_resolves = refl

run_body-Stored_example :
    (is_some (lookup "R1" no_rows.events) ≡ true)
    ⊎ (has_turn "R1" (run_body troubled asked "hi" idle).0.db.turns ≡ true)
unfolding new
run_body-Stored_example = run_body-Stored troubled asked "hi" idle refl troubled_resolves
