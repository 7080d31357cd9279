-- ===== src/Examples/Mentions.antt =====
-- A guard against repeated events with room for six keys, and a message whose mentions are replaced.
use shookie.Prelude.{
  ◌+◌, true, false, none, some, [], ◌∷◌, ◌≡◌, refl, arith, ltb, str_eq, if◌then◌else◌, map, String,
  List,
}
use shookie.Prelude.Maps.{lookup}
use shookie.Mentions.Deduper.{Deduper, remove_expired, claim_event}
use shookie.Mentions.Deduper.Once.{Delivery, claim_all, claim_once}
use shookie.Prelude.Maps.{one}
use shookie.Mentions.Service.{
  World, State, answered, took_place, refused, updated, failed, process, recover_authentication,
  prompt_authorization, is_terminal_auth,
}
use shookie.Mentions.Finder.{
  Patterns, is_letter, find_occurrences, candidates, match_length, backtick_spans, delimited_spans,
  spans, index_at,
}
use shookie.Mentions.Finder.Total.{find-create_plan}
use shookie.Mentions.Parser.{Units, Occurrence, Group, match_all, replace_from, create_plan}
use shookie.Mentions.Parser.Kept.{stretches, original}
use shookie.Mentions.Service.Effects.{confirmed, is_updated, confirmed-process}
use shookie.Mentions.Service.Retry.{TriedAtMostTwice, tokens, tokens-process}
use shookie.Mentions.Service.Notices.{told_last, process_failed}

abbrev six_keys : Deduper
six_keys = record { seen = []; ttl_ms = 1000; max_keys = 6 }

abbrev elsewhere : Delivery
elsewhere = record { at = 500; event_id = "Ev2"; message_key = "T1:C1:2.0" }

first_claim : (claim_event 100 "Ev1" "T1:C1:1.0" six_keys).1 ≡ true
unfolding claim_event remove_expired lookup
first_claim = refl

claim_once_example :
    ((claim_event 900 "Ev1" "T1:C1:9.0"
        (claim_all (elsewhere ∷ []) (claim_event 100 "Ev1" "T1:C1:1.0" six_keys).0)).1
      ≡ false)
    × ((claim_event 900 "T1:C1:9.0" "T1:C1:1.0"
          (claim_all (elsewhere ∷ []) (claim_event 100 "Ev1" "T1:C1:1.0" six_keys).0)).1
        ≡ false)
claim_once_example =
    claim_once 100 900 "Ev1" "T1:C1:1.0" "T1:C1:9.0" (elsewhere ∷ []) six_keys (omega arith)
      (omega arith, tt) (omega arith) first_claim

-- A world in which the first token has been revoked and another one is stored by then.
abbrev rotating_world : World
rotating_world = record {
  plan = λ n. some (record {
    text = "`@dev`(<@U2>)";
    size = 14;
    changed = true;
    unknown_handles = [];
    empty_group_handles = [];
  });
  access_token = λ n. answered (if ltb n 3 then "old" else "new");
  authorization_url = λ n. answered none;
  invalidate = λ n token. answered false;
  update =
      λ n token text. if str_eq token "old" then refused (some "token_revoked") else took_place;
}

-- A world in which Radar does not answer.
abbrev silent_world : World
silent_world = record rotating_world { plan = λ n. none }

abbrev start_state : State
start_state = record { step = 0; calls = [] }

retried : (process rotating_world start_state).1 ≡ updated
unfolding process recover_authentication prompt_authorization is_terminal_auth
retried = refl

silent_fails : (process silent_world start_state).1 ≡ failed
unfolding process
silent_fails = refl

confirmed-process_example :
    confirmed (process rotating_world start_state).0.calls
    ≡ confirmed start_state.calls + one (is_updated (process rotating_world start_state).1)
confirmed-process_example = confirmed-process rotating_world start_state

tokens-process_example :
    TriedAtMostTwice
      (tokens start_state.calls)
      (tokens (process rotating_world start_state).0.calls)
tokens-process_example = tokens-process rotating_world start_state

process_failed_example : told_last (process silent_world start_state).0.calls ≡ true
process_failed_example = process_failed silent_world start_state silent_fails

-- One unit for each text, and a message of nine units with a handle at 4.
abbrev one_unit : String → Units
one_unit t = 64 ∷ []

abbrev message : Units
message = 72 ∷ 105 ∷ 44 ∷ 32 ∷ 64 ∷ 100 ∷ 101 ∷ 118 ∷ 33 ∷ []

abbrev dev_handle : Occurrence
dev_handle = record { handle = "dev"; raw = 64 ∷ 100 ∷ 101 ∷ 118 ∷ []; start = 4; end = 8 }

abbrev dev_index : List (String × Group)
dev_index =
    ("dev", record { id = "g-1"; handle = "dev"; aliases = []; member_user_ids = "U2" ∷ "U3" ∷ [] })
    ∷ []

replaced :
    (create_plan one_unit message dev_index (dev_handle ∷ [])).text
    ≡ 72 ∷ 105 ∷ 44 ∷ 32 ∷ 64 ∷ 33 ∷ []
unfolding create_plan match_all replace_from lookup
replaced = refl

-- Letters join a handle, no pattern matches anything, and lower case is not looked at.
abbrev patterns : Patterns
patterns = record { is_word = is_letter; to_lower_case = (λ cs. "dev"); matches = (λ cs. []) }

finds_dev : find_occurrences patterns message ≡ some (dev_handle ∷ [])
unfolding find_occurrences candidates match_length backtick_spans delimited_spans spans index_at
finds_dev = refl

find-create_plan_example :
    (os : List Occurrence) × (find_occurrences patterns message ≡ some os)
    × ((create_plan one_unit message dev_index os).text
        ≡ replace_from 0 (stretches one_unit dev_index os) message)
    × (replace_from 0 (map (original message) (stretches one_unit dev_index os)) message ≡ message)
find-create_plan_example = find-create_plan patterns one_unit message dev_index
