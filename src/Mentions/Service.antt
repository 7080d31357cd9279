-- ===== src/Mentions/Service.antt =====
-- shookie/src/slack/mention-groups/service.ts: `MentionGroupReplacementService`. The answers of Radar,
-- of the token service and of Slack may depend on how many calls came before; the calls that reach the
-- author's message or its author are logged, the newest first. The replacement plan that parser.ts
-- makes for the catalog comes with Radar's answer.
pub mod Effects
pub mod Retry
pub mod Notices
use shookie.Prelude.{
  ℕ, suc, String, Bool, true, false, Option, none, some, List, [], ◌∷◌, ltb, not, ◌&&◌, ◌||◌,
  str_eq, is_some, if◌then◌else◌, length,
}
use shookie.Mentions.Deduper.{Deduper, claim_event}

abbrev pub max_update_length : ℕ
max_update_length = 4000

-- `TERMINAL_AUTH_ERRORS`
unfoldable pub is_terminal_auth : String → Bool
is_terminal_auth code =
    str_eq code "account_inactive"
    || str_eq code "invalid_auth"
    || str_eq code "missing_scope"
    || str_eq code "not_authed"
    || str_eq code "team_access_not_granted"
    || str_eq code "token_expired"
    || str_eq code "token_revoked"

-- `PERMISSION_ERRORS`
unfoldable pub is_permission : String → Bool
is_permission code =
    str_eq code "access_denied"
    || str_eq code "cant_update_message"
    || str_eq code "channel_not_found"
    || str_eq code "edit_window_closed"
    || str_eq code "ekm_access_denied"
    || str_eq code "enterprise_is_restricted"
    || str_eq code "is_inactive"
    || str_eq code "message_not_found"
    || str_eq code "no_permission"
    || str_eq code "posting_to_channel_denied"

pub data ProcessResult : Type 0 where
  updated noop authorization_required failed : ProcessResult

-- `MentionReplacementPlan`; `size` is the length of its text in UTF-16 units.
pub record Plan : Type 0 where
  pub text : String
  pub size : ℕ
  pub changed : Bool
  pub unknown_handles : List String
  pub empty_group_handles : List String

-- What a call that may fail answers: `needs_oauth` is `SlackUserOAuthRequiredError`.
pub data Answer (A : Type 0) : Type 0 where
  answered : A → Answer A
  needs_oauth : Answer A
  failing : Answer A

-- How a call that updates the message ends: it returns, or it throws, with an error code if there is one.
-- A call that throws was refused, or the message was updated and the answer was lost.
pub data Update : Type 0 where
  took_place : Update
  refused : Option String → Update
  lost : Option String → Update

pub record World : Type 0 where
  pub plan : ℕ → Option Plan
  pub access_token : ℕ → Answer String
  pub authorization_url : ℕ → Answer (Option String)
  pub invalidate : ℕ → String → Answer Bool
  pub update : ℕ → String → String → Update

pub data Notice : Type 0 where
  generic_failure permission_failure unresolved_groups : Notice
  authorize : String → Notice

pub data Call : Type 0 where
  posted : Notice → Call
  tried_update : String → String → Update → Call
  invalidated : String → Call

pub record State : Type 0 where
  pub step : ℕ
  pub calls : List Call

abbrev pub log_call : Call → State → State
log_call c s = record { step = suc s.step; calls = c ∷ s.calls }

-- A question whose answer alone matters.
abbrev pub ask : State → State
ask s = record s { step = suc s.step }

-- `notify`: an error of Slack's is only logged.
abbrev pub notify : Notice → State → State
notify notice s = log_call (posted notice) s

abbrev pub update_notice : Option String → Notice
update_notice none = generic_failure
update_notice (some code) = if is_permission code then permission_failure else generic_failure

abbrev pub prompt_with : Answer (Option String) → State → State × Bool
prompt_with (answered (some url)) s =
    if str_eq url "" then (s, false) else (notify (authorize url) s, true)
prompt_with (answered none) s = (s, false)
prompt_with _ s = (notify generic_failure s, false)

-- `promptAuthorization`
unfoldable pub prompt_authorization : World → State → State × Bool
prompt_authorization w s = prompt_with (w.authorization_url s.step) (ask s)

abbrev pub fail_with : Notice → State → State × ProcessResult
fail_with notice s = (notify notice s, failed)

abbrev pub require_oauth : World → State → State × ProcessResult
require_oauth w s = ((prompt_authorization w s).0, authorization_required)

-- The `catch` of the retry: a missing authorization is asked for, another error is reported.
abbrev pub after_invalidation : World → Answer Bool → State → State × ProcessResult
after_invalidation w failing s = fail_with generic_failure s
after_invalidation w _ s = require_oauth w s

abbrev pub is_terminal_code : Option String → Bool
is_terminal_code none = false
is_terminal_code (some code) = is_terminal_auth code

-- `updateWithToken`, and what follows it in the retry.
abbrev pub end_retry : World → String → Option String → State → State × ProcessResult
end_retry w token code s =
    if is_terminal_code code
    then after_invalidation w (w.invalidate s.step token) (log_call (invalidated token) s)
    else fail_with (update_notice code) s

abbrev pub after_retry : World → String → Update → State → State × ProcessResult
after_retry w token took_place s = (s, updated)
after_retry w token (refused code) s = end_retry w token code s
after_retry w token (lost code) s = end_retry w token code s

abbrev pub retry_update : World → String → String → Answer String → State → State × ProcessResult
retry_update w text failed_token (answered token) s =
    if str_eq token failed_token
    then fail_with generic_failure s
    else (let answer = w.update s.step token text in
        after_retry w token answer (log_call (tried_update token text answer) s))
retry_update w text failed_token needs_oauth s = require_oauth w s
retry_update w text failed_token failing s = fail_with generic_failure s

abbrev pub after_prompt : World → String → String → State × Bool → State × ProcessResult
after_prompt w text failed_token (s, true) = (s, authorization_required)
after_prompt w text failed_token (s, false) =
    retry_update w text failed_token (w.access_token s.step) (ask s)

-- `recoverTerminalAuthenticationFailure`; whether the invalidation throws does not matter.
unfoldable pub recover_authentication : World → String → String → State → State × ProcessResult
unfolding prompt_authorization is_terminal_auth
recover_authentication w text failed_token s =
    after_prompt w text failed_token
      (prompt_authorization w (log_call (invalidated failed_token) s))

abbrev pub end_update : World → String → String → Option String → State → State × ProcessResult
end_update w text token code s =
    if is_terminal_code code
    then recover_authentication w text token s
    else fail_with (update_notice code) s

abbrev pub after_update : World → String → String → Update → State → State × ProcessResult
after_update w text token took_place s = (s, updated)
after_update w text token (refused code) s = end_update w text token code s
after_update w text token (lost code) s = end_update w text token code s

abbrev pub update_first : World → String → Answer String → State → State × ProcessResult
update_first w text (answered token) s =
    let answer = w.update s.step token text in
    after_update w text token answer (log_call (tried_update token text answer) s)
update_first w text needs_oauth s = require_oauth w s
update_first w text failing s = fail_with generic_failure s

abbrev pub is_unresolved : Plan → Bool
is_unresolved p = ltb 0 (length p.unknown_handles) || ltb 0 (length p.empty_group_handles)

abbrev pub follow_plan : World → Plan → State → State × ProcessResult
follow_plan w p s =
    if not p.changed
    then (s, noop)
    else if ltb max_update_length p.size
    then fail_with generic_failure s
    else update_first w p.text (w.access_token s.step) (ask s)

abbrev pub with_plan : World → Option Plan → State → State × ProcessResult
with_plan w none s = fail_with generic_failure s
with_plan w (some p) s = follow_plan w p (if is_unresolved p then notify unresolved_groups s else s)

-- `process`
unfoldable pub process : World → State → State × ProcessResult
unfolding recover_authentication prompt_authorization
process w s = with_plan w (w.plan s.step) (ask s)

-- `handleEvent`: an event without handles is left alone, and one that the guard knows as well.
unfoldable pub handle_event :
    World → ℕ → ℕ → String → String → Deduper → State → Deduper × State × Option ProcessResult
unfolding process claim_event
handle_event w now occurrences event_id message_key d s =
    if not (ltb 0 occurrences)
    then (d, s, none)
    else (let (d', fresh) = claim_event now event_id message_key d in
        if fresh then (let (s', r) = process w s in (d', s', some r)) else (d', s, none))
