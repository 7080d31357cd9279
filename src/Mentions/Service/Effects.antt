-- ===== src/Mentions/Service/Effects.antt =====
-- shookie/src/slack/mention-groups/service.ts: what `process` does to the message and tells its author.
use shookie.Prelude.{
  ℕ, suc, ◌+◌, String, Bool, true, false, Option, none, some, List, [], ◌∷◌, ◌≡◌, refl, inl, inr,
  arith, str_eq, Bool-cases,
}
use shookie.Prelude.Maps.{one}
use shookie.Mentions.Service.{
  ProcessResult, updated, Plan, Answer, answered, needs_oauth, failing, Update, took_place, refused,
  lost, World, Call, tried_update, invalidated, State, log_call, ask, notify, prompt_with,
  prompt_authorization, after_invalidation, end_retry, after_retry, retry_update, after_prompt,
  recover_authentication, end_update, after_update, update_first, follow_plan, with_plan, process,
  is_terminal_code, unresolved_groups,
}

-- How many updates Slack has confirmed.
abbrev pub confirmed : List Call → ℕ
confirmed [] = 0
confirmed (tried_update token text took_place ∷ calls) = suc (confirmed calls)
confirmed (_ ∷ calls) = confirmed calls

abbrev pub is_updated : ProcessResult → Bool
is_updated updated = true
is_updated _ = false

-- The confirmed updates are those from before, and one if the result is `updated`.
abbrev Accounted : ℕ → State × ProcessResult → Type 0
Accounted before r = confirmed r.0.calls ≡ before + one (is_updated r.1)

prompt_with-confirmed :
    (a : Answer (Option String)) (s : State)
    → confirmed (prompt_with a s).0.calls ≡ confirmed s.calls
prompt_with-confirmed (answered none) s = refl
prompt_with-confirmed (answered (some url)) s = ground arith
prompt_with-confirmed needs_oauth s = refl
prompt_with-confirmed failing s = refl

prompt-confirmed :
    (w : World) (s : State) → confirmed (prompt_authorization w s).0.calls ≡ confirmed s.calls
unfolding prompt_authorization
prompt-confirmed w s = prompt_with-confirmed (w.authorization_url s.step) (ask s)

after_invalidation-confirmed :
    (w : World) (a : Answer Bool) (s : State)
    → Accounted (confirmed s.calls) (after_invalidation w a s)
after_invalidation-confirmed w (answered b) s = ground (arith, prompt-confirmed w s)
after_invalidation-confirmed w needs_oauth s = ground (arith, prompt-confirmed w s)
after_invalidation-confirmed w failing s = omega arith

end_retry-confirmed :
    (w : World) (token : String) (code : Option String) (s : State)
    → Accounted (confirmed s.calls) (end_retry w token code s)
end_retry-confirmed w token code s = elim (Bool-cases (is_terminal_code code)) [
  | inr other ↦ rw other (omega arith)
  | inl terminal ↦
      rw terminal (
        after_invalidation-confirmed w (w.invalidate s.step token) (log_call (invalidated token) s))
]

after_retry-confirmed :
    (w : World) (token text : String) (a : Update) (s : State)
    → Accounted (confirmed s.calls) (after_retry w token a (log_call (tried_update token text a) s))
after_retry-confirmed w token text took_place s = omega arith
after_retry-confirmed w token text (refused code) s =
    end_retry-confirmed w token code (log_call (tried_update token text (refused code)) s)
after_retry-confirmed w token text (lost code) s =
    end_retry-confirmed w token code (log_call (tried_update token text (lost code)) s)

retry_update-confirmed :
    (w : World) (text failed_token : String) (a : Answer String) (s : State)
    → Accounted (confirmed s.calls) (retry_update w text failed_token a s)
retry_update-confirmed w text failed_token (answered token) s =
    elim (Bool-cases (str_eq token failed_token)) [
      | inl same ↦ rw same (omega arith)
      | inr other ↦ rw other (after_retry-confirmed w token text (w.update s.step token text) s)
    ]
retry_update-confirmed w text failed_token needs_oauth s = ground (arith, prompt-confirmed w s)
retry_update-confirmed w text failed_token failing s = omega arith

after_prompt-confirmed :
    (w : World) (text failed_token : String) (r : State × Bool)
    → Accounted (confirmed r.0.calls) (after_prompt w text failed_token r)
after_prompt-confirmed w text failed_token (s, true) = omega arith
after_prompt-confirmed w text failed_token (s, false) =
    retry_update-confirmed w text failed_token (w.access_token s.step) (ask s)

recover-confirmed :
    (w : World) (text failed_token : String) (s : State)
    → Accounted (confirmed s.calls) (recover_authentication w text failed_token s)
unfolding recover_authentication
recover-confirmed w text failed_token s = ground (
  arith,
  prompt-confirmed w (log_call (invalidated failed_token) s),
  after_prompt-confirmed w text failed_token
      (prompt_authorization w (log_call (invalidated failed_token) s)),
)

end_update-confirmed :
    (w : World) (text token : String) (code : Option String) (s : State)
    → Accounted (confirmed s.calls) (end_update w text token code s)
end_update-confirmed w text token code s = elim (Bool-cases (is_terminal_code code)) [
  | inr other ↦ rw other (omega arith)
  | inl terminal ↦ rw terminal (recover-confirmed w text token s)
]

after_update-confirmed :
    (w : World) (text token : String) (a : Update) (s : State)
    → Accounted
        (confirmed s.calls)
        (after_update w text token a (log_call (tried_update token text a) s))
after_update-confirmed w text token took_place s = omega arith
after_update-confirmed w text token (refused code) s =
    end_update-confirmed w text token code (log_call (tried_update token text (refused code)) s)
after_update-confirmed w text token (lost code) s =
    end_update-confirmed w text token code (log_call (tried_update token text (lost code)) s)

update_first-confirmed :
    (w : World) (text : String) (a : Answer String) (s : State)
    → Accounted (confirmed s.calls) (update_first w text a s)
update_first-confirmed w text (answered token) s =
    after_update-confirmed w text token (w.update s.step token text) s
update_first-confirmed w text needs_oauth s = ground (arith, prompt-confirmed w s)
update_first-confirmed w text failing s = omega arith

follow_plan-confirmed :
    (w : World) (p : Plan) (s : State) → Accounted (confirmed s.calls) (follow_plan w p s)
follow_plan-confirmed w p s =
    ground (arith, update_first-confirmed w p.text (w.access_token s.step) (ask s))

with_plan-confirmed :
    (w : World) (o : Option Plan) (s : State) → Accounted (confirmed s.calls) (with_plan w o s)
with_plan-confirmed w none s = omega arith
with_plan-confirmed w (some p) s =
    ground
      (arith, follow_plan-confirmed w p s, follow_plan-confirmed w p (notify unresolved_groups s))

-- Slack confirms an update of the author's message exactly once if the result is `updated`, and never
-- with any other result, whatever Radar, the token service and Slack answer, and also if an update took
-- effect although its call threw: that one counts as a failure.
pub confirmed-process :
    (w : World) (s : State)
    → confirmed (process w s).0.calls ≡ confirmed s.calls + one (is_updated (process w s).1)
unfolding process
confirmed-process w s = with_plan-confirmed w (w.plan s.step) (ask s)
