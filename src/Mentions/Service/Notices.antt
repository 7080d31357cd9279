-- ===== src/Mentions/Service/Notices.antt =====
-- shookie/src/slack/mention-groups/service.ts: a failure of `process` is the last thing its author hears of.
use shookie.Prelude.{
  String, Bool, true, false, Option, none, some, List, ◌∷◌, ◌≡◌, refl, inl, inr, arith, ltb, not,
  str_eq, Bool-cases,
}
use shookie.Mentions.Service.{
  ProcessResult, failed, Plan, Answer, answered, needs_oauth, failing, Update, took_place, refused,
  lost, World, Call, posted, tried_update, invalidated, State, log_call, ask, prompt_authorization,
  fail_with, after_invalidation, end_retry, after_retry, retry_update, after_prompt,
  recover_authentication, end_update, after_update, update_first, follow_plan, with_plan, process,
  is_terminal_code, update_notice, generic_failure, permission_failure, max_update_length,
}

-- The newest call told the author that the replacement failed.
abbrev pub told_last : List Call → Bool
told_last (posted generic_failure ∷ calls) = true
told_last (posted permission_failure ∷ calls) = true
told_last _ = false

-- A failure is told at once.
abbrev Told : State × ProcessResult → Type 0
Told r = r.1 ≡ failed → told_last r.0.calls ≡ true

after_invalidation-Told :
    (w : World) (a : Answer Bool) (s : State) → Told (after_invalidation w a s)
after_invalidation-Told w (answered b) s = λ h. ground (arith, h)
after_invalidation-Told w needs_oauth s = λ h. ground (arith, h)
after_invalidation-Told w failing s = λ h. refl

notice-Told : (code : Option String) (s : State) → Told (fail_with (update_notice code) s)
notice-Told none s h = refl
notice-Told (some code) s h = ground arith

end_retry-Told :
    (w : World) (token : String) (code : Option String) (s : State)
    → Told (end_retry w token code s)
end_retry-Told w token code s = elim (Bool-cases (is_terminal_code code)) [
  | inr other ↦ rw other (notice-Told code s)
  | inl terminal ↦
      rw terminal
        (after_invalidation-Told w (w.invalidate s.step token) (log_call (invalidated token) s))
]

after_retry-Told :
    (w : World) (token : String) (a : Update) (s : State) → Told (after_retry w token a s)
after_retry-Told w token took_place s = λ h. ground (arith, h)
after_retry-Told w token (refused code) s = end_retry-Told w token code s
after_retry-Told w token (lost code) s = end_retry-Told w token code s

retry_update-Told :
    (w : World) (text failed_token : String) (a : Answer String) (s : State)
    → Told (retry_update w text failed_token a s)
retry_update-Told w text failed_token (answered token) s =
    elim (Bool-cases (str_eq token failed_token)) [
      | inl same ↦ rw same (λ h. refl)
      | inr other ↦ rw other (
          after_retry-Told w token (w.update s.step token text)
            (log_call (tried_update token text (w.update s.step token text)) s))
    ]
retry_update-Told w text failed_token needs_oauth s = λ h. ground (arith, h)
retry_update-Told w text failed_token failing s = λ h. refl

after_prompt-Told :
    (w : World) (text failed_token : String) (r : State × Bool)
    → Told (after_prompt w text failed_token r)
after_prompt-Told w text failed_token (s, true) = λ h. ground (arith, h)
after_prompt-Told w text failed_token (s, false) =
    retry_update-Told w text failed_token (w.access_token s.step) (ask s)

recover-Told :
    (w : World) (text failed_token : String) (s : State)
    → Told (recover_authentication w text failed_token s)
unfolding recover_authentication
recover-Told w text failed_token s =
    after_prompt-Told w text failed_token
      (prompt_authorization w (log_call (invalidated failed_token) s))

end_update-Told :
    (w : World) (text token : String) (code : Option String) (s : State)
    → Told (end_update w text token code s)
end_update-Told w text token code s = elim (Bool-cases (is_terminal_code code)) [
  | inr other ↦ rw other (notice-Told code s)
  | inl terminal ↦ rw terminal (recover-Told w text token s)
]

after_update-Told :
    (w : World) (text token : String) (a : Update) (s : State)
    → Told (after_update w text token a s)
after_update-Told w text token took_place s = λ h. ground (arith, h)
after_update-Told w text token (refused code) s = end_update-Told w text token code s
after_update-Told w text token (lost code) s = end_update-Told w text token code s

update_first-Told :
    (w : World) (text : String) (a : Answer String) (s : State) → Told (update_first w text a s)
update_first-Told w text (answered token) s =
    after_update-Told w text token (w.update s.step token text)
      (log_call (tried_update token text (w.update s.step token text)) s)
update_first-Told w text needs_oauth s = λ h. ground (arith, h)
update_first-Told w text failing s = λ h. refl

follow_plan-Told : (w : World) (p : Plan) (s : State) → Told (follow_plan w p s)
follow_plan-Told w p s = elim (Bool-cases (not p.changed)) [
  | inl same ↦ rw same (λ h. ground (arith, h))
  | inr changed ↦ rw changed (elim (Bool-cases (ltb max_update_length p.size)) [
    | inl long ↦ rw long (λ h. refl)
    | inr fits ↦ rw fits (update_first-Told w p.text (w.access_token s.step) (ask s))
  ])
]

with_plan-Told : (w : World) (o : Option Plan) (s : State) → Told (with_plan w o s)
with_plan-Told w none s = λ h. refl
with_plan-Told w (some p) s = follow_plan-Told w p _

-- Whenever `process` fails, the last thing it does is to post a notice of the failure to the author,
-- whatever Radar, the token service and Slack answer.
pub process_failed :
    (w : World) (s : State) → (process w s).1 ≡ failed → told_last (process w s).0.calls ≡ true
unfolding process
process_failed w s = with_plan-Told w (w.plan s.step) (ask s)
