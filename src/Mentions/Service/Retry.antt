-- ===== src/Mentions/Service/Retry.antt =====
-- shookie/src/slack/mention-groups/service.ts: the tokens that `process` uses, and its last notice.
use shookie.Prelude.{
  String, Bool, true, false, Option, none, some, List, [], ◌∷◌, ◌≡◌, ◌≢◌, ◌⊎◌, refl, subst, inl,
  inr, arith, ltb, not, str_eq, eq_iff, Bool-cases,
}
use shookie.Mentions.Service.{
  Plan, Answer, answered, needs_oauth, failing, Update, took_place, refused, lost, World, Call,
  tried_update, invalidated, State, log_call, ask, notify, prompt_with, prompt_authorization,
  after_invalidation, end_retry, after_retry, retry_update, after_prompt, recover_authentication,
  after_update, end_update, update_first, follow_plan, with_plan, process, is_terminal_code,
  is_unresolved, unresolved_groups, max_update_length,
}

-- The tokens with which updates were tried, the newest first.
abbrev pub tokens : List Call → List String
tokens [] = []
tokens (tried_update token text answer ∷ calls) = token ∷ tokens calls
tokens (_ ∷ calls) = tokens calls

-- No update was tried since, or one with another token than this one.
abbrev Retried : String → List String → List String → Type 0
Retried failed_token before after =
    (after ≡ before) ⊎ ((token : String) × (token ≢ failed_token) × (after ≡ token ∷ before))

-- No update was tried since, or one, or two with different tokens.
abbrev pub TriedAtMostTwice : List String → List String → Type 0
TriedAtMostTwice before after =
    (after ≡ before) ⊎ ((first : String) × Retried first (first ∷ before) after)

prompt_with-tokens :
    (a : Answer (Option String)) (s : State) → tokens (prompt_with a s).0.calls ≡ tokens s.calls
prompt_with-tokens (answered none) s = refl
prompt_with-tokens (answered (some url)) s = ground arith
prompt_with-tokens needs_oauth s = refl
prompt_with-tokens failing s = refl

prompt-tokens : (w : World) (s : State) → tokens (prompt_authorization w s).0.calls ≡ tokens s.calls
unfolding prompt_authorization
prompt-tokens w s = prompt_with-tokens (w.authorization_url s.step) (ask s)

after_invalidation-tokens :
    (w : World) (a : Answer Bool) (s : State)
    → tokens (after_invalidation w a s).0.calls ≡ tokens s.calls
after_invalidation-tokens w (answered b) s = prompt-tokens w s
after_invalidation-tokens w needs_oauth s = prompt-tokens w s
after_invalidation-tokens w failing s = refl

end_retry-tokens :
    (w : World) (token : String) (code : Option String) (s : State)
    → tokens (end_retry w token code s).0.calls ≡ tokens s.calls
end_retry-tokens w token code s = ground (
  arith,
  after_invalidation-tokens w (w.invalidate s.step token) (log_call (invalidated token) s),
)

after_retry-tokens :
    (w : World) (token : String) (a : Update) (s : State)
    → tokens (after_retry w token a s).0.calls ≡ tokens s.calls
after_retry-tokens w token took_place s = refl
after_retry-tokens w token (refused code) s = end_retry-tokens w token code s
after_retry-tokens w token (lost code) s = end_retry-tokens w token code s

retry_update-tokens :
    (w : World) (text failed_token : String) (a : Answer String) (s : State)
    → Retried failed_token (tokens s.calls) (tokens (retry_update w text failed_token a s).0.calls)
retry_update-tokens w text failed_token (answered token) s =
    elim (Bool-cases (str_eq token failed_token)) [
      | inl same ↦ rw same (inl refl)
      | inr other ↦ rw other (
          inr (
            token,
            (λ e. ground (arith, e, other, eq_iff token failed_token)),
            after_retry-tokens w token (w.update s.step token text)
                (log_call (tried_update token text (w.update s.step token text)) s),
          ))
    ]
retry_update-tokens w text failed_token needs_oauth s = inl (prompt-tokens w s)
retry_update-tokens w text failed_token failing s = inl refl

after_prompt-tokens :
    (w : World) (text failed_token : String) (before : List String) (r : State × Bool)
    → tokens r.0.calls ≡ before
    → Retried failed_token before (tokens (after_prompt w text failed_token r).0.calls)
after_prompt-tokens w text failed_token before (s, true) h = inl h
after_prompt-tokens w text failed_token before (s, false) h =
    subst
      (λ b.
        Retried failed_token b
          (tokens (retry_update w text failed_token (w.access_token s.step) (ask s)).0.calls))
      h (retry_update-tokens w text failed_token (w.access_token s.step) (ask s))

recover-tokens :
    (w : World) (text failed_token : String) (s : State)
    → Retried failed_token
        (tokens s.calls)
        (tokens (recover_authentication w text failed_token s).0.calls)
unfolding recover_authentication
recover-tokens w text failed_token s =
    after_prompt-tokens w text failed_token (tokens s.calls)
      (prompt_authorization w (log_call (invalidated failed_token) s))
      (prompt-tokens w (log_call (invalidated failed_token) s))

end_update-tokens :
    (w : World) (text token : String) (code : Option String) (s : State)
    → Retried token (tokens s.calls) (tokens (end_update w text token code s).0.calls)
end_update-tokens w text token code s = elim (Bool-cases (is_terminal_code code)) [
  | inr other ↦ rw other (inl refl)
  | inl terminal ↦ rw terminal (recover-tokens w text token s)
]

after_update-tokens :
    (w : World) (text token : String) (a : Update) (s : State)
    → Retried token (tokens s.calls) (tokens (after_update w text token a s).0.calls)
after_update-tokens w text token took_place s = inl refl
after_update-tokens w text token (refused code) s = end_update-tokens w text token code s
after_update-tokens w text token (lost code) s = end_update-tokens w text token code s

update_first-tokens :
    (w : World) (text : String) (a : Answer String) (s : State)
    → TriedAtMostTwice (tokens s.calls) (tokens (update_first w text a s).0.calls)
update_first-tokens w text (answered token) s = inr (
  token,
  after_update-tokens w text token (w.update s.step token text)
      (log_call (tried_update token text (w.update s.step token text)) s),
)
update_first-tokens w text needs_oauth s = inl (prompt-tokens w s)
update_first-tokens w text failing s = inl refl

follow_plan-tokens :
    (w : World) (p : Plan) (s : State)
    → TriedAtMostTwice (tokens s.calls) (tokens (follow_plan w p s).0.calls)
follow_plan-tokens w p s = elim (Bool-cases (not p.changed)) [
  | inl same ↦ rw same (inl refl)
  | inr changed ↦ rw changed (elim (Bool-cases (ltb max_update_length p.size)) [
    | inl long ↦ rw long (inl refl)
    | inr fits ↦ rw fits (update_first-tokens w p.text (w.access_token s.step) (ask s))
  ])
]

with_plan-tokens :
    (w : World) (o : Option Plan) (s : State)
    → TriedAtMostTwice (tokens s.calls) (tokens (with_plan w o s).0.calls)
with_plan-tokens w none s = inl refl
with_plan-tokens w (some p) s = elim (Bool-cases (is_unresolved p)) [
  | inl unresolved ↦ rw unresolved (follow_plan-tokens w p (notify unresolved_groups s))
  | inr resolved ↦ rw resolved (follow_plan-tokens w p s)
]

-- `process` tries to update the message at most twice, and the second time with another token than the
-- first, whatever Radar, the token service and Slack answer.
pub tokens-process :
    (w : World) (s : State) → TriedAtMostTwice (tokens s.calls) (tokens (process w s).0.calls)
unfolding process
tokens-process w s = with_plan-tokens w (w.plan s.step) (ask s)
