-- ===== src/Oauth/Tokens/Access.antt =====
-- shookie/src/slack/user-oauth/token-service.ts: what `getAccessToken` hands out.
use shookie.Prelude.{
  ℕ, zero, suc, String, true, false, Option, none, some, not, ◌&&◌, ◌||◌, str_eq, is_some,
  if◌then◌else◌, ◌≡◌, refl, subst, arith, Bool-cases, Option-cases, inl, inr, eq_iff,
}
use shookie.Oauth.Store.{Token}
use shookie.Oauth.Tokens.{
  expired, revoked, TokenError, required, Result, ok, throw, Identity, access,
  has_only_required_scope, World, State, arrive, given, expires_soon, is_invalid_date,
  decrypt_envelope, revoke_read, Retry, retry_or, revoke_stale, live_token, is_terminal_error,
}
use shookie.Oauth.Tokens.Refresh.{run_refresh}
use shookie.Oauth.Tokens.Attempt.{
  get_access_token, get_with_retry, attempt, check_token, use_token, validated, after_refresh,
  is_expiry, differ,
}

-- The token that the user has in the state fits the configuration, has just the required scope and is
-- not about to expire, decrypts to the text, and Slack confirms that it is the user's.
pub record Usable (w : World) (who : Identity) (plain : String) (state : State) : Type 0 where
  pub token : Token
  pub stored : live_token who state ≡ some token
  pub rotation : is_some token.encrypted_refresh_token ≡ w.rotation_enabled
  pub scoped : has_only_required_scope token.scopes ≡ true
  pub fresh : expires_soon w state token.expires_at ≡ false
  pub decrypted : w.decrypt who access token.encrypted_access_token ≡ ok plain
  pub confirmed : w.validate state.accesses plain ≡ ok who

abbrev Sound : World → Identity → State × Result String → Type 0
Sound w who (s, throw e) = Unit
Sound w who (s, ok plain) = Usable w who plain s

-- Every further attempt is sound.
abbrev Sounds : World → Identity → Retry → Type 0
Sounds w who none = Unit
Sounds w who (some attempt) = (s : State) → Sound w who (attempt s)

retry_or-Sound :
    (w : World) (who : Identity) (e : TokenError) (retry : Retry) (s : State)
    → Sounds w who retry
    → Sound w who (retry_or e retry s)
retry_or-Sound w who e none s h = tt
retry_or-Sound w who e (some attempt) s h = h s

revoke_stale-Sound :
    (w : World) (who : Identity) (token : Token) (retry : Retry) (s : State)
    → Sounds w who retry
    → Sound w who (revoke_stale w who token retry s)
unfolding revoke_stale
revoke_stale-Sound w who token retry s h = elim (Bool-cases (revoke_read w who token s).1) [
  | inl done ↦ rw done tt
  | inr not_done ↦
      rw not_done (retry_or-Sound w who (required revoked) retry (revoke_read w who token s).0 h)
]

after_refresh-Sound :
    (w : World) (who : Identity) (retry : Retry) (r : State × Option TokenError)
    → Sounds w who retry
    → Sound w who (after_refresh retry r)
after_refresh-Sound w who retry (s, some e) h = tt
after_refresh-Sound w who retry (s, none) h = retry_or-Sound w who (required expired) retry s h

validated-Sound :
    (w : World) (who : Identity) (s : State) (token : Token) (plain : String) (retry : Retry)
    (answer : Result Identity)
    → Sounds w who retry
    → (answer ≡ ok who → Usable w who plain s)
    → Sound w who (validated w who token plain retry answer s)
validated-Sound w who s token plain retry (ok identity) h usable =
    elim (Bool-cases
      (not (str_eq identity.team_id who.team_id) || not (str_eq identity.user_id who.user_id))) [
        | inl foreign ↦ rw foreign (revoke_stale-Sound w who token retry s h)
        | inr own ↦ rw own (
            usable (
              ground (
                arith,
                own,
                eq_iff identity.team_id who.team_id,
                eq_iff identity.user_id who.user_id,
              )))
      ]
validated-Sound w who s token plain retry (throw e) h usable =
    elim (Bool-cases (is_expiry e && w.rotation_enabled && given token.encrypted_refresh_token)) [
      | inl stale ↦ rw stale (after_refresh-Sound w who retry (run_refresh w who true s) h)
      | inr other ↦ rw other (elim (Bool-cases (is_terminal_error e)) [
        | inl terminal ↦ rw terminal (revoke_stale-Sound w who token retry s h)
        | inr passing ↦ rw passing tt
      ])
    ]

use_token-Sound :
    (w : World) (who : Identity) (s : State) (token : Token) (retry : Retry) (plain : Result String)
    → Sounds w who retry
    → ((text : String)
        → plain ≡ ok text
        → w.validate s.accesses text ≡ ok who
        → Usable w who text s)
    → Sound w who (use_token w who token retry plain s)
use_token-Sound w who s token retry (throw e) h usable = tt
use_token-Sound w who s token retry (ok text) h usable =
    validated-Sound w who s token text retry (w.validate s.accesses text) h (usable text refl)

-- The last branch of the checks, where the token is used.
Usable-when :
    (w : World) (who : Identity) (s : State) (token : Token) (text : String)
    → live_token who s ≡ some token
    → is_some token.encrypted_refresh_token ≡ w.rotation_enabled
    → has_only_required_scope token.scopes ≡ true
    → expires_soon w s token.expires_at ≡ false
    → decrypt_envelope w who access (some token.encrypted_access_token) ≡ ok text
    → w.validate s.accesses text ≡ ok who
    → Usable w who text s
Usable-when w who s token text stored rotation scoped fresh plain confirmed = record {
  token = token;
  stored = stored;
  rotation = rotation;
  scoped = scoped;
  fresh = fresh;
  decrypted = ground (arith, plain);
  confirmed = confirmed;
}

expiring-Sound :
    (w : World) (who : Identity) (s : State) (token : Token) (retry : Retry)
    → Sounds w who retry
    → Sound w who (
        if not w.rotation_enabled || not (given token.encrypted_refresh_token)
        then (s, throw (required expired))
        else after_refresh retry (run_refresh w who false s))
expiring-Sound w who s token retry h =
    elim (Bool-cases (not w.rotation_enabled || not (given token.encrypted_refresh_token))) [
      | inl lacking ↦ rw lacking tt
      | inr able ↦ rw able (after_refresh-Sound w who retry (run_refresh w who false s) h)
    ]

check_token-Sound :
    (w : World) (who : Identity) (s : State) (token : Token) (retry : Retry)
    → live_token who s ≡ some token
    → Sounds w who retry
    → Sound w who (check_token w who token retry s)
check_token-Sound w who s token retry stored h =
    let refreshes = is_some token.encrypted_refresh_token in
    elim (Bool-cases (differ refreshes (is_some token.expires_at))) [
      | inl odd ↦ rw odd (revoke_stale-Sound w who token retry s h)
      | inr even ↦ rw even (elim (Bool-cases (w.rotation_enabled && not refreshes)) [
        | inl lacking ↦ rw lacking tt
        | inr a ↦ rw a (elim (Bool-cases (not w.rotation_enabled && refreshes)) [
          | inl surplus ↦ rw surplus tt
          | inr b ↦ rw b (elim (Bool-cases (is_invalid_date token.expires_at)) [
            | inl broken ↦ rw broken (revoke_stale-Sound w who token retry s h)
            | inr dated ↦ rw dated (elim (Bool-cases (not (has_only_required_scope token.scopes))) [
              | inl wide ↦ rw wide (revoke_stale-Sound w who token retry s h)
              | inr narrow ↦ rw narrow (elim (Bool-cases (expires_soon w s token.expires_at)) [
                | inl soon ↦ rw soon (expiring-Sound w who s token retry h)
                | inr fresh ↦ rw fresh (
                    use_token-Sound w who s token retry _ h (λ text.
                      Usable-when w who s token text stored (ground (arith, a, b))
                        (ground (arith, narrow)) fresh))
              ])
            ])
          ])
        ])
      ])
    ]

attempt-Sound :
    (w : World) (who : Identity) (retry : Retry) (s : State)
    → Sounds w who retry
    → Sound w who (attempt w who retry s)
unfolding attempt
attempt-Sound w who retry s h = elim (Option-cases (live_token who (arrive w s))) [
  | inl absent ↦ rw absent tt
  | inr (token, stored) ↦ rw stored (check_token-Sound w who (arrive w s) token retry stored h)
]

get_with_retry-Sound :
    (w : World) (who : Identity) (retries : ℕ) (s : State)
    → Sound w who (get_with_retry w who retries s)
unfolding get_with_retry
get_with_retry-Sound w who zero s = attempt-Sound w who none s tt
get_with_retry-Sound w who (suc retries) s =
    attempt-Sound w who (some (λ s'. get_with_retry w who retries s')) s
      (λ s'. get_with_retry-Sound w who retries s')

Sound-ok :
    (w : World) (who : Identity) (plain : String) (r : State × Result String)
    → r.1 ≡ ok plain
    → Sound w who r
    → Usable w who plain r.0
Sound-ok w who plain (s, result) e h = subst (λ x. Sound w who (s, x)) e h

-- Whatever other processes do to the table and however Slack answers, a token that is handed out is the
-- one that the user has in the table as the call has last found it; it fits the configuration, has just
-- the required scope, was not about to expire, and was confirmed by Slack as this user's.
pub get_access_token-Usable :
    (w : World) (who : Identity) (s : State) (plain : String)
    → (get_access_token w who s).1 ≡ ok plain
    → Usable w who plain (get_access_token w who s).0
unfolding get_access_token
get_access_token-Usable w who s plain h = Sound-ok w who plain _ h (get_with_retry-Sound w who 2 s)
