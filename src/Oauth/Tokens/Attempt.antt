-- ===== src/Oauth/Tokens/Attempt.antt =====
-- shookie/src/slack/user-oauth/token-service.ts: `getAccessToken` and its retries.
use shookie.Prelude.{
  ℕ, zero, suc, String, Bool, true, false, Option, none, some, not, ◌&&◌, ◌||◌, str_eq, is_some,
  if◌then◌else◌,
}
use shookie.Oauth.Store.{Token}
use shookie.Oauth.Tokens.{
  missing, expired, TokenError, required, configuration, api_error, Result, ok, throw, Identity,
  access, has_only_required_scope, World, State, arrive, given, expires_soon, is_invalid_date,
  decrypt_envelope, Retry, retry_or, revoke_stale, live_token, is_terminal_error,
}
use shookie.Oauth.Tokens.Refresh.{run_refresh}

abbrev pub after_refresh : Retry → State × Option TokenError → State × Result String
after_refresh retry (s, some e) = (s, throw e)
after_refresh retry (s, none) = retry_or (required expired) retry s

abbrev pub is_expiry : TokenError → Bool
is_expiry (api_error code) = str_eq code "token_expired"
is_expiry _ = false

-- What the answer of `validateToken` leads to.
abbrev pub validated :
    World → Identity → Token → String → Retry → Result Identity → State → State × Result String
validated w who token plain retry (ok identity) s =
    if not (str_eq identity.team_id who.team_id) || not (str_eq identity.user_id who.user_id)
    then revoke_stale w who token retry s
    else (s, ok plain)
validated w who token plain retry (throw e) s =
    if is_expiry e && w.rotation_enabled && given token.encrypted_refresh_token
    then after_refresh retry (run_refresh w who true s)
    else if is_terminal_error e
    then revoke_stale w who token retry s
    else (s, throw e)

abbrev pub use_token :
    World → Identity → Token → Retry → Result String → State → State × Result String
use_token w who token retry (throw e) s = (s, throw e)
use_token w who token retry (ok plain) s =
    validated w who token plain retry (w.validate s.accesses plain) s

abbrev pub differ : Bool → Bool → Bool
differ true b = not b
differ false b = b

abbrev pub check_token : World → Identity → Token → Retry → State → State × Result String
check_token w who token retry s =
    let has_refresh = is_some token.encrypted_refresh_token in
    if differ has_refresh (is_some token.expires_at)
    then revoke_stale w who token retry s
    else if w.rotation_enabled && not has_refresh
    then (s, throw (required expired))
    else if not w.rotation_enabled && has_refresh
    then (s, throw configuration)
    else if is_invalid_date token.expires_at
    then revoke_stale w who token retry s
    else if not (has_only_required_scope token.scopes)
    then revoke_stale w who token retry s
    else if expires_soon w s token.expires_at
    then (if not w.rotation_enabled || not (given token.encrypted_refresh_token)
        then (s, throw (required expired))
        else after_refresh retry (run_refresh w who false s))
    else use_token w who token retry
        (decrypt_envelope w who access (some token.encrypted_access_token)) s

abbrev pub found_token : World → Identity → Retry → Option Token → State → State × Result String
found_token w who retry none s = (s, throw (required missing))
found_token w who retry (some token) s = check_token w who token retry s

-- One round of `getAccessTokenWithRetry`.
unfoldable pub attempt : World → Identity → Retry → State → State × Result String
unfolding revoke_stale run_refresh
attempt w who retry s = let s' = arrive w s in found_token w who retry (live_token who s') s'

unfoldable pub get_with_retry : World → Identity → ℕ → State → State × Result String
unfolding attempt
get_with_retry w who zero s = attempt w who none s
get_with_retry w who (suc retries) s =
    attempt w who (some (λ s'. get_with_retry w who retries s')) s

-- `getAccessToken`
unfoldable pub get_access_token : World → Identity → State → State × Result String
unfolding get_with_retry
get_access_token w who s = get_with_retry w who 2 s
