-- ===== src/Oauth/Tokens/Grants.antt =====
-- shookie/src/slack/user-oauth/token-service.ts: `saveGrant`, `revoke` and `invalidateAccessToken`.
-- `trim` and `units`, the length of a text in UTF-16 units, are JavaScript's.
use shookie.Prelude.{
  ℕ, ◌+◌, ◌*◌, String, Bool, true, false, Option, none, some, List, [], ◌∷◌, ltb, not, ◌&&◌, ◌||◌,
  str_eq, is_some, if◌then◌else◌,
}
use shookie.Oauth.Store.{Date, time, Token, save, revoke}
use shookie.Oauth.Tokens.{
  required_scope, TokenError, configuration, other_error, Write, acknowledged, rejected,
  unacknowledged, Result, ok, throw, Identity, access, refresh, has_only_required_scope, World,
  State, arrive, given, decrypt_envelope, revoke_read, live_token, is_terminal_error,
}

-- What Slack's authorization returned: `expires_given` is whether it tells the time left, and
-- `expires_in` is none unless that is a safe integer from 0.
pub record Grant : Type 0 where
  pub who : Identity
  pub access_token : String
  pub refresh_token : Option String
  pub scopes : List String
  pub expires_given : Bool
  pub expires_in : Option ℕ

abbrev is_positive : Option ℕ → Bool
is_positive none = false
is_positive (some n) = ltb 0 n

-- `assertRotationMatchesConfiguration` does not throw.
unfoldable pub matches_rotation : Bool → Grant → Bool
matches_rotation true g = given g.refresh_token && g.expires_given && is_positive g.expires_in
matches_rotation false g = not (is_some g.refresh_token || g.expires_given)

abbrev encrypted_refresh : World → Identity → ℕ → Option String → Option String
encrypted_refresh w who n none = none
encrypted_refresh w who n (some t) = if str_eq t "" then none else some (w.encrypt n who refresh t)

abbrev expiry : World → ℕ → Option ℕ → Option Date
expiry w n none = none
expiry w n (some seconds) = some (time (w.now n + seconds * 1000))

abbrev pub granted_token : World → Grant → ℕ → Token
granted_token w g n = record {
  encrypted_access_token = w.encrypt n g.who access g.access_token;
  encrypted_refresh_token = encrypted_refresh w g.who n g.refresh_token;
  scopes = required_scope ∷ [];
  expires_at = if g.expires_given then expiry w n g.expires_in else none;
}

-- The table with the token of the grant.
abbrev pub put_grant : World → Grant → State → State
put_grant w g s =
    let s' = arrive w s in
    record s' {
      table =
          save (w.now s'.accesses) g.who.team_id g.who.user_id (granted_token w g s.accesses)
            s'.table;
    }

-- `this.repository.save`
abbrev pub write_grant : Write → World → Grant → State → State × Option TokenError
write_grant acknowledged w g s = (put_grant w g s, none)
write_grant rejected w g s = (arrive w s, some other_error)
write_grant unacknowledged w g s = (put_grant w g s, some other_error)

module _ (trim : String → String) (units : String → ℕ) where
  abbrev is_bad_id : String → Bool
  is_bad_id id = str_eq id "" || not (str_eq id (trim id)) || ltb 255 (units id)

  abbrev is_bad_token : String → Bool
  is_bad_token token = not (str_eq token (trim token)) || ltb 8192 (units token)

  abbrev is_bad_refresh : Option String → Bool
  is_bad_refresh none = false
  is_bad_refresh (some token) = is_bad_token token

  unfoldable pub is_malformed : Grant → Bool
  is_malformed g =
      is_bad_id g.who.team_id
      || is_bad_id g.who.user_id
      || str_eq g.access_token ""
      || is_bad_token g.access_token
      || is_bad_refresh g.refresh_token

  -- `saveGrant`
  unfoldable pub save_grant : World → Grant → State → State × Option TokenError
  unfolding is_malformed
  save_grant w g s =
      if is_malformed g
      then (s, some configuration)
      else if not (has_only_required_scope g.scopes)
      then (s, some configuration)
      else if not (matches_rotation w.rotation_enabled g)
      then (s, some configuration)
      else write_grant (w.writes s.accesses) w g s

-- The answer to `auth.revoke` is an error that is not about the token's being invalid.
abbrev lasting : Option TokenError → Option TokenError
lasting none = none
lasting (some e) = if is_terminal_error e then none else some e

abbrev pub first_error : Option TokenError → Option TokenError → Option TokenError
first_error none later = later
first_error (some e) later = some e

-- The loop over the tokens in `revoke`: every token is handed to Slack, and the first error is kept.
unfoldable pub revoke_remote : World → List String → State → State × Option TokenError
revoke_remote w [] s = (s, none)
revoke_remote w (token ∷ tokens) s =
    let rest = revoke_remote w tokens (record s { remote = token ∷ s.remote }) in
    (rest.0, first_error (lasting (w.remote_revoke s.accesses token)) rest.1)

abbrev failing : Option TokenError → Result Bool
failing none = ok true
failing (some e) = throw e

abbrev pub erase_token : World → Identity → State × Option TokenError → State × Result Bool
erase_token w who (s, e) =
    let s' = arrive w s in
    (
      record s' { table = (revoke (w.now s'.accesses) who.team_id who.user_id s'.table).0 },
      failing e,
    )

abbrev pub revoke_tokens : World → Identity → String → Result String → State → State × Result Bool
revoke_tokens w who plain (throw e) s = (s, throw e)
revoke_tokens w who plain (ok second) s =
    erase_token w who (revoke_remote w (plain ∷ second ∷ []) s)

abbrev pub revoke_decrypted : World → Identity → Token → Result String → State → State × Result Bool
revoke_decrypted w who token (throw e) s = (s, throw e)
revoke_decrypted w who token (ok plain) s =
    if given token.encrypted_refresh_token
    then revoke_tokens w who plain (decrypt_envelope w who refresh token.encrypted_refresh_token) s
    else erase_token w who (revoke_remote w (plain ∷ []) s)

abbrev pub revoke_found : World → Identity → Option Token → State → State × Result Bool
revoke_found w who none s = (s, ok false)
revoke_found w who (some token) s =
    revoke_decrypted w who token (decrypt_envelope w who access (some token.encrypted_access_token))
      s

-- `revoke`
unfoldable pub revoke_user : World → Identity → State → State × Result Bool
unfolding revoke_remote
revoke_user w who s = let s' = arrive w s in revoke_found w who (live_token who s') s'

abbrev pub invalidate_matching :
    World → Identity → String → Token → Result String → State → State × Result Bool
invalidate_matching w who expected token (throw e) s = (s, throw e)
invalidate_matching w who expected token (ok plain) s =
    if str_eq plain expected
    then (let (s', done) = revoke_read w who token s in
        if done then (record s' { remote = expected ∷ s'.remote }, ok true) else (s', ok false))
    else (s, ok false)

abbrev pub invalidate_found : World → Identity → String → Option Token → State → State × Result Bool
invalidate_found w who expected none s = (s, ok false)
invalidate_found w who expected (some token) s =
    invalidate_matching w who expected token
      (decrypt_envelope w who access (some token.encrypted_access_token)) s

-- `invalidateAccessToken`. Slack's answer to the last call is only logged.
unfoldable pub invalidate_access_token : World → Identity → String → State → State × Result Bool
unfolding revoke_read
invalidate_access_token w who expected s =
    let s' = arrive w s in invalidate_found w who expected (live_token who s') s'
