-- ===== src/Oauth/Tokens/Refresh.antt =====
-- shookie/src/slack/user-oauth/token-service.ts: the rotation of a token, `refresh` and `runRefresh`.
use shookie.Prelude.{
  ℕ, ◌+◌, ◌*◌, String, Bool, true, false, Option, none, some, [], ◌∷◌, not, ◌&&◌, str_eq, ◌==◌,
  if◌then◌else◌,
}
use shookie.Oauth.Store.{Date, time, invalid, Token, replace_rotated}
use shookie.Oauth.Tokens.{
  required_scope, expired, revoked, TokenError, required, configuration, Result, ok, throw,
  Identity, Rotation, access, refresh, has_only_required_scope, World, State, arrive, is_soon,
  revoke_read, live_token, is_terminal_error,
}

-- A refresh may be left out if the token that is stored by now has no expiration or a late one.
abbrev still_valid : World → State → Bool → Option Date → Bool
still_valid w s force none = true
still_valid w s force (some invalid) = false
still_valid w s force (some (time t)) = not force && not (is_soon w s (time t))

abbrev remote_revoke_both : Rotation → State → State
remote_revoke_both g s = record s { remote = g.refresh_token ∷ g.access_token ∷ s.remote }

abbrev rotated : World → Identity → Rotation → ℕ → State → Token
rotated w who g seconds s = record {
  encrypted_access_token = w.encrypt s.accesses who access g.access_token;
  encrypted_refresh_token = some (w.encrypt s.accesses who refresh g.refresh_token);
  scopes = required_scope ∷ [];
  expires_at = some (time (w.now s.accesses + seconds * 1000));
}

-- The end of `refresh`: the rotated token is stored unless another refresh has won; then it is revoked.
unfoldable pub store_rotation :
    World → Identity → String → Rotation → ℕ → State → State × Option TokenError
store_rotation w who expected g seconds s =
    let token = rotated w who g seconds s in
    let s' = arrive w s in
    let (t, replaced) =
      replace_rotated (w.now s'.accesses) who.team_id who.user_id expected token s'.table in
    (
      if replaced then record s' { table = t } else remote_revoke_both g (record s' { table = t }),
      none,
    )

abbrev grant_call :
    World → Identity → String → Rotation → Option ℕ → State → State × Option TokenError
grant_call w who expected g none s = (s, some configuration)
grant_call w who expected g (some seconds) s =
    if seconds == 0 then (s, some configuration) else store_rotation w who expected g seconds s

abbrev pub exchange_call :
    World → Identity → Token → String → Result Rotation → State → State × Option TokenError
exchange_call w who current expected (throw e) s =
    if is_terminal_error e
    then (let (s', done) = revoke_read w who current s in
        (s', if done then some (required revoked) else none))
    else (s, some e)
exchange_call w who current expected (ok g) s =
    if has_only_required_scope g.scopes
    then grant_call w who expected g g.expires_in s
    else (s, some configuration)

abbrev pub decrypted_call :
    World → Identity → Token → String → Result String → State → State × Option TokenError
decrypted_call w who current expected (throw e) s = (s, some e)
decrypted_call w who current expected (ok token) s =
    exchange_call w who current expected (w.exchange s.accesses token) s

abbrev pub refresh_call :
    World → Identity → Token → Option String → State → State × Option TokenError
refresh_call w who current none s = (s, some (required expired))
refresh_call w who current (some envelope) s =
    if str_eq envelope ""
    then (s, some (required expired))
    else decrypted_call w who current envelope (w.decrypt who refresh envelope) s

abbrev pub refresh_current :
    World → Identity → Bool → Option Token → State → State × Option TokenError
refresh_current w who force none s = (s, some (required revoked))
refresh_current w who force (some current) s =
    if still_valid w s force current.expires_at
    then (s, none)
    else refresh_call w who current current.encrypted_refresh_token s

-- `refresh`
unfoldable pub refresh_token : World → Identity → Bool → State → State × Option TokenError
unfolding revoke_read store_rotation
refresh_token w who force s =
    let s' = arrive w s in refresh_current w who force (live_token who s') s'

-- `runRefresh`: a refresh that is in flight is joined.
abbrev pub join_or_refresh :
    World → Identity → Bool → Option (Option TokenError) → State → State × Option TokenError
join_or_refresh w who force none s = refresh_token w who force s
join_or_refresh w who force (some outcome) s = (s, outcome)

unfoldable pub run_refresh : World → Identity → Bool → State → State × Option TokenError
unfolding refresh_token
run_refresh w who force s = join_or_refresh w who force (w.joined s.accesses) s
