-- ===== src/Oauth/Tokens.antt =====
-- shookie/src/slack/user-oauth/token-service.ts: `SlackUserTokenService`. Other processes share the
-- table: before its n-th access to it the service finds it as `others n` leaves it. Slack's answers,
-- the clock and the cipher are parameters too, and may depend on n. The count n is part of the state.
pub mod Refresh
pub mod Attempt
pub mod Grants
pub mod Access
pub mod Outcomes
pub mod Saved
use shookie.Prelude.{
  ℕ, zero, suc, ◌+◌, ◌*◌, String, Bool, true, false, Option, none, some, List, [], ◌∷◌, leb, not,
  ◌&&◌, ◌||◌, str_eq, is_some, ◌==◌, if◌then◌else◌,
}
use shookie.Oauth.Store.{
  Date, time, invalid, Token, Table, save, get_token, replace_rotated, revoke, revoke_if_unchanged,
}

abbrev pub refresh_early_ms : ℕ
refresh_early_ms = 5 * 60 * 1000

abbrev pub required_scope : String
required_scope = "chat:write"

-- `TERMINAL_TOKEN_ERRORS`
unfoldable pub is_terminal : String → Bool
is_terminal code =
    str_eq code "invalid_auth"
    || str_eq code "not_authed"
    || str_eq code "account_inactive"
    || str_eq code "token_expired"
    || str_eq code "token_revoked"
    || str_eq code "invalid_refresh_token"
    || str_eq code "refresh_token_revoked"

pub data Reason : Type 0 where
  missing expired revoked : Reason

-- `SlackUserOAuthRequiredError`, `SlackOAuthConfigurationError`, `SlackOAuthApiError`, and the others
-- that a call may throw.
pub data TokenError : Type 0 where
  required : Reason → TokenError
  configuration : TokenError
  api_error : String → TokenError
  other_error : TokenError

pub data Result {ℓ} (A : Type ℓ) : Type ℓ where
  ok : A → Result A
  throw : TokenError → Result A

pub record Identity : Type 0 where
  pub team_id : String
  pub user_id : String

-- `expires_in` is none if it is no safe integer.
pub record Rotation : Type 0 where
  pub access_token : String
  pub refresh_token : String
  pub scopes : List String
  pub expires_in : Option ℕ

pub data TokenKind : Type 0 where
  access refresh : TokenKind

abbrev pub all_required : List String → Bool
all_required [] = true
all_required (scope ∷ scopes) = str_eq scope required_scope && all_required scopes

unfoldable pub has_only_required_scope : List String → Bool
has_only_required_scope [] = false
has_only_required_scope (scope ∷ scopes) = all_required (scope ∷ scopes)

-- How the write of a grant ends: it is acknowledged, or the call throws and nothing was written, or it
-- throws although the row was written.
pub data Write : Type 0 where
  acknowledged rejected unacknowledged : Write

-- The outside world, as the service meets it. `joined` tells whether a refresh for the same user is
-- already in flight in this process, and how it ends. `none` for an error is a call that returns.
pub record World : Type 0 where
  pub others : ℕ → Table → Table
  pub now : ℕ → ℕ
  pub validate : ℕ → String → Result Identity
  pub exchange : ℕ → String → Result Rotation
  pub remote_revoke : ℕ → String → Option TokenError
  pub encrypt : ℕ → Identity → TokenKind → String → String
  pub decrypt : Identity → TokenKind → String → Result String
  pub joined : ℕ → Option (Option TokenError)
  pub writes : ℕ → Write
  pub rotation_enabled : Bool

-- `remote` holds the tokens that were handed to Slack's `auth.revoke`, the newest first.
pub record State : Type 0 where
  pub table : Table
  pub accesses : ℕ
  pub remote : List String

-- The table as the next access finds it.
abbrev pub arrive : World → State → State
arrive w s = record s { table = w.others s.accesses s.table; accesses = suc s.accesses }

abbrev pub given : Option String → Bool
given none = false
given (some t) = not (str_eq t "")

abbrev pub is_soon : World → State → Date → Bool
is_soon w s invalid = false
is_soon w s (time t) = leb t (w.now s.accesses + refresh_early_ms)

abbrev pub expires_soon : World → State → Option Date → Bool
expires_soon w s none = false
expires_soon w s (some date) = is_soon w s date

abbrev pub is_invalid_date : Option Date → Bool
is_invalid_date (some invalid) = true
is_invalid_date _ = false

-- `decrypt`
abbrev pub decrypt_envelope : World → Identity → TokenKind → Option String → Result String
decrypt_envelope w who kind none = throw (required expired)
decrypt_envelope w who kind (some envelope) =
    if str_eq envelope "" then throw (required expired) else w.decrypt who kind envelope

-- A call of `revokeIfUnchanged` for the token that was read.
unfoldable pub revoke_read : World → Identity → Token → State → State × Bool
revoke_read w who token s =
    let s' = arrive w s in
    let (t, done) =
      revoke_if_unchanged (w.now s'.accesses) who.team_id who.user_id token.encrypted_access_token
        token.encrypted_refresh_token s'.table in
    (record s' { table = t }, done)

-- What may follow a failed attempt: another one, if retries remain.
abbrev pub Retry : Type 0
Retry = Option (State → State × Result String)

abbrev pub retry_or : TokenError → Retry → State → State × Result String
retry_or e none s = (s, throw e)
retry_or e (some attempt) s = attempt s

-- `revokeStaleRecordOrRetry`
unfoldable pub revoke_stale : World → Identity → Token → Retry → State → State × Result String
unfolding revoke_read
revoke_stale w who token retry s =
    let (s', done) = revoke_read w who token s in
    if done then (s', throw (required revoked)) else retry_or (required revoked) retry s'

abbrev pub live_token : Identity → State → Option Token
live_token who s = get_token who.team_id who.user_id s.table

abbrev pub is_terminal_error : TokenError → Bool
is_terminal_error (api_error code) = is_terminal code
is_terminal_error _ = false
