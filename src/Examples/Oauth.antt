-- ===== src/Examples/Oauth.antt =====
-- The token service of one user, with a Slack that confirms every token and a cipher that hides nothing.
use shookie.Prelude.{true, false, none, some, [], ◌∷◌, ◌≡◌, ◌≢◌, ◌⊎◌, refl}
use shookie.Oauth.Store.{Token, Table, put, save, get_token, revoke_if_unchanged}
use shookie.Oauth.Tokens.{
  ok, throw, other_error, acknowledged, TokenError, Identity, World, State, arrive, live_token,
  has_only_required_scope,
}
use shookie.Oauth.Tokens.Attempt.{get_access_token, get_with_retry, attempt}
use shookie.Oauth.Tokens.Grants.{Grant, invalidate_access_token, revoke_user}
use shookie.Oauth.Tokens.Access.{Usable, get_access_token-Usable}
use shookie.Oauth.Tokens.Outcomes.{
  Invalidated, Untouched, Unreadable, invalidate_access_token_lem, revoke_user_lem,
}

abbrev pub author : Identity
author = record { team_id = "T1"; user_id = "U1" }

abbrev pub quiet_world : World
quiet_world = record {
  others = λ n t. t;
  now = λ n. 1000;
  validate = λ n token. ok author;
  exchange = λ n token. throw other_error;
  remote_revoke = λ n token. none;
  encrypt = λ n who kind plain. plain;
  decrypt = λ who kind envelope. ok envelope;
  joined = λ n. none;
  writes = λ n. acknowledged;
  rotation_enabled = false;
}

abbrev stored_token : Token
stored_token = record {
  encrypted_access_token = "xoxp-1";
  encrypted_refresh_token = none;
  scopes = "chat:write" ∷ [];
  expires_at = none;
}

abbrev no_rows : Table
no_rows team user = none

abbrev pub one_token : State
one_token = record { table = save 5 "T1" "U1" stored_token no_rows; accesses = 0; remote = [] }

abbrev pub grant : Grant
grant = record {
  who = author;
  access_token = "xoxp-2";
  refresh_token = none;
  scopes = "chat:write" ∷ [];
  expires_given = false;
  expires_in = none;
}

token_found : get_token "T1" "U1" one_token.table ≡ some stored_token
unfolding get_token save put
token_found = refl

handed_out : (get_access_token quiet_world author one_token).1 ≡ ok "xoxp-1"
unfolding get_access_token get_with_retry attempt get_token save put has_only_required_scope
handed_out = refl

taken_away : (invalidate_access_token quiet_world author "xoxp-1" one_token).1 ≡ ok true
unfolding invalidate_access_token get_token save put revoke_if_unchanged
taken_away = refl

get_access_token-Usable_example :
    Usable quiet_world author "xoxp-1" (get_access_token quiet_world author one_token).0
get_access_token-Usable_example =
    get_access_token-Usable quiet_world author one_token "xoxp-1" handed_out

invalidate_access_token_lem_example :
    ((invalidate_access_token quiet_world author "xoxp-1" one_token).1 ≡ ok true
      → Invalidated quiet_world author "xoxp-1"
          (arrive quiet_world one_token)
          (invalidate_access_token quiet_world author "xoxp-1" one_token).0)
    × ((invalidate_access_token quiet_world author "xoxp-1" one_token).1 ≢ ok true
        → Untouched quiet_world
            (arrive quiet_world one_token)
            (invalidate_access_token quiet_world author "xoxp-1" one_token).0)
invalidate_access_token_lem_example =
    invalidate_access_token_lem quiet_world author "xoxp-1" one_token

revoke_user_lem_example :
    (live_token author (revoke_user quiet_world author one_token).0 ≡ none)
    ⊎ ((token : Token) × (live_token author (arrive quiet_world one_token) ≡ some token)
        × ((e : TokenError) × Unreadable quiet_world author token e
            × ((revoke_user quiet_world author one_token).1 ≡ throw e))
        × ((revoke_user quiet_world author one_token).0 ≡ arrive quiet_world one_token))
revoke_user_lem_example = revoke_user_lem quiet_world author one_token
