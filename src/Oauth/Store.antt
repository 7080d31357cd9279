-- ===== src/Oauth/Store.antt =====
-- database/src/slack-user-oauth.ts: the table of Slack user tokens. Its primary key is the team and
-- the user, so that the table is a function of them; each function is one statement at the database's
-- time `now`.
pub mod Fence
use shookie.Prelude.{
  ℕ, String, Bool, true, false, Option, none, some, List, [], not, ◌&&◌, str_eq, is_some,
  if◌then◌else◌,
}

-- A JavaScript Date: a time in milliseconds, or an invalid one.
pub data Date : Type 0 where
  time : ℕ → Date
  invalid : Date

pub record Token : Type 0 where
  pub encrypted_access_token : String
  pub encrypted_refresh_token : Option String
  pub scopes : List String
  pub expires_at : Option Date

-- `SlackUserOAuthTokenRow` and its `revoked_at`
pub record Row : Type 0 where
  pub token : Token
  pub created_at : ℕ
  pub updated_at : ℕ
  pub revoked_at : Option ℕ

abbrev pub Table : Type 0
Table = String → String → Option Row

unfoldable pub put : String → String → Option Row → Table → Table
put team user row t team' user' =
    if str_eq team team' && str_eq user user' then row else t team' user'

abbrev created : ℕ → Option Row → ℕ
created now none = now
created now (some row) = row.created_at

-- `saveSlackUserOAuthToken`
unfoldable pub save : ℕ → String → String → Token → Table → Table
unfolding put
save now team user token t =
    put team user
      (some (record {
        token = token;
        created_at = created now (t team user);
        updated_at = now;
        revoked_at = none;
      }))
      t

abbrev live : Option Row → Option Token
live none = none
live (some row) = if is_some row.revoked_at then none else some row.token

-- `getSlackUserOAuthToken`
unfoldable pub get_token : String → String → Table → Option Token
get_token team user t = live (t team user)

abbrev pub same_text : Option String → Option String → Bool
same_text none none = true
same_text (some a) (some b) = str_eq a b
same_text _ _ = false

-- An UPDATE of the unrevoked row that matches, and whether it met one.
abbrev update_row :
    (Token → Bool) → (Row → Row) → String → String → Table → Option Row → Table × Bool
update_row p f team user t none = (t, false)
update_row p f team user t (some row) =
    if not (is_some row.revoked_at) && p row.token
    then (put team user (some (f row)) t, true)
    else (t, false)

abbrev has_refresh : String → Token → Bool
has_refresh expected token = same_text token.encrypted_refresh_token (some expected)

-- `replaceRotatedSlackUserOAuthToken`
unfoldable pub replace_rotated : ℕ → String → String → String → Token → Table → Table × Bool
unfolding put
replace_rotated now team user expected token t =
    update_row (has_refresh expected) (λ row. record row { token = token; updated_at = now }) team
      user t (t team user)

abbrev pub revoked_token : Token
revoked_token = record {
  encrypted_access_token = "revoked";
  encrypted_refresh_token = none;
  scopes = [];
  expires_at = none;
}

abbrev pub revoke_row : ℕ → Row → Row
revoke_row now row = record row { token = revoked_token; revoked_at = some now; updated_at = now }

abbrev any_token : Token → Bool
any_token token = true

-- `revokeSlackUserOAuthToken`
unfoldable pub revoke : ℕ → String → String → Table → Table × Bool
unfolding put
revoke now team user t = update_row any_token (revoke_row now) team user t (t team user)

abbrev pub is_unchanged : String → Option String → Token → Bool
is_unchanged access refresh token =
    str_eq token.encrypted_access_token access && same_text token.encrypted_refresh_token refresh

-- `revokeSlackUserOAuthTokenIfUnchanged`
unfoldable pub revoke_if_unchanged :
    ℕ → String → String → String → Option String → Table → Table × Bool
unfolding put
revoke_if_unchanged now team user access refresh t =
    update_row (is_unchanged access refresh) (revoke_row now) team user t (t team user)

-- `deleteSlackUserOAuthToken`
unfoldable pub delete : String → String → Table → Table × Bool
unfolding put
delete team user t = (put team user none t, is_some (t team user))
