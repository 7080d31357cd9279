-- ===== src/Oauth/States.antt =====
-- database/src/slack-oauth-state.ts: the table of the authorizations that were begun, each statement at
-- the database's time; and shookie/src/slack/user-oauth/state-service.ts, `SlackOAuthStateService`.
pub mod Once
use Prim.Native.String
use shookie.Prelude.{
  ℕ, ◌+◌, ◌*◌, String, Bool, true, false, not, Option, none, some, List, [], ◌∷◌, ltb, leb, ◌==◌,
  ◌&&◌, ◌||◌, str_eq, length, select, if◌then◌else◌,
}
use shookie.Prelude.Text.{codes, is_upper, is_lower, is_digit, all_of}
use shookie.Prelude.Value.{Value}
use shookie.Oauth.Tokens.{Identity}

-- `SlackOAuthStateRecord`, the time of its creation included
pub record StateRecord : Type 0 where
  pub state_hash : String
  pub who : Identity
  pub context : Value
  pub expires_at : ℕ
  pub created_at : ℕ

abbrev pub has_hash : String → List StateRecord → Bool
has_hash hash [] = false
has_hash hash (r ∷ rows) = if str_eq r.state_hash hash then true else has_hash hash rows

-- `createSlackOAuthState`: none if it throws, since the hash is the primary key.
unfoldable pub create_state : ℕ → StateRecord → List StateRecord → Option (List StateRecord)
create_state now r rows =
    if has_hash r.state_hash rows then none else some (record r { created_at = now } ∷ rows)

-- Of this hash, and not expired.
abbrev pub is_live : ℕ → String → StateRecord → Bool
is_live now hash r = str_eq r.state_hash hash && ltb now r.expires_at

abbrev is_other : ℕ → String → StateRecord → Bool
is_other now hash r = not (is_live now hash r)

abbrev pub find_live : ℕ → String → List StateRecord → Option StateRecord
find_live now hash [] = none
find_live now hash (r ∷ rows) = if is_live now hash r then some r else find_live now hash rows

-- `consumeSlackOAuthState`: DELETE ... RETURNING
unfoldable pub consume_state : ℕ → String → List StateRecord → List StateRecord × Option StateRecord
consume_state now hash rows = (select (is_other now hash) rows, find_live now hash rows)

abbrev is_unexpired : ℕ → StateRecord → Bool
is_unexpired now r = ltb now r.expires_at

-- `deleteExpiredSlackOAuthStates`
unfoldable pub delete_expired : ℕ → List StateRecord → List StateRecord
delete_expired now rows = select (is_unexpired now) rows

abbrev pub ttl_ms : ℕ
ttl_ms = 10 * 60 * 1000

abbrev pub max_state_context_bytes : ℕ
max_state_context_bytes = 4096

-- [A-Za-z0-9_-]
abbrev is_url_unit : ℕ → Bool
is_url_unit c = is_upper c || is_lower c || is_digit c || c == b'_' || c == b'-'

-- `STATE_PATTERN`
unfoldable pub is_state_value : String → Bool
unfolding all_of
is_state_value value = length (codes value) == 43 && all_of is_url_unit (codes value)

-- SHA-256; JavaScript's `trim` and length; and the bytes of `JSON.stringify`, none if it throws.
pub record Platform : Type 0 where
  pub hash : String → String
  pub trim : String → String
  pub units : String → ℕ
  pub encoded_bytes : Value → Option ℕ

abbrev is_bad_id : Platform → String → Bool
is_bad_id p id = str_eq id "" || not (str_eq id (p.trim id)) || ltb 255 (p.units id)

abbrev is_bad_context : Option ℕ → Bool
is_bad_context none = true
is_bad_context (some bytes) = ltb max_state_context_bytes bytes

abbrev pub given_state :
    String → List StateRecord → Option (List StateRecord) → List StateRecord × Option String
given_state state rows none = (rows, none)
given_state state rows (some rows') = (rows', some state)

abbrev pub store_state :
    Bool → ℕ → StateRecord → String → List StateRecord → List StateRecord × Option String
store_state true db_now r state rows = (rows, none)
store_state false db_now r state rows =
    let left = delete_expired db_now rows in given_state state left (create_state db_now r left)

-- `create` at the process's time `now`, with the random text that is the state: none if it throws.
unfoldable pub create :
    Platform
    → ℕ
    → ℕ
    → Identity
    → Value
    → String
    → List StateRecord
    → List StateRecord × Option String
unfolding create_state delete_expired
create p now db_now who context state rows =
    store_state
      (is_bad_id p who.team_id
        || is_bad_id p who.user_id
        || is_bad_context (p.encoded_bytes context))
      db_now
      (record {
        state_hash = p.hash state;
        who = who;
        context = context;
        expires_at = now + ttl_ms;
        created_at = db_now;
      })
      state rows

-- `consume`
unfoldable pub consume :
    Platform → ℕ → String → List StateRecord → List StateRecord × Option StateRecord
unfolding consume_state
consume p now value rows =
    if is_state_value value then consume_state now (p.hash value) rows else (rows, none)
