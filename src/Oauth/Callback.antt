-- ===== src/Oauth/Callback.antt =====
-- shookie/src/slack/user-oauth/controller.ts: the callback that ends an authorization. The exchange of the
-- code is Slack's answer, none if it throws; the follow-up, if there is one, is a parameter too. The
-- service of the tokens is that of Oauth/Tokens; `remote` of its state holds what was handed to Slack's
-- `auth.revoke`, the answers to which change nothing here.
pub mod Outcomes
use shookie.Prelude.{
  ℕ, String, Bool, true, false, not, Option, none, some, List, [], ◌∷◌, ◌&&◌, ◌||◌, str_eq,
  if◌then◌else◌,
}
use shookie.Oauth.Tokens.{Identity, TokenError, required, Result, ok, throw, World, State}
use shookie.Oauth.Tokens.Attempt.{get_access_token}
use shookie.Prelude.Value.{Value}
use shookie.Oauth.Tokens.Grants.{Grant, save_grant}
use shookie.Oauth.States.{StateRecord, Platform, create, consume}

-- The query of the request; a parameter that is missing is the empty text.
pub record Callback : Type 0 where
  pub state : String
  pub error : String
  pub code : String

-- How Slack answers, and what the application's follow-up does: it may use the service of the tokens, so
-- it takes their state and leaves another one, and tells whether it returned.
pub record Outside : Type 0 where
  pub exchange_code : String → Option Grant
  pub on_authorized : Option (StateRecord → State → State × Bool)

pub record Site : Type 0 where
  pub states : List StateRecord
  pub tokens : State

-- The status of the answer, and whether its page tells of success.
pub data Answer : Type 0 where
  answered : ℕ → Answer
  authorized : Bool → Answer
  thrown : Answer

-- The user has a token, or the authorization has begun with a state, or the call throws.
pub data Begun : Type 0 where
  already refused : Begun
  begun : String → Begun

abbrev pub is_same_identity : Identity → Identity → Bool
is_same_identity a b = str_eq a.team_id b.team_id && str_eq a.user_id b.user_id

abbrev pub hand_back : String → State → State
hand_back token s = if str_eq token "" then s else record s { remote = token ∷ s.remote }

abbrev pub hand_back_refresh : Option String → State → State
hand_back_refresh none s = s
hand_back_refresh (some token) s = hand_back token s

-- `discardGrant`
abbrev pub discard_grant : Grant → State → State
discard_grant g s = hand_back_refresh g.refresh_token (hand_back g.access_token s)

abbrev pub follow_up :
    Option (StateRecord → State → State × Bool) → StateRecord → State → State × Bool
follow_up none r s = (s, true)
follow_up (some act) r s = act r s

-- What follows `saveGrant`.
abbrev pub end_saved : Outside → StateRecord → Grant → State × Option TokenError → State × Answer
end_saved o r g (s, none) = let (s', told) = follow_up o.on_authorized r s in (s', authorized told)
end_saved o r g (s, some e) = (discard_grant g s, thrown)

-- The user has refused, or there is no code.
abbrev pub is_refused : Callback → Bool
is_refused c = not (str_eq c.error "") || str_eq c.code ""

module _ (p : Platform) (w : World) (o : Outside) where
  abbrev put_state : State → List StateRecord × Option String → Site × Begun
  put_state s (states, none) = (record { states = states; tokens = s }, refused)
  put_state s (states, some state) = (record { states = states; tokens = s }, begun state)

  abbrev after_access :
      ℕ → ℕ → Identity → Value → String → List StateRecord → State × Result String → Site × Begun
  after_access now db_now who context state states (s, ok token) =
      (record { states = states; tokens = s }, already)
  after_access now db_now who context state states (s, throw (required reason)) =
      put_state s (create p now db_now who context state states)
  after_access now db_now who context state states (s, throw e) =
      (record { states = states; tokens = s }, refused)

  -- `createAuthorizationUrl`, whose answer is given as the state that the URL carries
  unfoldable pub create_authorization_url : ℕ → ℕ → Identity → Value → String → Site → Site × Begun
  create_authorization_url now db_now who context state site =
      if str_eq who.team_id "" || str_eq who.user_id ""
      then (site, refused)
      else after_access now db_now who context state site.states
          (get_access_token w who site.tokens)

  abbrev pub take_grant : Bool → StateRecord → Grant → State → State × Answer
  take_grant true r g s = end_saved o r g (save_grant p.trim p.units w g s)
  take_grant false r g s = (discard_grant g s, answered 403)

  abbrev pub with_exchange : StateRecord → Option Grant → State → State × Answer
  with_exchange r none s = (s, thrown)
  with_exchange r (some g) s = take_grant (is_same_identity g.who r.who) r g s

  abbrev pub with_query : Bool → StateRecord → String → State → State × Answer
  with_query true r code s = (s, answered 400)
  with_query false r code s = with_exchange r (o.exchange_code code) s

  abbrev pub with_state : Callback → Option StateRecord → State → State × Answer
  with_state c none s = (s, answered 400)
  with_state c (some r) s = with_query (is_refused c) r c.code s

  abbrev pub put_tokens : List StateRecord → State × Answer → Site × Answer
  put_tokens states (s, answer) = (record { states = states; tokens = s }, answer)

  abbrev pub with_value : Bool → ℕ → Callback → Site → Site × Answer
  with_value true now c site = (site, answered 400)
  with_value false now c site =
      let (states, consumed) = consume p now c.state site.states in
      put_tokens states (with_state c consumed site.tokens)

  -- `processCallback`, at the database's time
  unfoldable pub process_callback : ℕ → Callback → Site → Site × Answer
  process_callback now c site = with_value (str_eq c.state "") now c site

  abbrev pub catch_callback : Site × Answer → Site × Answer
  catch_callback (site, thrown) = (site, answered 500)
  catch_callback (site, answer) = (site, answer)

  -- `handleCallback`
  unfoldable pub handle_callback : ℕ → Callback → Site → Site × Answer
  unfolding process_callback
  handle_callback now c site = catch_callback (process_callback now c site)
