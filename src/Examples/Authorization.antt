-- ===== src/Examples/Authorization.antt =====
-- An authorization that is begun, and its callback.
use shookie.Prelude.{◌+◌, ◌<◌, ◌≡◌, ◌≢◌, ◌⊎◌, String, true, false, none, some, [], ◌∷◌, refl, arith}
use shookie.Prelude.Text.{all_of}
use shookie.Prelude.Value.{obj, end}
use shookie.Oauth.Tokens.{unacknowledged, arrive, has_only_required_scope}
use shookie.Oauth.Tokens.Grants.{Grant, matches_rotation, is_malformed, save_grant, revoke_user}
use shookie.Oauth.States.{
  StateRecord, Platform, ttl_ms, is_state_value, create_state, delete_expired, consume_state,
  create, consume,
}
use shookie.Oauth.States.Once.{Member, Later, Reach, consume_once, consume-Issued}
use shookie.Oauth.Callback.{Callback, Outside, Site, process_callback, handle_callback}
use shookie.Oauth.Callback.Outcomes.{
  is_authorized, Saved, handle_callback-Saved, handle_callback-discarded,
}
use shookie.Examples.Oauth.{author, quiet_world, grant, one_token}

abbrev value : String
value = "abcdefghijklmnopqrstuvwxyz-ABCDEFGHIJ_01234"

abbrev plain : Platform
plain = record { hash = (λ t. t); trim = (λ t. t); units = (λ t. 6); encoded_bytes = (λ v. some 2) }

abbrev begun : StateRecord
begun = record {
  state_hash = value;
  who = author;
  context = obj end;
  expires_at = 0 + ttl_ms;
  created_at = 1;
}

begun-Reach : Reach plain (begun ∷ []) (begun ∷ [])
unfolding create create_state delete_expired
begun-Reach = Reach.issues 0 1 author (obj end) value Reach.start

consumed : (consume plain 2 value (begun ∷ [])).1 ≡ some begun
unfolding consume consume_state is_state_value all_of
consumed = refl

consume_once_example : (consume plain 9 value (consume plain 2 value (begun ∷ [])).0).1 ≡ none
consume_once_example =
    consume_once plain 2 9 value (begun ∷ []) (consume plain 2 value (begun ∷ [])).0 Later.here
      (omega arith)

abbrev site : Site
site = record { states = begun ∷ []; tokens = one_token }

abbrev callback : Callback
callback = record { state = value; error = ""; code = "c" }

-- The follow-up takes the token away again.
abbrev slack : Outside
slack = record {
  exchange_code = (λ code. some grant);
  on_authorized = some (λ r s. ((revoke_user quiet_world r.who s).0, true));
}

abbrev stranger : Grant
stranger = record grant { who = record { team_id = "T1"; user_id = "U9" } }

abbrev confused : Outside
confused = record { exchange_code = (λ code. some stranger); on_authorized = none }

told : is_authorized (handle_callback plain quiet_world slack 2 callback site).1 ≡ true
unfolding handle_callback process_callback consume consume_state is_state_value all_of save_grant
    is_malformed has_only_required_scope matches_rotation
told = refl

refused : is_authorized (handle_callback plain quiet_world confused 2 callback site).1 ≡ false
unfolding handle_callback process_callback consume consume_state is_state_value all_of
refused = refl

consume-Issued_example :
    Member begun (begun ∷ []) × (begun.state_hash ≡ plain.hash value) × (2 < begun.expires_at)
consume-Issued_example =
    consume-Issued plain 2 value (begun ∷ []) (begun ∷ []) begun begun-Reach consumed

handle_callback-Saved_example :
    (r : StateRecord) × ((consume plain 2 value (begun ∷ [])).1 ≡ some r)
    × Saved plain quiet_world slack r "c" one_token
        (handle_callback plain quiet_world slack 2 callback site).0.tokens
handle_callback-Saved_example = handle_callback-Saved plain quiet_world slack 2 callback site told

handle_callback-discarded_example :
    let after = (handle_callback plain quiet_world confused 2 callback site).0.tokens in
    (after.remote ≡ "xoxp-2" ∷ [])
    × (quiet_world.writes 0 ≢ unacknowledged
        → (after.table ≡ one_token.table) ⊎ (after.table ≡ (arrive quiet_world one_token).table))
handle_callback-discarded_example =
    handle_callback-discarded plain quiet_world confused 2 callback site begun stranger refl
      consumed refl refl refused
