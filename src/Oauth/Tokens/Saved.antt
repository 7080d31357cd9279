-- ===== src/Oauth/Tokens/Saved.antt =====
-- shookie/src/slack/user-oauth/token-service.ts: what `saveGrant` leaves in the table.
use shookie.Prelude.{
  ℕ, String, true, false, none, some, ◌≡◌, ◌≢◌, ◌⊎◌, Option, refl, arith, Bool-cases, Option-cases,
  inl, inr, is_some,
}
use shookie.Oauth.Store.{Token}
use shookie.Oauth.Store.Fence.{get_token-save}
use shookie.Oauth.Tokens.{
  configuration, TokenError, Write, acknowledged, rejected, unacknowledged, World, State, arrive,
  live_token, has_only_required_scope, is_invalid_date,
}
use shookie.Oauth.Tokens.Grants.{
  Grant, matches_rotation, granted_token, is_malformed, put_grant, write_grant, save_grant,
}

-- The token passes the checks that `getAccessToken` makes of a stored token, but for its expiry.
pub record IsConsistent (w : World) (token : Token) : Type 0 where
  pub rotation : is_some token.encrypted_refresh_token ≡ w.rotation_enabled
  pub expiry : is_some token.expires_at ≡ w.rotation_enabled
  pub valid : is_invalid_date token.expires_at ≡ false
  pub scoped : has_only_required_scope token.scopes ≡ true

matches-IsConsistent :
    (w : World) (g : Grant) (n : ℕ)
    → matches_rotation w.rotation_enabled g ≡ true
    → IsConsistent w (granted_token w g n)
unfolding matches_rotation has_only_required_scope
matches-IsConsistent w g n h = elim (Option-cases g.refresh_token) [
  | inl absent ↦ record {
    rotation = ground (arith, h, absent);
    expiry = ground (arith, h, absent);
    valid = ground (arith, h, absent);
    scoped = refl;
  }
  | inr (t, found) ↦ record {
    rotation = ground (arith, h, found);
    expiry = ground (arith, h, found);
    valid = ground (arith, h, found);
    scoped = refl;
  }
]

-- What a save leaves when it throws: nothing was done, or nothing but others' work was, or the token is
-- stored although the call threw.
abbrev pub Failed : World → Grant → State → State → Type 0
Failed w g before after =
    (after.remote ≡ before.remote)
    × (w.writes before.accesses ≢ unacknowledged
        → (after.table ≡ before.table) ⊎ (after.table ≡ (arrive w before).table))

-- What a save leaves when it returns.
pub record Stored (w : World) (g : Grant) (before after : State) : Type 0 where
  pub scoped : has_only_required_scope g.scopes ≡ true
  pub found : live_token g.who after ≡ some (granted_token w g before.accesses)
  pub consistent : IsConsistent w (granted_token w g before.accesses)

put_grant-found :
    (w : World) (g : Grant) (s : State)
    → live_token g.who (put_grant w g s) ≡ some (granted_token w g s.accesses)
put_grant-found w g s =
    (get_token-save (w.now (arrive w s).accesses) 0 g.who.team_id g.who.user_id
      (granted_token w g s.accesses) (arrive w s).table).0

abbrev Correct : World → Grant → State → State × Option TokenError → Type 0
Correct w g s r = (r.1 ≡ none → Stored w g s r.0) × (r.1 ≢ none → Failed w g s r.0)

refused-Correct : (w : World) (g : Grant) (s : State) (e : TokenError) → Correct w g s (s, some e)
refused-Correct w g s e = (λ h. cc, λ h. (refl, λ n. inl refl))

write_grant-Correct :
    (w : World) (g : Grant) (s : State) (write : Write)
    → w.writes s.accesses ≡ write
    → has_only_required_scope g.scopes ≡ true
    → matches_rotation w.rotation_enabled g ≡ true
    → Correct w g s (write_grant write w g s)
write_grant-Correct w g s acknowledged e scoped same = (
  λ h. record {
    scoped = scoped;
    found = put_grant-found w g s;
    consistent = matches-IsConsistent w g s.accesses same;
  },
  λ h. absurd (h refl),
)
write_grant-Correct w g s rejected e scoped same = (λ h. cc, λ h. (refl, λ n. inr refl))
write_grant-Correct w g s unacknowledged e scoped same = (λ h. cc, λ h. (refl, λ n. absurd (n e)))

-- A grant that is saved is read back, and passes the checks that a later read makes of it; if the save
-- throws, the table is as it was or as others have left it, unless the row was written all the same.
pub save_grant_lem :
    (trim : String → String) (units : String → ℕ) (w : World) (g : Grant) (s : State)
    → ((save_grant trim units w g s).1 ≡ none → Stored w g s (save_grant trim units w g s).0)
      × ((save_grant trim units w g s).1 ≢ none → Failed w g s (save_grant trim units w g s).0)
unfolding save_grant
save_grant_lem trim units w g s = elim (Bool-cases (is_malformed trim units g)) [
  | inl bad ↦ rw bad (refused-Correct w g s configuration)
  | inr fine ↦ rw fine (elim (Bool-cases (has_only_required_scope g.scopes)) [
    | inr wide ↦ rw wide (refused-Correct w g s configuration)
    | inl scoped ↦ rw scoped (elim (Bool-cases (matches_rotation w.rotation_enabled g)) [
      | inr other ↦ rw other (refused-Correct w g s configuration)
      | inl same ↦ rw same (write_grant-Correct w g s (w.writes s.accesses) refl scoped same)
    ])
  ])
]
