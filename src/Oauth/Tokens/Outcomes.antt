-- ===== src/Oauth/Tokens/Outcomes.antt =====
-- shookie/src/slack/user-oauth/token-service.ts: which token an invalidation and a revocation take away.
use shookie.Prelude.{
  suc, String, Bool, true, Option, none, some, [], ◌∷◌, ◌≡◌, ◌≢◌, ◌⊎◌, refl, arith, Bool-cases,
  Option-cases, inl, inr, str_eq, eq_iff,
}
use shookie.Oauth.Store.{Token, revoke_if_unchanged}
use shookie.Oauth.Store.Fence.{revoke_if_unchanged_iff, revoke_erases}
use shookie.Oauth.Tokens.{
  Result, ok, throw, Identity, access, refresh, TokenError, World, State, arrive, given,
  decrypt_envelope, revoke_read, live_token,
}
use shookie.Oauth.Tokens.Grants.{
  revoke_remote, erase_token, revoke_user, invalidate_matching, invalidate_access_token,
}

Result-cases {ℓ} :
    {A : Type ℓ} (r : Result A) → ((a : A) × (r ≡ ok a)) ⊎ ((e : TokenError) × (r ≡ throw e))
Result-cases (ok a) = inl (a, refl)
Result-cases (throw e) = inr (e, refl)

-- The token is taken away: it decrypts to what is expected, and its ciphertexts still stood in the
-- table at the moment of the revocation.
pub record Invalidated (w : World) (who : Identity) (expected : String) (before after : State)
    : Type 0 where
  pub token : Token
  pub current : Token
  pub stored : live_token who before ≡ some token
  pub decrypted : w.decrypt who access token.encrypted_access_token ≡ ok expected
  pub still_stored : live_token who (arrive w before) ≡ some current
  pub unchanged : current.encrypted_access_token ≡ token.encrypted_access_token
  pub gone : live_token who after ≡ none
  pub told : after.remote ≡ expected ∷ before.remote

-- Nothing is taken away: the table is as others have left it, and Slack is told nothing.
abbrev pub Untouched : World → State → State → Type 0
Untouched w before after =
    (after.remote ≡ before.remote)
    × ((after.table ≡ before.table) ⊎ (after.table ≡ (arrive w before).table))

abbrev Correct : World → Identity → String → State → State × Result Bool → Type 0
Correct w who expected before r =
    (r.1 ≡ ok true → Invalidated w who expected before r.0)
    × (r.1 ≢ ok true → Untouched w before r.0)

invalidate_matching-Correct :
    (w : World) (who : Identity) (expected : String) (token : Token) (plain : Result String)
    (s : State)
    → live_token who s ≡ some token
    → decrypt_envelope w who access (some token.encrypted_access_token) ≡ plain
    → Correct w who expected s (invalidate_matching w who expected token plain s)
unfolding revoke_read
invalidate_matching-Correct w who expected token (throw e) s stored d =
    (λ h. ground (arith, h), λ h. (refl, inl refl))
invalidate_matching-Correct w who expected token (ok plain) s stored d =
    let cas =
      revoke_if_unchanged_iff (w.now (suc s.accesses)) who.team_id who.user_id
        token.encrypted_access_token token.encrypted_refresh_token (arrive w s).table in
    let done =
      (revoke_if_unchanged (w.now (suc s.accesses)) who.team_id who.user_id
        token.encrypted_access_token token.encrypted_refresh_token (arrive w s).table).1 in
    elim (Bool-cases (str_eq plain expected)) [
      | inr other ↦ rw other (λ h. ground (arith, h), λ h. (refl, inl refl))
      | inl same ↦ rw same (elim (Bool-cases done) [
        | inr lost ↦ rw lost (λ h. ground (arith, h), λ h. (refl, inr (cas.2 lost)))
        | inl won ↦ rw won (
          λ h. record {
            token = token;
            current = (cas.0.0 won).0;
            stored = stored;
            decrypted = ground (arith, d, same, eq_iff plain expected);
            still_stored = (cas.0.0 won).1;
            unchanged = (cas.0.0 won).2;
            gone = cas.1 won;
            told = refl;
          },
          λ h. absurd (h refl),
        )
      ])
    ]

-- Whatever other processes do, an invalidation that answers true has taken away the user's stored
-- token, which was the expected one, still stood there at that moment, and was handed to Slack for
-- revocation; with any other answer no token is taken away and Slack is told nothing.
pub invalidate_access_token_lem :
    (w : World) (who : Identity) (expected : String) (s : State)
    → ((invalidate_access_token w who expected s).1 ≡ ok true
        → Invalidated w who expected (arrive w s) (invalidate_access_token w who expected s).0)
      × ((invalidate_access_token w who expected s).1 ≢ ok true
          → Untouched w (arrive w s) (invalidate_access_token w who expected s).0)
unfolding invalidate_access_token
invalidate_access_token_lem w who expected s = elim (Option-cases (live_token who (arrive w s))) [
  | inl absent ↦ rw absent (λ h. ground (arith, h), λ h. (refl, inl refl))
  | inr (token, stored) ↦
      rw stored (invalidate_matching-Correct w who expected token _ (arrive w s) stored refl)
]

erase_token-gone :
    (w : World) (who : Identity) (r : State × Option TokenError)
    → live_token who (erase_token w who r).0 ≡ none
erase_token-gone w who (s, e) =
    revoke_erases (w.now (suc s.accesses)) who.team_id who.user_id (arrive w s).table

-- The token's ciphertext, or that of the refresh token that it comes with, does not decrypt.
abbrev pub Unreadable : World → Identity → Token → TokenError → Type 0
Unreadable w who token e =
    (decrypt_envelope w who access (some token.encrypted_access_token) ≡ throw e)
    ⊎ ((given token.encrypted_refresh_token ≡ true)
        × (decrypt_envelope w who refresh token.encrypted_refresh_token ≡ throw e))

-- A revocation leaves the user without a token, also when Slack's answers are errors, unless the stored
-- token or its refresh token does not decrypt: then that error is thrown, the table is kept, and Slack
-- is told nothing.
pub revoke_user_lem :
    (w : World) (who : Identity) (s : State)
    → (live_token who (revoke_user w who s).0 ≡ none)
      ⊎ ((token : Token) × (live_token who (arrive w s) ≡ some token)
          × ((e : TokenError) × Unreadable w who token e × ((revoke_user w who s).1 ≡ throw e))
          × ((revoke_user w who s).0 ≡ arrive w s))
unfolding revoke_user
revoke_user_lem w who s = elim (Option-cases (live_token who (arrive w s))) [
  | inl absent ↦ rw absent (inl absent)
  | inr (token, stored) ↦
      rw stored
        (elim (Result-cases (decrypt_envelope w who access (some token.encrypted_access_token))) [
          | inr (e, failed) ↦ rw failed (inr (token, refl, (e, inl failed, refl), refl))
          | inl (plain, readable) ↦
              rw readable (elim (Bool-cases (given token.encrypted_refresh_token)) [
                | inr single ↦
                    rw single
                      (inl (erase_token-gone w who (revoke_remote w (plain ∷ []) (arrive w s))))
                | inl double ↦
                    rw double
                      (elim (Result-cases
                        (decrypt_envelope w who refresh token.encrypted_refresh_token)) [
                          | inr (e, failed) ↦
                              rw failed (inr (token, refl, (e, inr (double, failed), refl), refl))
                          | inl (second, readable') ↦ rw readable' (
                              inl (
                                erase_token-gone w who
                                  (revoke_remote w (plain ∷ second ∷ []) (arrive w s))))
                        ])
              ])
        ])
]
