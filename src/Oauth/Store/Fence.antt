-- ===== src/Oauth/Store/Fence.antt =====
-- database/src/slack-user-oauth.ts: an update that names the ciphertexts it has read changes the row
-- only while they stand in it.
use shookie.Prelude.{
  ℕ, String, true, false, Option, none, some, ◌≡◌, ◌↔◌, refl, arith, Option-cases, inl, inr, str_eq,
  eq_iff, ◌&&◌,
}
use shookie.Oauth.Store.{
  Token, Row, Table, put, save, get_token, same_text, replace_rotated, revoke, revoke_row,
  revoke_if_unchanged, delete,
}

put_self : (team user : String) (row : Option Row) (t : Table) → put team user row t team user ≡ row
unfolding put
put_self team user row t = ground (arith, eq_iff team team, eq_iff user user)

same_text_iff : (a b : Option String) → same_text a b ≡ true ↔ a ≡ b
same_text_iff none none = (λ h. refl, λ h. refl)
same_text_iff none (some b) = (λ h. ground (arith, h), λ h. ground (arith, h))
same_text_iff (some a) none = (λ h. ground (arith, h), λ h. ground (arith, h))
same_text_iff (some a) (some b) =
    (λ h. ground (arith, h, eq_iff a b), λ h. ground (arith, h, eq_iff a b))

-- A conditional revocation succeeds exactly if the stored token is there, unrevoked, with both
-- ciphertexts as they were read; then no token is left, and otherwise the table is unchanged.
pub revoke_if_unchanged_iff :
    (now : ℕ) (team user access : String) (refresh : Option String) (t : Table)
    → ((revoke_if_unchanged now team user access refresh t).1 ≡ true ↔ (
        (token : Token) × (get_token team user t ≡ some token)
        × (token.encrypted_access_token ≡ access)
        × (token.encrypted_refresh_token ≡ refresh)))
      × ((revoke_if_unchanged now team user access refresh t).1 ≡ true
          → get_token team user (revoke_if_unchanged now team user access refresh t).0 ≡ none)
      × ((revoke_if_unchanged now team user access refresh t).1 ≡ false
          → (revoke_if_unchanged now team user access refresh t).0 ≡ t)
unfolding revoke_if_unchanged get_token
revoke_if_unchanged_iff now team user access refresh t = elim (Option-cases (t team user)) [
  | inl absent ↦
      rw absent
        ((λ h. ground (arith, h), λ h. ground (arith, h)), λ h. ground (arith, h), λ h. refl)
  | inr (row, found) ↦ rw found (
    (
      λ h. (
        row.token,
        ground (arith, h),
        ground (arith, h, eq_iff row.token.encrypted_access_token access),
        ground (arith, h, same_text_iff row.token.encrypted_refresh_token refresh),
      ),
      λ h. ground (
        arith,
        h.1,
        h.2,
        h.3,
        eq_iff row.token.encrypted_access_token access,
        same_text_iff row.token.encrypted_refresh_token refresh,
      ),
    ),
    λ h. ground (arith, h, put_self team user (some (revoke_row now row)) t),
    λ h. ground (arith, h),
  )
]

pub revoke_erases :
    (now : ℕ) (team user : String) (t : Table)
    → get_token team user (revoke now team user t).0 ≡ none
unfolding revoke get_token
revoke_erases now team user t = elim (Option-cases (t team user)) [
  | inl absent ↦ rw absent (rw absent refl)
  | inr (row, found) ↦
      rw found (ground (arith, found, put_self team user (some (revoke_row now row)) t))
]

-- A rotated token is stored exactly if the stored refresh ciphertext is there, unrevoked, and the one
-- that was exchanged; then the new token is read back, and otherwise the table is unchanged.
pub replace_rotated_iff :
    (now : ℕ) (team user expected : String) (token : Token) (t : Table)
    → ((replace_rotated now team user expected token t).1 ≡ true ↔ (
        (old : Token) × (get_token team user t ≡ some old)
        × (old.encrypted_refresh_token ≡ some expected)))
      × ((replace_rotated now team user expected token t).1 ≡ true
          → get_token team user (replace_rotated now team user expected token t).0 ≡ some token)
      × ((replace_rotated now team user expected token t).1 ≡ false
          → (replace_rotated now team user expected token t).0 ≡ t)
unfolding replace_rotated get_token
replace_rotated_iff now team user expected token t = elim (Option-cases (t team user)) [
  | inl absent ↦
      rw absent
        ((λ h. ground (arith, h), λ h. ground (arith, h)), λ h. ground (arith, h), λ h. refl)
  | inr (row, found) ↦ rw found (
    (
      λ h. (
        row.token,
        ground (arith, h),
        ground (arith, h, same_text_iff row.token.encrypted_refresh_token (some expected)),
      ),
      λ h.
          ground (arith, h.1, h.2, same_text_iff row.token.encrypted_refresh_token (some expected)),
    ),
    λ h.
        ground
          (arith, h, put_self team user (some (record row { token = token; updated_at = now })) t),
    λ h. ground (arith, h),
  )
]

-- A saved token is read back, also after a revocation, until it is revoked or deleted; nobody else's
-- token is changed by any of these.
pub get_token-save :
    (now later : ℕ) (team user : String) (token : Token) (t : Table)
    → (get_token team user (save now team user token t) ≡ some token)
      × (get_token team user (save later team user token (revoke now team user t).0) ≡ some token)
      × (get_token team user (revoke later team user (save now team user token t)).0 ≡ none)
      × (get_token team user (delete team user (save now team user token t)).0 ≡ none)
      × ((team' user' : String)
          → (str_eq team team' && str_eq user user') ≡ false
          → (get_token team' user' (save now team user token t) ≡ get_token team' user' t)
            × (get_token team' user' (revoke now team user t).0 ≡ get_token team' user' t)
            × (get_token team' user' (delete team user t).0 ≡ get_token team' user' t))
unfolding get_token save revoke delete put
get_token-save now later team user token t = (
  ground (arith, eq_iff team team, eq_iff user user),
  ground (arith, eq_iff team team, eq_iff user user),
  ground (arith, eq_iff team team, eq_iff user user),
  ground (arith, eq_iff team team, eq_iff user user),
  λ team' user' h. (ground (arith, h), ground (arith, h), ground (arith, h)),
)
