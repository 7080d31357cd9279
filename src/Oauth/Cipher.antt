-- ===== src/Oauth/Cipher.antt =====
-- shookie/src/security/token-cipher.ts: the envelope of an encrypted token. A text is the list of its
-- UTF-16 units. The cryptography, base64url and UTF-8 are parameters, and so is the random IV.
pub mod Envelope
use shookie.Prelude.{
  ℕ, Bool, true, false, not, Option, none, some, List, [], ◌∷◌, ◌++◌, ◌==◌, ◌&&◌, ◌||◌,
  if◌then◌else◌, length,
}
use shookie.Prelude.Text.{codes, is_upper, is_lower, is_digit, all_of}
use shookie.Markdown.Texts.{Units, split, join, is_empty}

abbrev pub Bytes : Type 0
Bytes = List ℕ

pub data TokenKind : Type 0 where
  access refresh : TokenKind

pub record TokenIdentity : Type 0 where
  pub team_id : Units
  pub user_id : Units
  pub kind : TokenKind

-- `seal` gives the ciphertext and the authentication tag; `unseal` none if it throws.
pub record Crypto : Type 0 where
  pub to_base64url : Bytes → Units
  pub from_base64url : Units → Bytes
  pub to_utf8 : Units → Bytes
  pub from_utf8 : Bytes → Units
  pub seal : Bytes → Bytes → Bytes → Bytes → Bytes × Bytes
  pub unseal : Bytes → Bytes → Bytes → Bytes → Bytes → Option Bytes

abbrev pub iv_length : ℕ
iv_length = 12

abbrev pub envelope_version : Units
envelope_version = codes "v1"

abbrev pub kind_text : TokenKind → Units
kind_text access = codes "access"
kind_text refresh = codes "refresh"

abbrev pub same_text : Units → Units → Bool
same_text [] [] = true
same_text (a ∷ left) (b ∷ right) = a == b && same_text left right
same_text _ _ = false

-- [A-Za-z0-9_-]
abbrev pub is_base64url_unit : ℕ → Bool
is_base64url_unit c = is_upper c || is_lower c || is_digit c || c == b'_' || c == b'-'

abbrev pub has_length : Option ℕ → Bytes → Bool
has_length none bytes = true
has_length (some n) bytes = length bytes == n

module _ (crypto : Crypto) where
  -- `buildAdditionalAuthenticatedData`
  unfoldable pub additional_data : TokenIdentity → Bytes
  additional_data who =
      crypto.to_utf8
        (codes "slack-user-token" ++ 0 ∷ who.team_id ++ 0 ∷ who.user_id ++ 0 ∷ kind_text who.kind)

  -- `decodeEnvelopePart`, none if it throws
  unfoldable pub decode_part : Units → Option ℕ → Option Bytes
  unfolding all_of
  decode_part value expected =
      let decoded = crypto.from_base64url value in
      if not (is_empty value)
        && all_of is_base64url_unit value
        && same_text (crypto.to_base64url decoded) value
        && has_length expected decoded
      then some decoded
      else none

  abbrev pub seal_parts : Units → Bytes → Bytes × Bytes → Units
  seal_parts version iv (ciphertext, tag) = join (b':' ∷ []) (
      version
      ∷ crypto.to_base64url iv
      ∷ crypto.to_base64url tag
      ∷ crypto.to_base64url ciphertext
      ∷ [])

  -- `encrypt` with a random IV, none if it throws
  unfoldable pub encrypt : Bytes → Bytes → Units → TokenIdentity → Option Units
  unfolding additional_data join
  encrypt key iv [] who = none
  encrypt key iv (c ∷ cs) who = some (
      seal_parts envelope_version iv
        (crypto.seal key iv (additional_data who) (crypto.to_utf8 (c ∷ cs))))

  abbrev pub to_text : Option Bytes → Option Units
  to_text none = none
  to_text (some plain) = some (crypto.from_utf8 plain)

  abbrev pub open_parts : Bytes → Bytes → Option Bytes → Option Bytes → Option Bytes → Option Units
  open_parts key aad (some iv) (some tag) (some ciphertext) =
      to_text (crypto.unseal key iv aad ciphertext tag)
  open_parts key aad _ _ _ = none

  abbrev pub decrypt_parts : Bytes → TokenIdentity → List Units → Option Units
  decrypt_parts key who (version ∷ iv ∷ tag ∷ ciphertext ∷ []) =
      if same_text version envelope_version
      then open_parts key (additional_data who) (decode_part iv (some iv_length))
          (decode_part tag (some 16)) (decode_part ciphertext none)
      else none
  decrypt_parts key who _ = none

  -- `decrypt`, none if it throws
  unfoldable pub decrypt : Bytes → Units → TokenIdentity → Option Units
  unfolding decode_part additional_data
  decrypt key envelope who = decrypt_parts key who (split b':' envelope)
