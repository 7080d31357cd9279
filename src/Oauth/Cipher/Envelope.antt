-- ===== src/Oauth/Cipher/Envelope.antt =====
-- shookie/src/security/token-cipher.ts: what was encrypted for a user is decrypted for that user.
use shookie.Prelude.{
  ℕ, true, false, Option, none, some, [], ◌∷◌, ◌++◌, ◌≡◌, refl, ◌∙◌, ap, arith, ◌==◌, length,
}
use shookie.Prelude.Text.{all_of}
use shookie.Markdown.Texts.{Units, split, join, is_empty, extend_parts}
use shookie.Oauth.Cipher.{
  Bytes, TokenIdentity, Crypto, iv_length, envelope_version, same_text, is_base64url_unit,
  additional_data, decode_part, has_length, seal_parts, encrypt, decrypt_parts, decrypt,
}

same_text_refl : (text : Units) → same_text text text ≡ true
same_text_refl [] = refl
same_text_refl (c ∷ cs) = ground (arith, same_text_refl cs)

-- A part without the separator is cut off whole.
split-append :
    (part rest : Units)
    → all_of is_base64url_unit part ≡ true
    → split b':' (part ++ b':' ∷ rest) ≡ part ∷ split b':' rest
unfolding split all_of
split-append [] rest h = refl
split-append (c ∷ part) rest h =
    let other : (c == b':') ≡ false = ground (arith, h) in
    ap (extend_parts (c == b':') c) (split-append part rest (ground (arith, h)))
    ∙ ap (λ b. extend_parts b c (part ∷ split b':' rest)) other

split-last : (part : Units) → all_of is_base64url_unit part ≡ true → split b':' part ≡ part ∷ []
unfolding split all_of
split-last [] h = refl
split-last (c ∷ part) h =
    let other : (c == b':') ≡ false = ground (arith, h) in
    ap (extend_parts (c == b':') c) (split-last part (ground (arith, h)))
    ∙ ap (λ b. extend_parts b c (part ∷ [])) other

module _ (crypto : Crypto) where
  -- What base64url does with a byte string: its text has only its own units and is decoded again.
  pub record IsEncoded (bytes : Bytes) : Type 0 where
    pub given : is_empty (crypto.to_base64url bytes) ≡ false
    pub plain : all_of is_base64url_unit (crypto.to_base64url bytes) ≡ true
    pub decoded : crypto.from_base64url (crypto.to_base64url bytes) ≡ bytes

  decode_part-encoded :
      (bytes : Bytes) (expected : Option ℕ)
      → IsEncoded bytes
      → has_length expected bytes ≡ true
      → decode_part crypto (crypto.to_base64url bytes) expected ≡ some bytes
  unfolding decode_part
  decode_part-encoded bytes expected e l =
      rw (e.decoded, e.given, e.plain, same_text_refl (crypto.to_base64url bytes), l) refl

  split-seal_parts :
      (iv ciphertext tag : Bytes)
      → IsEncoded iv
      → IsEncoded tag
      → IsEncoded ciphertext
      → split b':' (seal_parts crypto envelope_version iv (ciphertext, tag))
        ≡ envelope_version
          ∷ crypto.to_base64url iv
          ∷ crypto.to_base64url tag
          ∷ crypto.to_base64url ciphertext
          ∷ []
  unfolding join all_of
  split-seal_parts iv ciphertext tag i t c =
      let cut_tag =
        split-append (crypto.to_base64url tag) (crypto.to_base64url ciphertext) t.plain in
      let cut_iv =
        split-append (crypto.to_base64url iv)
          (crypto.to_base64url tag ++ b':' ∷ crypto.to_base64url ciphertext) i.plain in
      split-append envelope_version
        (crypto.to_base64url iv
          ++ b':' ∷ (crypto.to_base64url tag ++ b':' ∷ crypto.to_base64url ciphertext))
        refl
      ∙ ap (λ parts. envelope_version ∷ parts)
          (cut_iv
            ∙ ap (λ parts. crypto.to_base64url iv ∷ parts)
                (cut_tag
                  ∙ ap (λ parts. crypto.to_base64url tag ∷ parts)
                      (split-last (crypto.to_base64url ciphertext) c.plain)))

  -- What base64url, the cipher and UTF-8 do with one token under one IV: each byte string is encoded and
  -- decoded again, the tag has its length, and what was sealed is unsealed with the same data.
  pub record Works (key iv : Bytes) (token : Units) (who : TokenIdentity) : Type 0 where
    pub iv_size : (length iv == iv_length) ≡ true
    pub iv_encoded : IsEncoded iv
    pub tag_size :
        (length (crypto.seal key iv (additional_data crypto who) (crypto.to_utf8 token)).1 == 16)
        ≡ true
    pub tag_encoded :
        IsEncoded (crypto.seal key iv (additional_data crypto who) (crypto.to_utf8 token)).1
    pub ciphertext_encoded :
        IsEncoded (crypto.seal key iv (additional_data crypto who) (crypto.to_utf8 token)).0
    pub unsealed :
        crypto.unseal key iv
          (additional_data crypto who)
          (crypto.seal key iv (additional_data crypto who) (crypto.to_utf8 token)).0
          (crypto.seal key iv (additional_data crypto who) (crypto.to_utf8 token)).1
        ≡ some (crypto.to_utf8 token)
    pub utf8 : crypto.from_utf8 (crypto.to_utf8 token) ≡ token

  -- A token that is not empty is encrypted, and the envelope decrypts for the same user and kind to the
  -- token, if the cipher, base64url and UTF-8 give back what they were given.
  pub decrypt-encrypt :
      (key iv : Bytes) (token : Units) (who : TokenIdentity)
      → is_empty token ≡ false
      → Works key iv token who
      → (envelope : Units) × (encrypt crypto key iv token who ≡ some envelope)
        × (decrypt crypto key envelope who ≡ some token)
  unfolding encrypt decrypt
  decrypt-encrypt key iv [] who n w = cc
  decrypt-encrypt key iv (c ∷ cs) who n w =
      let sealed = crypto.seal key iv (additional_data crypto who) (crypto.to_utf8 (c ∷ cs)) in
      (
        seal_parts crypto envelope_version iv sealed,
        refl,
        ap (decrypt_parts crypto key who) (
              split-seal_parts iv sealed.0 sealed.1 w.iv_encoded w.tag_encoded w.ciphertext_encoded)
            ∙ rw
                (
                  decode_part-encoded iv (some iv_length) w.iv_encoded w.iv_size,
                  decode_part-encoded sealed.1 (some 16) w.tag_encoded w.tag_size,
                  decode_part-encoded sealed.0 none w.ciphertext_encoded refl,
                  w.unsealed,
                  w.utf8,
                )
                refl,
      )
