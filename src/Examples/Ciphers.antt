-- ===== src/Examples/Ciphers.antt =====
-- A cipher that hides nothing, with bytes written as letters.
use shookie.Prelude.{◌+◌, ◌-◌, some, [], ◌∷◌, ◌≡◌, refl, map}
use shookie.Prelude.Text.{codes, all_of}
use shookie.Markdown.Texts.{Units}
use shookie.Oauth.Cipher.{Bytes, access, TokenIdentity, Crypto, encrypt, decrypt}
use shookie.Oauth.Cipher.Envelope.{Works, decrypt-encrypt}

abbrev sixteen : Bytes
sixteen = 0 ∷ 0 ∷ 0 ∷ 0 ∷ 0 ∷ 0 ∷ 0 ∷ 0 ∷ 0 ∷ 0 ∷ 0 ∷ 0 ∷ 0 ∷ 0 ∷ 0 ∷ 0 ∷ []

abbrev twelve : Bytes
twelve = 1 ∷ 1 ∷ 1 ∷ 1 ∷ 1 ∷ 1 ∷ 1 ∷ 1 ∷ 1 ∷ 1 ∷ 1 ∷ 1 ∷ []

abbrev open_cipher : Crypto
open_cipher = record {
  to_base64url = (λ bytes. map (λ b. b + 65) bytes);
  from_base64url = (λ text. map (λ c. c - 65) text);
  to_utf8 = (λ text. text);
  from_utf8 = (λ bytes. bytes);
  seal = (λ key iv aad plain. (plain, sixteen));
  unseal = (λ key iv aad ciphertext tag. some ciphertext);
}

abbrev owner : TokenIdentity
owner = record { team_id = codes "T1"; user_id = codes "U1"; kind = access }

abbrev short_token : Units
short_token = 3 ∷ 1 ∷ 4 ∷ []

open_cipher-Works : Works open_cipher [] twelve short_token owner
unfolding all_of
open_cipher-Works = record {
  iv_size = refl;
  iv_encoded = record { given = refl; plain = refl; decoded = refl };
  tag_size = refl;
  tag_encoded = record { given = refl; plain = refl; decoded = refl };
  ciphertext_encoded = record { given = refl; plain = refl; decoded = refl };
  unsealed = refl;
  utf8 = refl;
}

decrypt-encrypt_example :
    (envelope : Units) × (encrypt open_cipher [] twelve short_token owner ≡ some envelope)
    × (decrypt open_cipher [] envelope owner ≡ some short_token)
decrypt-encrypt_example =
    decrypt-encrypt open_cipher [] twelve short_token owner refl open_cipher-Works
