-- ===== src/Cipher.antt =====
-- lib/tdf3/src/ciphers/aes-gcm-cipher.ts. The crypto service is a parameter, its operations taken for
-- one key: `encrypt payload iv` returns the ciphertext and perhaps an authentication tag apart, and
-- `decrypt ciphertext iv` takes the two as one.
pub mod Tests
use web_sdk.Base.{
  ℕ, ◌+◌, ◌≡◌, refl, sym, ap, ◌∙◌, List, [], ◌∷◌, ◌++◌, Option, none, some, Result, ok, err, length,
  take, drop, ◌>>=◌, take-append_exact, drop-append_exact, >>=-eq-ok,
}
use mathlib.Core.List.{flatten}
use web_sdk.Bytes.{concat_uint8}
use web_sdk.Bytes.Concat.{concat_uint8-eq-flatten}

pub record CryptoService : Type 0 where
  pub encrypt : List ℕ → List ℕ → Result (List ℕ × Option (List ℕ))
  pub decrypt : List ℕ → List ℕ → Result (List ℕ)
  pub hmac : List ℕ → Result (List ℕ)

abbrev tag_parts : Option (List ℕ) → List (List ℕ)
tag_parts none = []
tag_parts (some auth_tag) = auth_tag ∷ []

module _ (service : CryptoService) where
  unfoldable pub encrypt : List ℕ → List ℕ → Result (List ℕ)
  encrypt payload iv = do
    (ciphertext, auth_tag) ← service.encrypt payload iv
    ok (concat_uint8 (iv ∷ ciphertext ∷ tag_parts auth_tag))

  -- The native service and the others take the same two parts.
  unfoldable pub decrypt : List ℕ → Result (List ℕ)
  decrypt buffer = service.decrypt (drop 12 buffer) (take 12 buffer)

  -- What a service promises: a ciphertext with its tag behind it decrypts to its payload.
  pub Decrypts : Type 0
  Decrypts =
      (payload iv ciphertext : List ℕ) (auth_tag : Option (List ℕ))
      → service.encrypt payload iv ≡ ok (ciphertext, auth_tag)
      → service.decrypt (ciphertext ++ flatten (tag_parts auth_tag)) iv ≡ ok payload

  -- What `encrypt` makes of a payload with an initialization vector of 12 bytes, `decrypt` turns back
  -- into the payload, for a service that decrypts what it encrypts.
  pub decrypt-encrypt :
      (payload iv buffer : List ℕ)
      → Decrypts
      → length iv ≡ 12
      → encrypt payload iv ≡ ok buffer
      → decrypt buffer ≡ ok payload
  unfolding encrypt decrypt Decrypts flatten
  decrypt-encrypt payload iv buffer law h e =
      let ((ciphertext, auth_tag), s, t) = >>=-eq-ok (service.encrypt payload iv) _ e in
      let rest : List ℕ = ciphertext ++ flatten (tag_parts auth_tag) in
      let b : concat_uint8 (iv ∷ ciphertext ∷ tag_parts auth_tag) ≡ buffer = cc in
      let joined : buffer ≡ iv ++ rest =
        sym b ∙ concat_uint8-eq-flatten (iv ∷ ciphertext ∷ tag_parts auth_tag) in
      ap (λ r. service.decrypt (drop 12 r) (take 12 r)) joined
      ∙ rw (drop-append_exact 12 iv rest (sym h), take-append_exact 12 iv rest (sym h))
          (law payload iv ciphertext auth_tag s)
