-- ===== src/Jwt/RoundTrip.antt =====
-- A token of signJwt, verified by verifyJwt (lib/tdf3/src/crypto/jwt.ts).
use web_sdk.Base.{
  ℕ, ◌≡◌, refl, true, false, List, ◌∷◌, ◌++◌, Option, ok, Returns, Returns-bind, append_assoc,
}
use web_sdk.Encodings.Base64.Shape.{Bytes}
use web_sdk.Jwt.{
  Key, Header, CryptoService, Platform, base64url_encode, check_alg, signature_of, verify_signature,
  signing_input, sign_jwt, verify_jwt, three_parts,
}
use web_sdk.Jwt.Base64Url.{base64url_decode_bytes-encode, base64url_encode-Dotless, split-token}

-- What is documented of the platform and of jose, at a header: a text is encoded by bytes, the first part of a token is
-- its header, and the claims that are read are those that were written. The header names no extension.
pub record Reads {Payload Claims : Type 0} (platform : Platform Payload Claims) (header : Header)
    (claims_of : Payload → Claims) : Type 0 where
  pub encodes : (text : List ℕ) → Bytes (platform.text_encode text)
  pub reads_header :
      (rest : List ℕ)
      → platform.decode_protected_header (
          base64url_encode (platform.text_encode (platform.stringify_header header)) ++ b'.' ∷ rest)
        ≡ ok header
  pub reads_claims :
      (payload : Payload)
      → platform.jwt_claims_set header (platform.text_encode (platform.stringify_payload payload))
        ≡ ok (claims_of payload)
  pub no_extension : platform.validate_crit header ≡ ok false

-- That what one key signs, in bytes, the other one verifies.
unfoldable pub KeyPair : CryptoService → List ℕ → Key → Key → Type 0
KeyPair service alg signing verification =
    (input signature : List ℕ)
    → signature_of service alg input signing ≡ ok signature
    → Bytes signature × (verify_signature service alg input signature verification ≡ ok true)

module _ (service : CryptoService) {Payload Claims : Type 0} (platform : Platform Payload Claims)
    (header : Header) (claims_of : Payload → Claims) (reads : Reads platform header claims_of) where
  -- A token that is signed with one key of a pair, `verifyJwt` accepts with the other, if its algorithm is one of
  -- those allowed, and returns its header and claims.
  pub verify_jwt-sign_jwt :
      (algorithms : Option (List (List ℕ))) (signing verification : Key)
      → check_alg algorithms header.alg ≡ ok tt
      → KeyPair service header.alg signing verification
      → (payload : Payload)
      → Returns
          (λ token.
            verify_jwt service platform token verification algorithms
            ≡ ok (header, claims_of payload))
          (sign_jwt service platform payload signing header)
  unfolding sign_jwt signing_input verify_jwt three_parts KeyPair
  verify_jwt-sign_jwt algorithms signing verification allowed pair payload =
      let h = platform.text_encode (platform.stringify_header header) in
      let p = platform.text_encode (platform.stringify_payload payload) in
      let input = base64url_encode h ++ b'.' ∷ base64url_encode p in
      let encodes = reads.encodes in
      rw reads.no_extension (
        Returns-bind _ (signature_of service header.alg (platform.text_encode input) signing) _
          (λ signature e.
            let (bytes, valid) = pair (platform.text_encode input) signature e in
            rw
              (
                split-token (base64url_encode h) (base64url_encode p) (base64url_encode signature)
                    (base64url_encode-Dotless h (encodes _))
                    (base64url_encode-Dotless p (encodes _))
                    (base64url_encode-Dotless signature bytes),
                append_assoc (base64url_encode h) (b'.' ∷ base64url_encode p)
                    (b'.' ∷ base64url_encode signature),
                reads.reads_header (base64url_encode p ++ b'.' ∷ base64url_encode signature),
                allowed,
                reads.no_extension,
                base64url_decode_bytes-encode signature bytes,
                valid,
              )
              (rw (base64url_decode_bytes-encode p (encodes _), reads.reads_claims payload) refl)))

  -- The header of a token that is signed can be read.
  pub sign_jwt-header :
      (signing : Key) (payload : Payload)
      → Returns
          (λ token. platform.decode_protected_header token ≡ ok header)
          (sign_jwt service platform payload signing header)
  unfolding sign_jwt signing_input
  sign_jwt-header signing payload =
      let h = platform.text_encode (platform.stringify_header header) in
      let p = platform.text_encode (platform.stringify_payload payload) in
      let input = base64url_encode h ++ b'.' ∷ base64url_encode p in
      rw reads.no_extension (
        Returns-bind _ (signature_of service header.alg (platform.text_encode input) signing) _
          (λ signature e.
            rw
              (append_assoc (base64url_encode h) (b'.' ∷ base64url_encode p)
                (b'.' ∷ base64url_encode signature))
              (reads.reads_header (base64url_encode p ++ b'.' ∷ base64url_encode signature))))
