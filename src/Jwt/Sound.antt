-- ===== src/Jwt/Sound.antt =====
-- What verifyJwt of lib/tdf3/src/crypto/jwt.ts has checked of a token that it accepts.
use web_sdk.Base.{
  ℕ, ◌≡◌, Bool, true, false, List, [], ◌∷◌, ◌++◌, Option, some, Result, ok, Returns, Returns-bind,
  Returns-eq_ok, arith, Bool-cases, inl, inr,
}
use web_sdk.Jwt.{
  Key, pem, raw, public_key, private_key, symmetric_key, Header, CryptoService, Platform, hs256,
  unsecured, check_alg, allowed, verify_signature, verify_symmetric, verify_jwt, split, three_parts,
  accept, base64url_decode_bytes,
}
use web_sdk.Kas.{includes}
use web_sdk.Zip.Reader.{same_units}

-- A key that must not be taken for the secret of an HMAC.
abbrev pub is_public : Key → Bool
is_public (pem text) = true
is_public (public_key k) = true
is_public key = false

check_alg-eq :
    (algorithms : List (List ℕ)) (alg : List ℕ)
    → check_alg (some algorithms) alg ≡ ok tt
    → (includes same_units alg algorithms ≡ true) × (same_units alg unsecured ≡ false)
unfolding check_alg allowed
check_alg-eq algorithms [] e = cc
check_alg-eq algorithms (a ∷ alg) e = elim (Bool-cases (same_units (a ∷ alg) unsecured)) [
  | inl bad ↦ let e' = rw bad at e in cc
  | inr fine ↦ elim (Bool-cases (includes same_units (a ∷ alg) algorithms)) [
    | inl listed ↦ (listed, fine)
    | inr other ↦ let e' = rw (fine, other) at e in cc
  ]
]

module _ (service : CryptoService) where
  verify_signature-public :
      (alg input signature : List ℕ) (key : Key)
      → is_public key ≡ true
      → verify_signature service alg input signature key ≡ ok true
      → same_units alg hs256 ≡ false
  unfolding verify_signature verify_symmetric
  verify_signature-public alg input signature (pem text) h e =
      elim (Bool-cases (same_units alg hs256)) [
        | inl bad ↦ let e' = rw bad at e in cc
        | inr fine ↦ fine
      ]
  verify_signature-public alg input signature (public_key k) h e =
      elim (Bool-cases (same_units alg hs256)) [
        | inl bad ↦ let e' = rw bad at e in cc
        | inr fine ↦ fine
      ]
  verify_signature-public alg input signature (raw k) h e = cc
  verify_signature-public alg input signature (private_key k) h e = cc
  verify_signature-public alg input signature (symmetric_key k) h e = cc

  accept-valid :
      {Payload Claims : Type 0} (platform : Platform Payload Claims) (r : Result Bool)
      (valid extension : Bool) (b64 : Option Bool)
      → accept service platform valid extension b64 ≡ ok tt
      → r ≡ ok valid
      → r ≡ ok true
  unfolding accept
  accept-valid platform r true extension b64 e f = f
  accept-valid platform r false extension b64 e f = cc

  module _ {Payload Claims : Type 0} (platform : Platform Payload Claims) (key : Key)
      (algorithms : List (List ℕ)) where
    -- The signature is valid for the first two parts of the token, and the claims are those of the second.
    abbrev pub Signed : List ℕ → Header → Claims → Type 0
    Signed token header claims =
        (header_b64 payload_b64 signature_b64 signature payload_bytes : List ℕ) × (split b'.' token
          ≡ header_b64 ∷ payload_b64 ∷ signature_b64 ∷ [])
        × (base64url_decode_bytes signature_b64 ≡ ok signature)
        × (verify_signature service header.alg
              (platform.text_encode (header_b64 ++ b'.' ∷ payload_b64)) signature key
            ≡ ok true)
        × (base64url_decode_bytes payload_b64 ≡ ok payload_bytes)
        × (platform.jwt_claims_set header payload_bytes ≡ ok claims)

    abbrev pub Accepted : List ℕ → Header × Claims → Type 0
    Accepted token (header, claims) =
        (platform.decode_protected_header token ≡ ok header)
        × Signed token header claims
        × (includes same_units header.alg algorithms ≡ true)
        × (same_units header.alg unsecured ≡ false)
        × (is_public key ≡ true → same_units header.alg hs256 ≡ false)

    three_parts-eq :
        (parts : List (List ℕ)) (a b c : List ℕ)
        → three_parts parts ≡ ok (a, b, c)
        → parts ≡ a ∷ b ∷ c ∷ []
    unfolding three_parts
    three_parts-eq [] a b c e = cc
    three_parts-eq (x ∷ []) a b c e = cc
    three_parts-eq (x ∷ y ∷ []) a b c e = cc
    three_parts-eq (x ∷ y ∷ z ∷ []) a b c e = ground arith
    three_parts-eq (x ∷ y ∷ z ∷ w ∷ more) a b c e = cc

    Returns-Accepted :
        (token : List ℕ)
        → Returns (Accepted token) (verify_jwt service platform token key (some algorithms))
    unfolding verify_jwt
    Returns-Accepted token =
        Returns-bind (Accepted token) (three_parts (split b'.' token)) _ (λ (a, b, c) parts.
          Returns-bind (Accepted token) (platform.decode_protected_header token) _ (λ header e.
            Returns-bind (Accepted token) (check_alg (some algorithms) header.alg) _ (λ checked f.
              Returns-bind (Accepted token) (platform.validate_crit header) _ (λ extension g.
                Returns-bind (Accepted token) (base64url_decode_bytes c) _ (λ signature h.
                  Returns-bind (Accepted token)
                    (verify_signature service header.alg _ signature key) _
                    (λ valid i.
                      Returns-bind (Accepted token)
                        (accept service platform valid extension header.b64) _
                        (λ accepted j.
                          Returns-bind (Accepted token) (base64url_decode_bytes b) _
                            (λ payload_bytes k.
                              Returns-bind (Accepted token)
                                (platform.jwt_claims_set header payload_bytes) _
                                (λ claims l.
                                  let verified =
                                    accept-valid platform _ valid extension header.b64 j i in
                                  (
                                    e,
                                    (
                                      a,
                                      b,
                                      c,
                                      signature,
                                      payload_bytes,
                                      three_parts-eq (split b'.' token) a b c parts,
                                      h,
                                      verified,
                                      k,
                                      l,
                                    ),
                                    (check_alg-eq algorithms header.alg f).0,
                                    (check_alg-eq algorithms header.alg f).1,
                                    λ public.
                                        verify_signature-public header.alg _ signature key public
                                          verified,
                                  ))))))))))

    -- When `verifyJwt`, given a list of algorithms, accepts a token with a header and claims, the header is that of the
    -- token; the token has three parts, the last of them a signature of the other two that is valid under the
    -- key, and the claims are read from the second; the header's algorithm is one of the list and not "none",
    -- and not HS256 if the key is a public one or a PEM text.
    pub verify_jwt-Accepted :
        (token : List ℕ) (header : Header) (claims : Claims)
        → verify_jwt service platform token key (some algorithms) ≡ ok (header, claims)
        → Accepted token (header, claims)
    verify_jwt-Accepted token header claims accepted =
        Returns-eq_ok (Accepted token) (verify_jwt service platform token key (some algorithms))
          (Returns-Accepted token) accepted
