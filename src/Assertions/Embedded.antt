-- ===== src/Assertions/Embedded.antt =====
-- verify of lib/tdf3/src/assertions.ts on a token whose header holds a key.
use web_sdk.Base.{
  ℕ, ◌≡◌, refl, sym, ap, ◌∙◌, Bool, List, [], ◌∷◌, Option, none, some, ok, >>=-eq-ok, subst,
}
use web_sdk.Assertions.{
  Environment, Assertion, AssertionKey, Claims, hash, verified_claims, verify, refuse_private,
  embedded_key, certificate,
}
use web_sdk.Jwt.{Key, pem, raw, public_key, private_key, symmetric_key, Header, verify_jwt}
use web_sdk.Jwt.Sound.{Accepted, verify_jwt-Accepted}
use web_sdk.Assertions.Binding.{verify-Checked}

module _ (environment : Environment) where
  refuse_private-eq : (given own : Key) → refuse_private environment given ≡ ok own → own ≡ given
  unfolding refuse_private
  refuse_private-eq (private_key k) own e = cc
  refuse_private-eq (pem text) own e = cc
  refuse_private-eq (raw bytes) own e = cc
  refuse_private-eq (public_key k) own e = cc
  refuse_private-eq (symmetric_key k) own e = cc

  -- With a JWK in the header, the result is the same for any two keys with the same algorithm that are not private.
  given_key_ignored :
      (thiz : Assertion) (aggregate_hash alg : List ℕ) (first second : Key) (is_legacy_tdf : Bool)
      (header : Header) (jwk : List ℕ)
      → environment.platform.decode_protected_header thiz.binding.signature ≡ ok header
      → header.jwk ≡ some jwk
      → refuse_private environment first ≡ ok first
      → refuse_private environment second ≡ ok second
      → verify environment thiz aggregate_hash (record { alg = alg; key = first }) is_legacy_tdf
        ≡ verify environment thiz aggregate_hash (record { alg = alg; key = second }) is_legacy_tdf
  unfolding verify verified_claims embedded_key
  given_key_ignored thiz aggregate_hash alg first second is_legacy_tdf header jwk read held f s =
      rw (read, f, s, held) refl

  -- The claims of a token that is verified with the JWK of its header.
  abbrev pub SignedByOwn : Assertion → List ℕ → Header → List ℕ → Claims → Type 0
  SignedByOwn thiz alg header jwk body =
      (text : List ℕ) × (environment.service.jwk_to_public_key_pem jwk ≡ ok text)
      × Accepted environment.service environment.platform (pem text) (alg ∷ [])
          thiz.binding.signature (header, body)

  embedded_key-jwk :
      (key_in_header x5c : Option (List ℕ)) (jwk : List ℕ) (given used : Key)
      → key_in_header ≡ some jwk
      → embedded_key environment key_in_header x5c given ≡ ok used
      → (text : List ℕ) × (environment.service.jwk_to_public_key_pem jwk ≡ ok text)
        × (used ≡ pem text)
  unfolding embedded_key
  embedded_key-jwk none x5c jwk given used held e = cc
  embedded_key-jwk (some held_jwk) x5c jwk given used held e =
      let (text, f, g) = >>=-eq-ok (environment.service.jwk_to_public_key_pem held_jwk) _ e in
      let same : held_jwk ≡ jwk = cc in
      (text, ap environment.service.jwk_to_public_key_pem (sym same) ∙ f, cc)

  verified_claims-jwk :
      (thiz : Assertion) (alg jwk : List ℕ) (given : Key) (header : Header) (body : Claims)
      → environment.platform.decode_protected_header thiz.binding.signature ≡ ok header
      → header.jwk ≡ some jwk
      → verified_claims environment thiz (record { alg = alg; key = given }) ≡ ok body
      → (refuse_private environment given ≡ ok given) × SignedByOwn thiz alg header jwk body
  unfolding verified_claims
  verified_claims-jwk thiz alg jwk given header body read held e =
      let platform = environment.platform in
      let token = thiz.binding.signature in
      let (header', e1, f1) = >>=-eq-ok (platform.decode_protected_header token) _ e in
      let (own, e2, f2) = >>=-eq-ok (refuse_private environment given) _ f1 in
      let (used, e3, f3) =
        >>=-eq-ok (embedded_key environment header'.jwk (certificate header'.x5c) own) _ f2 in
      let ((header'', claims'), e4, f4) =
        >>=-eq-ok (verify_jwt environment.service platform token used (some (alg ∷ []))) _ f3 in
      let one : header' ≡ header = cc in
      let (text, made, is_pem) =
        embedded_key-jwk header'.jwk _ jwk own used (ap (λ h. h.jwk) one ∙ held) e3 in
      let accepted =
        verify_jwt-Accepted environment.service platform used (alg ∷ []) token header'' claims'
          e4 in
      let same_header : header'' ≡ header = (let again = accepted.0 in cc) in
      let same_claims : claims' ≡ body = cc in
      (
        e2 ∙ ap ok (refuse_private-eq given own e2),
        (
          text,
          made,
          subst (λ k. Accepted environment.service platform k (alg ∷ []) token (header, body))
              is_pem
              (subst (λ h. Accepted environment.service platform used (alg ∷ []) token (h, body))
                same_header
                (subst
                  (λ c. Accepted environment.service platform used (alg ∷ []) token (header'', c))
                  same_claims accepted)),
        ),
      )

  -- When an assertion whose token holds a JWK in its header passes with a key, the token is accepted with that JWK, as
  -- the platform's PEM text, and with the algorithm of the key, with claims whose hash is that of the
  -- assertion; and the assertion passes with every other key of that algorithm that is not a private one.
  pub verify-embedded_key :
      (thiz : Assertion) (aggregate_hash alg : List ℕ) (given other : Key) (is_legacy_tdf : Bool)
      (header : Header) (jwk : List ℕ)
      → environment.platform.decode_protected_header thiz.binding.signature ≡ ok header
      → header.jwk ≡ some jwk
      → refuse_private environment other ≡ ok other
      → verify environment thiz aggregate_hash (record { alg = alg; key = given }) is_legacy_tdf
        ≡ ok tt
      → ((body : Claims) × (h : List ℕ) × SignedByOwn thiz alg header jwk body
          × (hash environment thiz ≡ ok h)
          × (body.assertion_hash ≡ some h))
        × (verify environment thiz aggregate_hash (record { alg = alg; key = other }) is_legacy_tdf
            ≡ ok tt)
  verify-embedded_key thiz aggregate_hash alg given other is_legacy_tdf header jwk read held fine
        passes =
      let key : AssertionKey = record { alg = alg; key = given } in
      let (body, h, encoded, e1, e2, e3, e4, e5) =
        verify-Checked environment thiz aggregate_hash key is_legacy_tdf passes in
      let (own, signed) = verified_claims-jwk thiz alg jwk given header body read held e1 in
      (
        (body, h, signed, e2, e4),
        sym (
              given_key_ignored thiz aggregate_hash alg given other is_legacy_tdf header jwk read
                held own fine)
            ∙ passes,
      )
