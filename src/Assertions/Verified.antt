-- ===== src/Assertions/Verified.antt =====
-- An assertion that CreateAssertion of lib/tdf3/src/assertions.ts makes passes verify.
use web_sdk.Base.{
  ℕ, ◌≡◌, refl, ◌∙◌, Bool, true, false, List, [], ◌∷◌, some, Result, ok, err, Error, Returns,
  Returns-bind, Returns-of, Returns-eq_ok,
}
use web_sdk.Granter.Records.{same_units_refl}
use web_sdk.Jwt.{Key, check_alg, sign_jwt}
use web_sdk.Jwt.RoundTrip.{Reads, KeyPair, verify_jwt-sign_jwt, sign_jwt-header}
use web_sdk.Assertions.{
  Environment, Assertion, AssertionPayload, Claims, AssertionKey, AssertionConfig, AggregateHash,
  as_text, as_bytes, SpecVersion, v4_2_2, v4_3_0, Bound, header_of, rethrown, certificate, hash,
  signing_material, sign, encoded_hash, create_with, create_assertion, unsigned, refuse_private,
  embedded_key, verified_claims, expected_sig, verify,
}

-- The claims of a token of `sign`, as they are read.
abbrev pub claims_of : AssertionPayload → Claims
claims_of p = record {
  assertion_hash = some p.assertion_hash;
  assertion_sig = some p.assertion_sig;
}

pub rethrown-eq_ok {ℓ} :
    {A : Type ℓ} (e : Error) (r : Result A) {a : A} → rethrown e r ≡ ok a → r ≡ ok a
unfolding rethrown
rethrown-eq_ok e (err f) h = cc
rethrown-eq_ok e (ok a) h = h

module _ (text_decode : List ℕ → List ℕ) where
  -- A version and an aggregate hash that an assertion is made for, and what it is verified with: whether the TDF is
  -- a legacy one, and the bytes of the hash.
  pub data Target : SpecVersion → AggregateHash → Bool → List ℕ → Type 0 where
    current : (bytes : List ℕ) → Target v4_3_0 (as_bytes bytes) false bytes
    legacy :
        {text : List ℕ} (bytes : List ℕ)
        → text_decode bytes ≡ text
        → Target v4_2_2 (as_text text) true bytes

module _ (environment : Environment) where
  open environment use {service, platform, canonicalize, text_decode}

  encoded_hash-expected_sig :
      {version : SpecVersion} {aggregate_hash : AggregateHash} {is_legacy_tdf : Bool}
      {bytes : List ℕ}
      → Target text_decode version aggregate_hash is_legacy_tdf bytes
      → (h : List ℕ)
      → expected_sig environment is_legacy_tdf bytes h
        ≡ encoded_hash environment version aggregate_hash h
  unfolding encoded_hash expected_sig
  encoded_hash-expected_sig (current bytes) h = refl
  encoded_hash-expected_sig (legacy bytes e) h = rw e refl

  -- What `hash` excludes does not change it.
  abbrev pub ExcludesBound : Type 0
  ExcludesBound =
      (a : Assertion) (b : Bound) → canonicalize (record a { binding = b }) ≡ canonicalize a

  module _ (excludes : ExcludesBound) (key : AssertionKey) (material verification : Key)
      (reads : Reads platform (header_of key.alg) claims_of)
      (material_of_key : signing_material environment key.key ≡ ok material)
      (pair : KeyPair service key.alg material verification)
      (algorithm : check_alg (some (key.alg ∷ [])) key.alg ≡ ok tt)
      (not_private : refuse_private environment verification ≡ ok verification) where
    verified_claims-sign :
        (thiz : Assertion) (p : AssertionPayload)
        → Returns
            (λ token.
              verified_claims environment
                (record thiz {
                  binding = record { method = thiz.binding.method; signature = token };
                })
                (record { alg = key.alg; key = verification })
              ≡ ok (claims_of p))
            (sign_jwt service platform p material (header_of key.alg))
    unfolding verified_claims embedded_key certificate
    verified_claims-sign thiz p =
        let header = header_of key.alg in
        Returns-of _ (sign_jwt service platform p material header) (λ token e.
          let read =
            Returns-eq_ok _ (sign_jwt service platform p material header)
              (sign_jwt-header service platform header claims_of reads material p) e in
          let accepted =
            Returns-eq_ok _ (sign_jwt service platform p material header)
              (verify_jwt-sign_jwt service platform header claims_of reads (some (key.alg ∷ []))
                material verification algorithm pair p)
              e in
          rw (read, not_private, accepted) refl)

    hash-binding :
        (a : Assertion) (b : Bound)
        → hash environment (record a { binding = b }) ≡ hash environment a
    unfolding hash
    hash-binding a b = rw (excludes a b) refl

    abbrev Passes : Bool → List ℕ → Assertion → Type 0
    Passes is_legacy_tdf bytes a =
        verify environment a bytes (record { alg = key.alg; key = verification }) is_legacy_tdf
        ≡ ok tt

    -- An assertion that is made with one key of a pair passes with the other: with the aggregate hash that it was
    -- made for, as the version of the TDF has it.
    pub verify-create_assertion :
        {version : SpecVersion} {aggregate_hash : AggregateHash} {is_legacy_tdf : Bool}
        {bytes : List ℕ}
        → Target text_decode version aggregate_hash is_legacy_tdf bytes
        → (config : AssertionConfig) → config.signing_key ≡ some key
        → Returns
            (Passes is_legacy_tdf bytes)
            (create_assertion environment aggregate_hash config (some version))
    unfolding create_assertion create_with sign verify verified_claims
    verify-create_assertion {version} {aggregate_hash} {is_legacy_tdf} {bytes} target config given =
        let a = unsigned environment config in
        let P = Passes is_legacy_tdf bytes in
        rw (given, material_of_key)
          (Returns-bind P (hash environment a) _ (λ h e.
            Returns-bind P (encoded_hash environment version aggregate_hash h) _ (λ encoded f.
              let p : AssertionPayload = record { assertion_hash = h; assertion_sig = encoded } in
              let made = sign_jwt service platform p material (header_of key.alg) in
              Returns-bind P (rethrown Error.configuration made) _ (λ token g.
                let verified =
                  Returns-eq_ok _ made (verified_claims-sign a p) (rethrown-eq_ok _ made g) in
                let expected = encoded_hash-expected_sig target h ∙ f in
                rw
                  (
                    verified,
                    hash-binding a _,
                    e,
                    same_units_refl h,
                    expected,
                    same_units_refl encoded,
                  )
                  refl))))
