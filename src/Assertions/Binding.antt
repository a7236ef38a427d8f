-- ===== src/Assertions/Binding.antt =====
-- What an assertion that verify of lib/tdf3/src/assertions.ts accepts is bound to.
use web_sdk.Base.{
  ℕ, ◌<◌, ◌≡◌, refl, sym, ap, ◌∙◌, Bool, true, false, List, ◌++◌, Option, none, some, ok, err,
  Error, >>=-eq-ok, if◌then◌else◌, All-append,
}
use mathlib.Core.List.{append_cancel_right}
use web_sdk.Encodings.Base64
use web_sdk.Encodings.Base64.RoundTrip.{decode_array_buffer-encode_array_buffer}
use web_sdk.Encodings.Base64.Shape.{Bytes}
use web_sdk.Encodings.Hex
use web_sdk.Encodings.Hex.Digits.{decode_array_buffer-Bytes}
use web_sdk.Granter.Records.{same_units_eq}
use web_sdk.Assertions.{
  Environment, Assertion, AssertionKey, Claims, claims, rethrown, hash, verified_claims,
  expected_sig, verify,
}
use web_sdk.Assertions.Verified.{rethrown-eq_ok}

claims-eq :
    (claimed : Option (List ℕ)) (expected : List ℕ)
    → claims claimed expected ≡ true
    → claimed ≡ some expected
unfolding claims
claims-eq none expected e = cc
claims-eq (some x) expected e = ap some (sym (same_units_eq expected x e))

check-eq :
    (b : Bool) {done : Unit {0}} → (if b then ok tt else err Error.integrity) ≡ ok done → b ≡ true
check-eq true e = refl
check-eq false e = cc

module _ (environment : Environment) where
  -- The claims of a token, and what they are compared with.
  abbrev pub Checked : Assertion → List ℕ → AssertionKey → Bool → Type 0
  Checked a aggregate_hash key is_legacy_tdf =
      (body : Claims) × (h encoded : List ℕ) × (verified_claims environment a key ≡ ok body)
      × (hash environment a ≡ ok h)
      × (expected_sig environment is_legacy_tdf aggregate_hash h ≡ ok encoded)
      × (body.assertion_hash ≡ some h)
      × (body.assertion_sig ≡ some encoded)

  pub verify-Checked :
      (a : Assertion) (aggregate_hash : List ℕ) (key : AssertionKey) (is_legacy_tdf : Bool)
      → verify environment a aggregate_hash key is_legacy_tdf ≡ ok tt
      → Checked a aggregate_hash key is_legacy_tdf
  unfolding verify
  verify-Checked a aggregate_hash key is_legacy_tdf e =
      let (body, e1, f1) =
        >>=-eq-ok (rethrown Error.invalid_file (verified_claims environment a key)) _ e in
      let (h, e2, f2) = >>=-eq-ok (hash environment a) _ f1 in
      let (done, e3, f3) =
        >>=-eq-ok (if claims body.assertion_hash h then ok tt else err Error.integrity) _ f2 in
      let (encoded, e4, f4) =
        >>=-eq-ok (expected_sig environment is_legacy_tdf aggregate_hash h) _ f3 in
      (
        body,
        h,
        encoded,
        rethrown-eq_ok _ _ e1,
        e2,
        e4,
        claims-eq body.assertion_hash h (check-eq _ e3),
        claims-eq body.assertion_sig encoded (check-eq _ f4),
      )

  -- Only the token and the key say what the claims are.
  verified_claims-binding :
      (a b : Assertion) (key : AssertionKey)
      → a.binding.signature ≡ b.binding.signature
      → verified_claims environment a key ≡ verified_claims environment b key
  unfolding verified_claims
  verified_claims-binding a b key e = rw e refl

  expected_sig-inj :
      (h encoded first second : List ℕ)
      → Bytes first
      → Bytes second
      → expected_sig environment false first h ≡ ok encoded
      → expected_sig environment false second h ≡ ok encoded
      → first ≡ second
  unfolding expected_sig
  expected_sig-inj h encoded first second p q e f =
      let (d, e1, e2) = >>=-eq-ok (Hex.decode_array_buffer h) _ e in
      let (d', f1, f2) = >>=-eq-ok (Hex.decode_array_buffer h) _ f in
      let bytes = decode_array_buffer-Bytes h e1 in
      let same_text : Base64.encode_array_buffer false (first ++ d)
          ≡ Base64.encode_array_buffer false (second ++ d) =
        cc in
      let same : ok (first ++ d) ≡ ok (second ++ d) =
        sym (
          decode_array_buffer-encode_array_buffer false (first ++ d)
            (All-append (λ b. b < 256) first d p bytes))
        ∙ ap Base64.decode_array_buffer same_text
        ∙ decode_array_buffer-encode_array_buffer false (second ++ d)
            (All-append (λ b. b < 256) second d q bytes) in
      append_cancel_right first second d (cc)

  -- One token binds one aggregate hash and one content: when two assertions with the same signature pass with
  -- the same key in a TDF that is not a legacy one, their hashes are equal, and so are the aggregate hashes that they
  -- were verified with.
  pub verify-bound :
      (a b : Assertion) (first second : List ℕ) (key : AssertionKey)
      → Bytes first
      → Bytes second
      → a.binding.signature ≡ b.binding.signature
      → verify environment a first key false ≡ ok tt
      → verify environment b second key false ≡ ok tt
      → (hash environment a ≡ hash environment b) × (first ≡ second)
  verify-bound a b first second key p q same e f =
      let (body, h, encoded, e1, e2, e3, e4, e5) = verify-Checked a first key false e in
      let (body', h', encoded', f1, f2, f3, f4, f5) = verify-Checked b second key false f in
      let claimed : ok body ≡ ok body' = sym e1 ∙ verified_claims-binding a b key same ∙ f1 in
      let one : body ≡ body' = cc in
      let both_hash : some h ≡ some h' = sym e4 ∙ ap (λ r. r.assertion_hash) one ∙ f4 in
      let both_sig : some encoded ≡ some encoded' = sym e5 ∙ ap (λ r. r.assertion_sig) one ∙ f5 in
      let same_hash : h ≡ h' = cc in
      let same_sig : encoded ≡ encoded' = cc in
      (
        e2 ∙ ap ok same_hash ∙ sym f2,
        expected_sig-inj h encoded first second p q e3
            (ap (expected_sig environment false second) same_hash ∙ f3 ∙ ap ok (sym same_sig)),
      )
