-- ===== src/Assertions.antt =====
-- CreateAssertion, sign and verify of lib/tdf3/src/assertions.ts, over lib/tdf3/src/crypto/jwt.ts. `canonicalize` is
-- canonicalizeEx with the members that `hash` excludes, `text_decode` the platform's TextDecoder and `encode` is
-- `base64.encode`. A member of the claims that is missing is `none`.
pub mod Verified
pub mod Binding
pub mod Embedded
mod Tests
use web_sdk.Base.{
  ℕ, Bool, true, false, List, [], ◌∷◌, ◌++◌, Option, none, some, Result, ok, err, Error,
  if◌then◌else◌, ◌>>=◌,
}
use web_sdk.Encodings.Base64
use web_sdk.Encodings.Hex
use web_sdk.Jwt.{
  Key, pem, raw, public_key, private_key, symmetric_key, Header, CryptoService, Platform, sign_jwt,
  verify_jwt,
}
use web_sdk.Zip.Reader.{same_units}

pub data AssertionType : Type 0 where
  handling other : AssertionType

pub data Scope : Type 0 where
  tdo payload : Scope

pub data AppliesToState : Type 0 where
  encrypted unencrypted : AppliesToState

pub record Statement : Type 0 where
  pub format : List ℕ
  pub schema : List ℕ
  pub value : List ℕ

-- What binds an assertion to the payload.
pub record Bound : Type 0 where
  pub method : List ℕ
  pub signature : List ℕ

pub record Assertion : Type 0 where
  pub id : List ℕ
  pub type : AssertionType
  pub scope : Scope
  pub applies_to_state : Option AppliesToState
  pub statement : Statement
  pub binding : Bound

pub record AssertionPayload : Type 0 where
  pub assertion_hash : List ℕ
  pub assertion_sig : List ℕ

-- The payload of a token, taken for an `AssertionPayload`.
pub record Claims : Type 0 where
  pub assertion_hash : Option (List ℕ)
  pub assertion_sig : Option (List ℕ)

pub record AssertionKey : Type 0 where
  pub alg : List ℕ
  pub key : Key

pub record AssertionConfig : Type 0 where
  pub id : List ℕ
  pub type : AssertionType
  pub scope : Scope
  pub applies_to_state : AppliesToState
  pub statement : Statement
  pub signing_key : Option AssertionKey

-- The aggregate hash as `CreateAssertion` takes it.
pub data AggregateHash : Type 0 where
  as_text as_bytes : List ℕ → AggregateHash

pub data SpecVersion : Type 0 where
  v4_2_2 v4_3_0 unknown : SpecVersion

abbrev jws : List ℕ
jws = b'j' ∷ b'w' ∷ b's' ∷ []

-- The header of the tokens that `sign` makes.
abbrev pub header_of : List ℕ → Header
header_of alg = record { alg = alg; b64 = none; jwk = none; x5c = [] }

-- `concatenateUint8Arrays` writes the two into an array of their common length.
unfoldable pub concatenate_uint8_arrays : List ℕ → List ℕ → List ℕ
concatenate_uint8_arrays array1 array2 = array1 ++ array2

unfoldable pub claims : Option (List ℕ) → List ℕ → Bool
unfolding same_units
claims none expected = false
claims (some claimed) expected = same_units expected claimed

-- An error of any class in the `try` of `verify`, or of `signJwt` in `sign`, is thrown as another one.
unfoldable pub rethrown {ℓ} : {A : Type ℓ} → Error → Result A → Result A
rethrown as_error (err e) = err as_error
rethrown as_error (ok a) = ok a

unfoldable pub certificate : List (List ℕ) → Option (List ℕ)
certificate [] = none
certificate (c ∷ cs) = some c

pub record Environment : Type 0 where
  pub service : CryptoService
  pub platform : Platform AssertionPayload Claims
  pub canonicalize : Assertion → List ℕ
  -- The certificate between its two PEM lines.
  pub pem_of_certificate : List ℕ → List ℕ
  pub text_decode : List ℕ → List ℕ
  pub encode : List ℕ → List ℕ

module _ (environment : Environment) where
  open environment use {service, platform, canonicalize, pem_of_certificate, text_decode, encode}

  unfoldable pub hash : Assertion → Result (List ℕ)
  hash a = do
    hash_bytes ← service.digest (platform.text_encode (canonicalize a))
    ok (Hex.encode_array_buffer hash_bytes)

  unfoldable pub import_with : Option (List ℕ → Result (List ℕ)) → List ℕ → Result Key
  import_with none text = err Error.configuration
  import_with (some import_private_key) text = do k ← import_private_key text; ok (private_key k)

  unfoldable pub signing_material : Key → Result Key
  unfolding import_with
  signing_material (public_key k) = err Error.configuration
  signing_material (pem text) = import_with service.import_private_key text
  signing_material (raw bytes) = do k ← service.import_symmetric_key bytes; ok (symmetric_key k)
  signing_material (private_key k) = ok (private_key k)
  signing_material (symmetric_key k) = ok (symmetric_key k)

  unfoldable pub sign : Assertion → List ℕ → List ℕ → AssertionKey → Result Assertion
  unfolding signing_material rethrown
  sign thiz assertion_hash sig key = do
    material ← signing_material key.key
    let signed : AssertionPayload = record { assertion_hash = assertion_hash; assertion_sig = sig }
    token ←
        rethrown Error.configuration (sign_jwt service platform signed material (header_of key.alg))
    ok (record thiz { binding = record { method = jws; signature = token } })

  -- What is signed of the two hashes when an assertion is made.
  unfoldable pub encoded_hash : SpecVersion → AggregateHash → List ℕ → Result (List ℕ)
  unfolding concatenate_uint8_arrays
  encoded_hash v4_2_2 (as_text aggregate_hash) assertion_hash =
      ok (encode (aggregate_hash ++ assertion_hash))
  encoded_hash v4_2_2 (as_bytes aggregate_hash) assertion_hash = err Error.configuration
  encoded_hash v4_3_0 (as_text aggregate_hash) assertion_hash = err Error.configuration
  encoded_hash v4_3_0 (as_bytes aggregate_hash) assertion_hash = do
    decoded ← Hex.decode_array_buffer assertion_hash
    ok (Base64.encode_array_buffer false (concatenate_uint8_arrays aggregate_hash decoded))
  encoded_hash unknown aggregate_hash assertion_hash = err Error.configuration

  abbrev pub unsigned : AssertionConfig → Assertion
  unsigned config = record {
    id = config.id;
    type = config.type;
    scope = config.scope;
    applies_to_state = some config.applies_to_state;
    statement = config.statement;
    binding = record { method = []; signature = [] };
  }

  unfoldable pub create_with :
      Option AssertionKey → SpecVersion → AggregateHash → Assertion → Result Assertion
  unfolding encoded_hash sign
  create_with none version aggregate_hash a = err Error.configuration
  create_with (some key) version aggregate_hash a = do
    assertion_hash ← hash a
    encoded ← encoded_hash version aggregate_hash assertion_hash
    sign a assertion_hash encoded key

  -- A version that is left out, or empty, is 4.3.0.
  unfoldable pub create_assertion :
      AggregateHash → AssertionConfig → Option SpecVersion → Result Assertion
  unfolding create_with
  create_assertion aggregate_hash config none =
      create_with config.signing_key v4_3_0 aggregate_hash (unsigned config)
  create_assertion aggregate_hash config (some version) =
      create_with config.signing_key version aggregate_hash (unsigned config)

  unfoldable pub refuse_private : Key → Result Key
  refuse_private (private_key k) = err Error.configuration
  refuse_private (pem text) = ok (pem text)
  refuse_private (raw bytes) = ok (raw bytes)
  refuse_private (public_key k) = ok (public_key k)
  refuse_private (symmetric_key k) = ok (symmetric_key k)

  -- A key that the header of the token holds is taken in place of the one that is given.
  unfoldable pub embedded_key : Option (List ℕ) → Option (List ℕ) → Key → Result Key
  embedded_key (some jwk) x5c key = do text ← service.jwk_to_public_key_pem jwk; ok (pem text)
  embedded_key none (some cert) key = do
    text ← service.extract_public_key_pem (pem_of_certificate cert)
    ok (pem text)
  embedded_key none none key = ok key

  unfoldable pub verified_claims : Assertion → AssertionKey → Result Claims
  unfolding refuse_private embedded_key certificate
  verified_claims thiz key = do
    header ← platform.decode_protected_header thiz.binding.signature
    own_key ← refuse_private key.key
    verification_key ← embedded_key header.jwk (certificate header.x5c) own_key
    (_, body) ←
        verify_jwt service platform thiz.binding.signature verification_key (some (key.alg ∷ []))
    ok body

  -- What is expected of the two hashes when an assertion is verified; the hash that is decoded is the claimed one,
  -- which is that of the assertion here.
  unfoldable pub expected_sig : Bool → List ℕ → List ℕ → Result (List ℕ)
  unfolding concatenate_uint8_arrays
  expected_sig true aggregate_hash hash_of_assertion =
      ok (encode (text_decode aggregate_hash ++ hash_of_assertion))
  expected_sig false aggregate_hash hash_of_assertion = do
    decoded ← Hex.decode_array_buffer hash_of_assertion
    ok (Base64.encode_array_buffer false (concatenate_uint8_arrays aggregate_hash decoded))

  abbrev check : Bool → Result {0} Unit
  check right = if right then ok tt else err Error.integrity

  unfoldable pub verify : Assertion → List ℕ → AssertionKey → Bool → Result {0} Unit
  unfolding rethrown claims
  verify thiz aggregate_hash key is_legacy_tdf = do
    body ← rethrown Error.invalid_file (verified_claims thiz key)
    hash_of_assertion ← hash thiz
    _ ← check (claims body.assertion_hash hash_of_assertion)
    encoded ← expected_sig is_legacy_tdf aggregate_hash hash_of_assertion
    check (claims body.assertion_sig encoded)
