-- ===== src/Jwt.antt =====
-- signJwt and verifyJwt of lib/tdf3/src/crypto/jwt.ts. A text is the list of its code units, and a key the text
-- or the bytes that it stands for. The crypto service is a parameter; so are the platform's JSON and TextEncoder and
-- the functions of the jose library (decodeProtectedHeader, validateCrit, jwtClaimsSet), whose errors are generic ones.
pub mod Base64Url
pub mod RoundTrip
pub mod Sound
use web_sdk.Base.{
  ℕ, ◌+◌, ◌-◌, ◌%◌, Bool, true, false, not, ◌&&◌, List, [], ◌∷◌, ◌++◌, Option, none, some, Result,
  ok, err, Error, ◌==◌, if◌then◌else◌, length, replicate, map, ◌>>=◌,
}
use web_sdk.Encodings.Base64
use web_sdk.Kas.{includes}
use web_sdk.Zip.Reader.{same_units}

-- A PEM text, the bytes of a key, or one of the branded keys.
pub data Key : Type 0 where
  pem raw public_key private_key symmetric_key : List ℕ → Key

-- The members of a header that the code reads; one that is missing is `none`, or an empty text or list.
pub record Header : Type 0 where
  pub alg : List ℕ
  pub b64 : Option Bool
  pub jwk : Option (List ℕ)
  pub x5c : List (List ℕ)

pub record CryptoService : Type 0 where
  pub hmac : List ℕ → List ℕ → Result (List ℕ)
  pub verify_hmac : List ℕ → List ℕ → List ℕ → Result Bool
  pub sign : List ℕ → List ℕ → List ℕ → Result (List ℕ)
  pub verify : List ℕ → List ℕ → List ℕ → List ℕ → Result Bool
  pub import_symmetric_key : List ℕ → Result (List ℕ)
  pub import_public_key : List ℕ → Result (List ℕ)
  pub import_private_key : Option (List ℕ → Result (List ℕ))
  pub jwk_to_public_key_pem : List ℕ → Result (List ℕ)
  pub extract_public_key_pem : List ℕ → Result (List ℕ)
  pub digest : List ℕ → Result (List ℕ)

-- The claims that are signed, and those that come back.
pub record Platform (Payload Claims : Type 0) : Type 0 where
  pub text_encode : List ℕ → List ℕ
  pub stringify_header : Header → List ℕ
  pub stringify_payload : Payload → List ℕ
  pub decode_protected_header : List ℕ → Result Header
  -- Whether `b64` is one of the extensions that the header names in `crit`.
  pub validate_crit : Header → Result Bool
  pub jwt_claims_set : Header → List ℕ → Result Claims

abbrev pub hs256 : List ℕ
hs256 = b'H' ∷ b'S' ∷ b'2' ∷ b'5' ∷ b'6' ∷ []

abbrev pub unsecured : List ℕ
unsecured = b'n' ∷ b'o' ∷ b'n' ∷ b'e' ∷ []

-- `text.replace(/c/g, d)` for characters c and d.
abbrev pub replace_all : ℕ → ℕ → List ℕ → List ℕ
replace_all c d text = map (λ x. if x == c then d else x) text

unfoldable pub base64url_encode : List ℕ → List ℕ
base64url_encode bytes = Base64.encode_array_buffer true bytes

unfoldable pub base64url_to_base64 : List ℕ → List ℕ
base64url_to_base64 str =
    let b64 = replace_all b'_' b'/' (replace_all b'-' b'+' str) in
    b64 ++ replicate ((4 - length b64 % 4) % 4) b'='

unfoldable pub base64url_decode_bytes : List ℕ → Result (List ℕ)
unfolding base64url_to_base64
base64url_decode_bytes str = Base64.decode_array_buffer (base64url_to_base64 str)

-- `x` before the first part.
unfoldable pub onto_first : ℕ → List (List ℕ) → List (List ℕ)
onto_first x [] = (x ∷ []) ∷ []
onto_first x (part ∷ parts) = (x ∷ part) ∷ parts

-- `text.split(separator)` for a single character.
unfoldable pub split : ℕ → List ℕ → List (List ℕ)
unfolding onto_first
split separator [] = [] ∷ []
split separator (x ∷ text) =
    let parts = split separator text in if x == separator then [] ∷ parts else onto_first x parts

unfoldable pub three_parts : List (List ℕ) → Result (List ℕ × List ℕ × List ℕ)
three_parts (a ∷ b ∷ c ∷ []) = ok (a, b, c)
three_parts parts = err Error.generic

-- A list of algorithms that is left out allows all.
unfoldable pub allowed : Option (List (List ℕ)) → List ℕ → Bool
unfolding includes same_units
allowed none alg = true
allowed (some algorithms) alg = includes same_units alg algorithms

unfoldable pub check_alg : Option (List (List ℕ)) → List ℕ → Result {0} Unit
unfolding allowed
check_alg algorithms [] = err Error.generic
check_alg algorithms (a ∷ alg) =
    if same_units (a ∷ alg) unsecured
    then err Error.generic
    else if allowed algorithms (a ∷ alg)
    then ok tt
    else err Error.generic

module _ (service : CryptoService) where
  -- A key of another brand than the wrong one is taken as it is.
  unfoldable pub verify_symmetric : List ℕ → List ℕ → Key → Result Bool
  verify_symmetric input signature (pem text) = err Error.generic
  verify_symmetric input signature (public_key k) = err Error.generic
  verify_symmetric input signature (raw bytes) = do
    k ← service.import_symmetric_key bytes
    service.verify_hmac input signature k
  verify_symmetric input signature (symmetric_key k) = service.verify_hmac input signature k
  verify_symmetric input signature (private_key k) = service.verify_hmac input signature k

  unfoldable pub verify_asymmetric : List ℕ → List ℕ → List ℕ → Key → Result Bool
  verify_asymmetric alg input signature (raw bytes) = err Error.generic
  verify_asymmetric alg input signature (symmetric_key k) = err Error.generic
  verify_asymmetric alg input signature (pem text) = do
    k ← service.import_public_key text
    service.verify input signature k alg
  verify_asymmetric alg input signature (public_key k) = service.verify input signature k alg
  verify_asymmetric alg input signature (private_key k) = service.verify input signature k alg

  unfoldable pub verify_signature : List ℕ → List ℕ → List ℕ → Key → Result Bool
  unfolding verify_symmetric verify_asymmetric
  verify_signature alg input signature key =
      if same_units alg hs256
      then verify_symmetric input signature key
      else verify_asymmetric alg input signature key

  unfoldable pub sign_symmetric : List ℕ → Key → Result (List ℕ)
  sign_symmetric input (symmetric_key k) = service.hmac input k
  sign_symmetric input key = err Error.generic

  unfoldable pub sign_asymmetric : List ℕ → List ℕ → Key → Result (List ℕ)
  sign_asymmetric alg input (private_key k) = service.sign input k alg
  sign_asymmetric alg input key = err Error.generic

  unfoldable pub signature_of : List ℕ → List ℕ → Key → Result (List ℕ)
  unfolding sign_symmetric sign_asymmetric
  signature_of alg input key =
      if same_units alg hs256 then sign_symmetric input key else sign_asymmetric alg input key

  module _ {Payload Claims : Type 0} (platform : Platform Payload Claims) where
    unfoldable pub signing_input : Header → Payload → List ℕ
    unfolding base64url_encode
    signing_input header payload =
        let header_b64 =
          base64url_encode (platform.text_encode (platform.stringify_header header)) in
        let payload_b64 =
          base64url_encode (platform.text_encode (platform.stringify_payload payload)) in
        header_b64 ++ b'.' ∷ payload_b64

    unfoldable pub sign_jwt : Payload → Key → Header → Result (List ℕ)
    unfolding signing_input signature_of base64url_encode
    sign_jwt payload key header = do
      _ ← platform.validate_crit header
      signature ← signature_of header.alg (platform.text_encode (signing_input header payload)) key
      ok (signing_input header payload ++ b'.' ∷ base64url_encode signature)

    -- A signature that is not valid, and a payload that is not encoded, are refused.
    unfoldable pub accept : Bool → Bool → Option Bool → Result {0} Unit
    accept false extension b64 = err Error.generic
    accept true true (some false) = err Error.generic
    accept true extension b64 = ok tt

    unfoldable pub verify_jwt : List ℕ → Key → Option (List (List ℕ)) → Result (Header × Claims)
    unfolding split three_parts check_alg base64url_decode_bytes verify_signature accept
    verify_jwt token key algorithms = do
      (header_b64, payload_b64, signature_b64) ← three_parts (split b'.' token)
      header ← platform.decode_protected_header token
      _ ← check_alg algorithms header.alg
      extension ← platform.validate_crit header
      signature ← base64url_decode_bytes signature_b64
      let signing_input_bytes = platform.text_encode (header_b64 ++ b'.' ∷ payload_b64)
      valid ← verify_signature header.alg signing_input_bytes signature key
      _ ← accept valid extension header.b64
      payload_bytes ← base64url_decode_bytes payload_b64
      payload ← platform.jwt_claims_set header payload_bytes
      ok (header, payload)
