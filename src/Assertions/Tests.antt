-- ===== src/Assertions/Tests.antt =====
-- Tokens and assertions at a small service, which signs the sum of the bytes, and the theorems at them.
use web_sdk.Base.{
  ℕ, zero, suc, ◌+◌, ◌%◌, ◌<◌, ◌≡◌, refl, ap, ◌∙◌, false, List, [], ◌∷◌, ◌++◌, ◌&&◌, none, some,
  Result, ok, err, Error, length, take, drop, replicate, All-append, arith, Returns,
  take-append_exact, drop-append_exact,
}
use web_sdk.Encodings.Base64
use web_sdk.Encodings.Hex
use web_sdk.Encodings.Base64.Shape.{Bytes}
use web_sdk.Granter.Records.{same_units_refl}
use web_sdk.Jwt.{
  Key, Header, symmetric_key, public_key, CryptoService, Platform, hs256, verify_jwt, signature_of,
  verify_signature, check_alg, base64url_encode,
}
use web_sdk.Jwt.RoundTrip.{Reads, KeyPair}
use web_sdk.Jwt.Sound.{Accepted, verify_jwt-Accepted}
use web_sdk.Assertions.{
  Environment, Assertion, AssertionPayload, Claims, AssertionKey, AssertionConfig, as_bytes, v4_3_0,
  header_of, handling, tdo, encrypted, hash, verify, create_assertion, signing_material,
  refuse_private, verified_claims, expected_sig,
}
use web_sdk.Assertions.Verified.{claims_of, current, verify-create_assertion}
use web_sdk.Assertions.Binding.{verify-bound}
use web_sdk.Assertions.Embedded.{SignedByOwn, verify-embedded_key}
use web_sdk.Zip.Reader.{same_units}

sum : List ℕ → ℕ
sum [] = 0
sum (x ∷ xs) = x + sum xs

checksum : List ℕ → List ℕ
unfolding sum
checksum bytes = sum bytes % 256 ∷ []

unfoldable service : CryptoService
unfolding checksum
service = record {
  hmac = λ input key. ok (checksum input);
  verify_hmac = λ input signature key. ok (same_units signature (checksum input));
  sign = λ input key alg. err Error.generic;
  verify = λ input signature key alg. err Error.generic;
  import_symmetric_key = λ bytes. ok bytes;
  import_public_key = λ text. ok text;
  import_private_key = none;
  jwk_to_public_key_pem = λ jwk. ok jwk;
  extract_public_key_pem = λ cert. ok cert;
  digest = λ bytes. ok (checksum bytes);
}

-- A text as bytes: each unit as so many ones, before a zero.
encode_units : List ℕ → List ℕ
encode_units [] = []
encode_units (n ∷ ns) = replicate n 1 ++ 0 ∷ encode_units ns

decode_units : ℕ → List ℕ → List ℕ
decode_units k [] = []
decode_units k (zero ∷ rest) = k ∷ decode_units 0 rest
decode_units k (suc b ∷ rest) = decode_units (suc k) rest

decode_units-replicate :
    (n k : ℕ) (rest : List ℕ)
    → decode_units k (replicate n 1 ++ 0 ∷ rest) ≡ (n + k) ∷ decode_units 0 rest
unfolding decode_units
decode_units-replicate zero k rest = ap (λ r. r ∷ decode_units 0 rest) (omega arith)
decode_units-replicate (suc n) k rest =
    decode_units-replicate n (suc k) rest ∙ ap (λ r. r ∷ decode_units 0 rest) (omega arith)

decode_units-encode : (ns : List ℕ) → decode_units 0 (encode_units ns) ≡ ns
unfolding encode_units decode_units
decode_units-encode [] = refl
decode_units-encode (n ∷ ns) =
    decode_units-replicate n 0 (encode_units ns)
    ∙ ap (λ r. r ∷ decode_units 0 (encode_units ns)) (omega arith)
    ∙ ap (λ r. n ∷ r) (decode_units-encode ns)

ones-Bytes : (n : ℕ) → Bytes (replicate n 1)
ones-Bytes zero = tt
ones-Bytes (suc n) = (omega arith, ones-Bytes n)

encode_units-Bytes : (ns : List ℕ) → Bytes (encode_units ns)
unfolding encode_units
encode_units-Bytes [] = tt
encode_units-Bytes (n ∷ ns) =
    All-append (λ b. b < 256) (replicate n 1) (0 ∷ encode_units ns) (ones-Bytes n)
      (omega arith, encode_units-Bytes ns)

-- The length of the first text, and the two texts.
parse : List ℕ → Result Claims
parse [] = err Error.generic
parse (n ∷ rest) =
    ok (record { assertion_hash = some (take n rest); assertion_sig = some (drop n rest) })

unfoldable platform : Platform AssertionPayload Claims
unfolding encode_units decode_units parse
platform = record {
  text_encode = encode_units;
  stringify_header = λ header. header.alg;
  stringify_payload = λ p. length p.assertion_hash ∷ p.assertion_hash ++ p.assertion_sig;
  decode_protected_header = λ token. ok (header_of hs256);
  validate_crit = λ header. ok false;
  jwt_claims_set = λ header payload. parse (decode_units 0 payload);
}

abbrev secret : Key
secret = symmetric_key (1 ∷ 2 ∷ [])

parse-eq :
    (hash sig : List ℕ)
    → parse (length hash ∷ hash ++ sig)
      ≡ ok (record { assertion_hash = some hash; assertion_sig = some sig })
unfolding parse
parse-eq hash sig =
    rw
      (take-append_exact (length hash) hash sig refl, drop-append_exact (length hash) hash sig refl)
      refl

platform-Reads : Reads platform (header_of hs256) claims_of
unfolding platform
platform-Reads = record {
  encodes = encode_units-Bytes;
  reads_header = λ rest. refl;
  reads_claims = λ p.
      ap parse (decode_units-encode (length p.assertion_hash ∷ p.assertion_hash ++ p.assertion_sig))
      ∙ parse-eq p.assertion_hash p.assertion_sig;
  no_extension = refl;
}

secret-KeyPair : KeyPair service hs256 secret secret
unfolding KeyPair service signature_of verify_signature same_units
secret-KeyPair input signature e =
    let same : checksum input ≡ signature = cc in
    rw (← same) ((omega arith, tt), ap ok (same_units_refl (checksum input)))

unfoldable environment : Environment
environment = record {
  service = service;
  platform = platform;
  canonicalize = λ a. a.id;
  pem_of_certificate = λ cert. cert;
  text_decode = λ bytes. bytes;
  encode = λ text. text;
}

abbrev key : AssertionKey
key = record { alg = hs256; key = secret }

abbrev config : AssertionConfig
config = record {
  id = b'i' ∷ [];
  type = handling;
  scope = tdo;
  applies_to_state = encrypted;
  statement = record { format = []; schema = []; value = [] };
  signing_key = some key;
}

verify-create_assertion_example :
    Returns
      (λ a. verify environment a (1 ∷ 2 ∷ []) key false ≡ ok tt)
      (create_assertion environment (as_bytes (1 ∷ 2 ∷ [])) config (some v4_3_0))
unfolding environment check_alg signing_material same_units refuse_private
verify-create_assertion_example =
    verify-create_assertion environment (λ a b. refl) key secret secret platform-Reads refl
      secret-KeyPair refl refl (current (1 ∷ 2 ∷ [])) config refl

-- A platform for which all texts are empty, and every token claims the hash 05 and the aggregate hash 1.
unfoldable constant : Environment
constant = record environment {
  service = record service {
    verify_hmac = λ input signature k. ok (same_units signature (7 ∷ []));
    digest = λ bytes. ok (5 ∷ []);
  };
  platform = record platform {
    text_encode = λ t. [];
    jwt_claims_set = λ header body. ok (record {
      assertion_hash = some (b'0' ∷ b'5' ∷ []);
      assertion_sig = some (Base64.encode_array_buffer false (1 ∷ 5 ∷ []));
    });
  };
}

abbrev token : List ℕ
token = b'.' ∷ b'.' ∷ base64url_encode (7 ∷ [])

abbrev assertion : List ℕ → Assertion
assertion id = record {
  id = id;
  type = handling;
  scope = tdo;
  applies_to_state = none;
  statement = record { format = []; schema = []; value = [] };
  binding = record { method = []; signature = token };
}

constant_verifies : (id : List ℕ) → verify constant (assertion id) (1 ∷ []) key false ≡ ok tt
unfolding constant verify verified_claims platform verify_jwt base64url_encode
    Base64.encode_array_buffer Base64.char_at Base64.decode_array_buffer hash
    Hex.encode_array_buffer expected_sig Hex.decode_array_buffer
constant_verifies id = refl

abbrev constant_claims : Claims
constant_claims = record {
  assertion_hash = some (b'0' ∷ b'5' ∷ []);
  assertion_sig = some (Base64.encode_array_buffer false (1 ∷ 5 ∷ []));
}

constant_accepts :
    verify_jwt constant.service constant.platform token secret (some (hs256 ∷ []))
    ≡ ok (header_of hs256, constant_claims)
unfolding constant platform verify_jwt base64url_encode Base64.encode_array_buffer Base64.char_at
    Base64.decode_array_buffer check_alg same_units
constant_accepts = refl

verify_jwt-Accepted_example :
    Accepted constant.service constant.platform secret
      (hs256 ∷ [])
      token
      (header_of hs256, constant_claims)
verify_jwt-Accepted_example =
    verify_jwt-Accepted constant.service constant.platform secret (hs256 ∷ []) token
      (header_of hs256) constant_claims constant_accepts

-- Another aggregate hash is refused.
constant_refuses : verify constant (assertion []) (2 ∷ []) key false ≡ err Error.integrity
unfolding constant verify verified_claims platform verify_jwt base64url_encode
    Base64.encode_array_buffer Base64.char_at Base64.decode_array_buffer hash
    Hex.encode_array_buffer expected_sig Hex.decode_array_buffer
constant_refuses = refl

verify-bound_example :
    (hash constant (assertion (1 ∷ [])) ≡ hash constant (assertion (2 ∷ [])))
    × (◌≡◌ {A = List ℕ} (1 ∷ []) (1 ∷ []))
verify-bound_example =
    verify-bound constant (assertion (1 ∷ [])) (assertion (2 ∷ [])) (1 ∷ []) (1 ∷ []) key
      (omega arith, tt) (omega arith, tt) refl (constant_verifies (1 ∷ []))
      (constant_verifies (2 ∷ []))

-- Tokens with a key in their header, which this service takes for valid.
abbrev rs256 : List ℕ
rs256 = b'R' ∷ b'S' ∷ b'2' ∷ b'5' ∷ b'6' ∷ []

abbrev carried : Header
carried = record (header_of rs256) { jwk = some (9 ∷ []) }

unfoldable carrying : Environment
carrying = record constant {
  service = record constant.service {
    verify = λ input signature k alg. ok (same_units signature (7 ∷ []) && same_units k (9 ∷ []));
  };
  platform = record constant.platform { decode_protected_header = λ t. ok carried };
}

carrying_verifies :
    verify carrying
      (assertion [])
      (1 ∷ [])
      (record { alg = rs256; key = public_key (1 ∷ []) })
      false
    ≡ ok tt
unfolding carrying constant verify verified_claims platform verify_jwt base64url_encode
    Base64.encode_array_buffer Base64.char_at Base64.decode_array_buffer hash
    Hex.encode_array_buffer expected_sig Hex.decode_array_buffer check_alg same_units refuse_private
    service
carrying_verifies = refl

verify-embedded_key_example :
    ((body : Claims) × (h : List ℕ) × SignedByOwn carrying
        (assertion [])
        rs256
        carried
        (9 ∷ [])
        body
      × (hash carrying (assertion []) ≡ ok h)
      × (body.assertion_hash ≡ some h))
    × (verify carrying
          (assertion [])
          (1 ∷ [])
          (record { alg = rs256; key = public_key (2 ∷ []) })
          false
        ≡ ok tt)
unfolding carrying refuse_private
verify-embedded_key_example =
    verify-embedded_key carrying (assertion []) (1 ∷ []) rs256 (public_key (1 ∷ []))
      (public_key (2 ∷ [])) false carried (9 ∷ []) refl refl refl carrying_verifies
