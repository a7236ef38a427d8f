-- ===== src/Segments/Root.antt =====
-- The check of the root signature in decryptStreamFrom of lib/tdf3/src/tdf.ts, and the chunks that it lays out.
-- `verify_assertions` is what it does with the assertions, given the aggregate hash, and `encode` is
-- `base64.encode`.
use web_sdk.Base.{ℕ, ◌*◌, Bool, List, [], ◌∷◌, Result, ok, err, Error, ◌==◌, if◌then◌else◌, ◌>>=◌}
use mathlib.Core.List.{flatten}
use web_sdk.Cipher.{CryptoService}
use web_sdk.Encodings.Base64
use web_sdk.Segments.{
  IntegrityAlgorithm, gmac, hs256, other, Segment, Chunk, chunks_from, get_signature,
  encoded_signature,
}
use web_sdk.Zip.Reader.{same_units}

abbrev pub default_segment_size : ℕ
default_segment_size = 1024 * 1024

unfoldable pub decode_hashes : List Segment → Result (List (List ℕ))
decode_hashes [] = ok []
decode_hashes (s ∷ segments) = do
  hash ← Base64.decode_array_buffer s.hash
  rest ← decode_hashes segments
  ok (hash ∷ rest)

unfoldable pub supported : IntegrityAlgorithm → Result {0} Unit
supported gmac = ok tt
supported hs256 = ok tt
supported other = err Error.unsupported

module _ (service : CryptoService) (encode : List ℕ → List ℕ) (legacy : Bool)
    (verify_assertions : List ℕ → Result {0} Unit) (algorithm : IntegrityAlgorithm) where
  unfoldable pub check_root : List ℕ → List Segment → Result {0} Unit
  unfolding decode_hashes supported get_signature encoded_signature same_units
  check_root sig segments = do
    segment_hash_list ← decode_hashes segments
    let aggregate_hash = flatten segment_hash_list
    _ ← supported algorithm
    payload_sig ← get_signature service aggregate_hash algorithm
    _ ← verify_assertions aggregate_hash
    if same_units sig (encoded_signature service encode legacy algorithm payload_sig)
        then ok tt
        else err Error.integrity

  -- The chunks of a payload whose root signature is right.
  unfoldable pub open_payload : List ℕ → ℕ → ℕ → List Segment → Result (List Chunk)
  unfolding check_root chunks_from
  open_payload sig default_size segment_size_default segments = do
    let encrypted_default = if default_size == 0 then default_segment_size else default_size
    _ ← check_root sig segments
    ok (chunks_from encrypted_default segment_size_default 0 segments)
