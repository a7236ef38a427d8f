-- ===== src/Segments.antt =====
-- The payload's segments as decryptStreamFrom reads them (lib/tdf3/src/tdf.ts). Fetching the bytes, and the
-- crypto service, are parameters. A mailbox is a promise with its resolvers: the first of `set` and
-- `reject` settles it, and a later one has no effect.
pub mod Layout
pub mod Batch
pub mod Settled
pub mod Received
pub mod Queue
pub mod Root
mod Tests
use web_sdk.Base.{
  ℕ, ◌+◌, ◌-◌, ◌%◌, Bool, true, false, not, ◌&&◌, ◌||◌, List, [], ◌∷◌, Option, none, some, Result,
  ok, err, Error, ◌==◌, if◌then◌else◌, length, drop, slice, map, ◌>>=◌,
}
use web_sdk.Cipher.{CryptoService}
use web_sdk.Cipher
use web_sdk.Encodings.Base64
use web_sdk.Encodings.Hex
use web_sdk.Zip.Reader.{same_units}

pub data IntegrityAlgorithm : Type 0 where
  gmac hs256 other : IntegrityAlgorithm

pub record Segment : Type 0 where
  pub hash : List ℕ
  pub segment_size : Option ℕ
  pub encrypted_segment_size : Option ℕ

pub data Mailbox : Type 0 where
  pending : Mailbox
  filled : List ℕ → Mailbox
  rejected : Error → Mailbox

-- `plain_segment_size` is 0 where the source's is `undefined` as well: both are not checked.
pub record Chunk : Type 0 where
  pub hash : List ℕ
  pub plain_segment_size : ℕ
  pub encrypted_offset : ℕ
  pub encrypted_segment_size : ℕ
  pub decrypted_chunk : Mailbox

unfoldable pub or_default : Option ℕ → ℕ → ℕ
or_default none d = d
or_default (some n) d = n

-- The chunks of `decryptStreamFrom`, from `mapOfRequestsOffset` on.
unfoldable pub chunks_from : ℕ → ℕ → ℕ → List Segment → List Chunk
unfolding or_default
chunks_from encrypted_default plain_default offset [] = []
chunks_from encrypted_default plain_default offset (s ∷ segments) =
    let size = or_default s.encrypted_segment_size encrypted_default in
    record {
      hash = s.hash;
      plain_segment_size = or_default s.segment_size plain_default;
      encrypted_offset = offset;
      encrypted_segment_size = size;
      decrypted_chunk = pending;
    }
    ∷ chunks_from encrypted_default plain_default (offset + size) segments

-- `set` of the outcome of a computation, or `reject` of what it threw.
unfoldable pub settle : Result (List ℕ) → Mailbox → Mailbox
settle (ok payload) pending = filled payload
settle (err e) pending = rejected e
settle r (filled payload) = filled payload
settle r (rejected e) = rejected e

unfoldable pub settle_chunk : Result (List ℕ) → Chunk → Chunk
unfolding settle
settle_chunk r chunk = record chunk { decrypted_chunk = settle r chunk.decrypted_chunk }

unfoldable pub reject_chunks : List Chunk → Error → List Chunk
unfolding settle_chunk
reject_chunks chunks e = map (settle_chunk (err e)) chunks

-- The offset of a chunk in the bytes fetched from the offset of the first chunk on. `x % 0` is not
-- computed.
unfoldable pub offset_in_buffer : ℕ → ℕ → ℕ
offset_in_buffer first encrypted_offset =
    if first == 0 then encrypted_offset else encrypted_offset % first

-- The outcome of a request, and of an asynchronous function that returns no value.
unfoldable pub fetch_error : Error → Error
fetch_error Error.invalid_file = Error.invalid_file
fetch_error e = Error.network

unfoldable pub total_size : List Chunk → ℕ
total_size [] = 0
total_size (chunk ∷ chunks) = chunk.encrypted_segment_size + total_size chunks

unfoldable pub get_signature : CryptoService → List ℕ → IntegrityAlgorithm → Result (List ℕ)
get_signature service content gmac = ok (drop (length content - 16) content)
get_signature service content hs256 = service.hmac content
get_signature service content other = err Error.configuration

-- `legacy` is `isTargetSpecLegacyTDF(specVersion)`; `encode` is `base64.encode`, the platform's `btoa`
-- where it has one.
module _ (service : CryptoService) (encode : List ℕ → List ℕ) (legacy : Bool)
    (algorithm : IntegrityAlgorithm) where
  unfoldable pub encoded_signature : List ℕ → List ℕ
  encoded_signature signature =
      if legacy
      then encode (Hex.encode_array_buffer signature)
      else Base64.encode_array_buffer false signature

  unfoldable pub check_and_decrypt : List ℕ → List ℕ → Result (List ℕ)
  unfolding get_signature encoded_signature same_units Cipher.decrypt
  check_and_decrypt encrypted_chunk hash = do
    segment_sig ← get_signature service encrypted_chunk algorithm
    if same_units hash (encoded_signature segment_sig)
        then Cipher.decrypt service encrypted_chunk
        else err Error.integrity

  unfoldable pub decrypt_chunk : List ℕ → List ℕ → Result (List ℕ)
  unfolding check_and_decrypt
  decrypt_chunk encrypted_chunk hash = elim algorithm [
    | other ↦ err Error.unsupported
    | gmac ↦ check_and_decrypt encrypted_chunk hash
    | hs256 ↦ check_and_decrypt encrypted_chunk hash
  ]

  -- The body of the `try` of `sliceAndDecrypt`.
  unfoldable pub decrypt_sized : List ℕ → Chunk → Result (List ℕ)
  unfolding decrypt_chunk
  decrypt_sized encrypted_chunk chunk = do
    payload ← decrypt_chunk encrypted_chunk chunk.hash
    if not (chunk.plain_segment_size == 0) && not (length payload == chunk.plain_segment_size)
        then err Error.decrypt
        else ok payload

  -- The loop of `sliceAndDecrypt`: the chunks as it leaves them, and what it threw.
  unfoldable pub decrypt_loop : ℕ → List ℕ → List Chunk → List Chunk × Option Error
  unfolding offset_in_buffer decrypt_sized settle_chunk
  decrypt_loop first buffer [] = ([], none)
  decrypt_loop first buffer (chunk ∷ chunks) =
      let offset = offset_in_buffer first chunk.encrypted_offset in
      let encrypted_chunk = slice buffer offset (offset + chunk.encrypted_segment_size) in
      let (rest, thrown) = decrypt_loop first buffer chunks in
      if not (length encrypted_chunk == chunk.encrypted_segment_size)
      then (chunk ∷ chunks, some Error.decrypt)
      else (settle_chunk (decrypt_sized encrypted_chunk chunk) chunk ∷ rest, thrown)

  unfoldable pub slice_and_decrypt : List ℕ → List Chunk → List Chunk × Option Error
  unfolding decrypt_loop
  slice_and_decrypt buffer [] = ([], none)
  slice_and_decrypt buffer (first ∷ chunks) =
      decrypt_loop first.encrypted_offset buffer (first ∷ chunks)

  -- The second `try`: what it catches rejects the whole slice.
  unfoldable pub reject_thrown : List Chunk × Option Error → List Chunk × Option Error
  unfolding reject_chunks
  reject_thrown (slice, none) = (slice, none)
  reject_thrown (slice, some e) = (reject_chunks slice e, some e)

  unfoldable pub decrypt_fetched : List Chunk → Result (List ℕ) → List Chunk × Option Error
  unfolding slice_and_decrypt reject_chunks fetch_error reject_thrown
  decrypt_fetched slice (err e) = (reject_chunks slice (fetch_error e), some (fetch_error e))
  decrypt_fetched slice (ok buffer) = reject_thrown (slice_and_decrypt buffer slice)

  -- `fetch offset size` is `getPayloadSegment` of the file's entry '0.payload'. On an empty slice the
  -- access to the first chunk throws inside the first `try`.
  unfoldable pub fetch_and_decrypt_chunk_slice :
      (ℕ → ℕ → Result (List ℕ)) → List Chunk → List Chunk × Option Error
  unfolding decrypt_fetched total_size
  fetch_and_decrypt_chunk_slice fetch [] = ([], some Error.network)
  fetch_and_decrypt_chunk_slice fetch (first ∷ chunks) =
      decrypt_fetched (first ∷ chunks) (fetch first.encrypted_offset (total_size (first ∷ chunks)))
