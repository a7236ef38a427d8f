-- ===== src/Segments/Tests.antt =====
-- The segments of a small payload, and their theorems at it.
use Prim.{tt}
use mathlib.Core.List.{flatten}
use web_sdk.Base.{
  replicate, ℕ, ◌+◌, ◌-◌, ◌<◌, ◌≡◌, ◌↔◌, ◌⊎◌, inr, refl, true, false, List, [], ◌∷◌, arith, ok,
  none, some, get_elem?,
}
use web_sdk.Cipher
use web_sdk.Cipher.{CryptoService}
use web_sdk.Encodings.Base64.{encode_array_buffer, char_at}
use web_sdk.Zip.Reader.{same_units}
use web_sdk.Segments.{
  IntegrityAlgorithm, Segment, Chunk, Mailbox, chunks_from, offset_in_buffer, slice_and_decrypt,
  decrypt_sized, fetch_and_decrypt_chunk_slice, get_signature, encoded_signature, decrypt_chunk,
}
use web_sdk.Segments.Layout.{offset_in_buffer-exact, batch_offsets}
use web_sdk.Segments.Settled.{decrypt_chunk-Checked}
use web_sdk.Segments.Received.{Received, fetch_and_decrypt-Received}
use web_sdk.Segments.Queue.{update_chunk_queue, update_chunk_queue-flatten}
use web_sdk.Segments.Batch.{Part, mailboxes, bytes_of, filled_with, slice_and_decrypt-filled}

-- A service that leaves the payload as it is, with a tag of one byte, and a signature of one byte.
abbrev toy : CryptoService
toy = record {
  encrypt = λ payload iv. ok (payload, some (7 ∷ []));
  decrypt = λ ciphertext iv. ok ciphertext;
  hmac = λ content. ok (0 ∷ []);
}

abbrev as_it_is : List ℕ → List ℕ
as_it_is text = text

abbrev segment : Segment
segment = record {
  hash = b'A' ∷ b'A' ∷ b'=' ∷ b'=' ∷ [];
  segment_size = none;
  encrypted_segment_size = none;
}

abbrev chunk_at : ℕ → Chunk
chunk_at offset = record {
  hash = b'A' ∷ b'A' ∷ b'=' ∷ b'=' ∷ [];
  plain_segment_size = 1;
  encrypted_offset = offset;
  encrypted_segment_size = 13;
  decrypted_chunk = Mailbox.pending;
}

-- Twelve bytes of initialization vector before one of payload.
abbrev encrypted : ℕ → List ℕ
encrypted b = 0 ∷ 0 ∷ 0 ∷ 0 ∷ 0 ∷ 0 ∷ 0 ∷ 0 ∷ 0 ∷ 0 ∷ 0 ∷ 0 ∷ b ∷ []

abbrev later_first : ℕ
later_first = 20

offset_in_buffer-exact_example :
    (offset_in_buffer later_first 120 ≡ 120 - later_first)
    ↔ ((later_first ≡ 0) ⊎ (120 < later_first + later_first))
offset_in_buffer-exact_example = offset_in_buffer-exact later_first 120 (omega arith)

-- The third chunk of a batch whose first two, at 20, have 100 bytes each lies at 100 behind the
-- first, but its bytes are looked for at 0.
wide_segments_offset : offset_in_buffer 20 120 ≡ 0
unfolding offset_in_buffer
wide_segments_offset = refl

abbrev four_segments : List Segment
four_segments = segment ∷ segment ∷ segment ∷ segment ∷ []

third : get_elem? (chunks_from 13 1 0 four_segments) 2 ≡ some (chunk_at 26)
unfolding chunks_from
third = refl

fourth : get_elem? (chunks_from 13 1 0 four_segments) 3 ≡ some (chunk_at 39)
unfolding chunks_from
fourth = refl

batch_offsets_example : offset_in_buffer 26 39 ≡ 39 - 26
batch_offsets_example =
    batch_offsets 13 1 four_segments 2 2 3 (chunk_at 26) (chunk_at 39) (omega arith)
      (refl, (refl, (refl, tt))) (inr (omega arith)) (omega arith) (omega arith) third fourth

-- The response is too short for the second chunk.
fetch_and_decrypt-Received_example :
    Received toy as_it_is false IntegrityAlgorithm.hs256
      (chunk_at 0)
      (chunk_at 13 ∷ [])
      (ok (encrypted 5))
      (fetch_and_decrypt_chunk_slice toy as_it_is false IntegrityAlgorithm.hs256
        (λ offset size. ok (encrypted 5))
        (chunk_at 0 ∷ chunk_at 13 ∷ [])).0
fetch_and_decrypt-Received_example =
    fetch_and_decrypt-Received toy as_it_is false IntegrityAlgorithm.hs256
      (λ offset size. ok (encrypted 5)) (chunk_at 0) (chunk_at 13 ∷ []) (refl, (refl, tt))

toy_decrypts :
    decrypt_chunk toy as_it_is false IntegrityAlgorithm.hs256
      (encrypted 5)
      (b'A' ∷ b'A' ∷ b'=' ∷ b'=' ∷ [])
    ≡ ok (5 ∷ [])
unfolding decrypt_chunk encode_array_buffer char_at
toy_decrypts = refl

decrypt_chunk-Checked_example :
    (signature : List ℕ) × (get_signature toy (encrypted 5) IntegrityAlgorithm.hs256 ≡ ok signature)
    × (same_units
          (b'A' ∷ b'A' ∷ b'=' ∷ b'=' ∷ [])
          (encoded_signature toy as_it_is false IntegrityAlgorithm.hs256 signature)
        ≡ true)
    × (Cipher.decrypt toy (encrypted 5) ≡ ok (5 ∷ []))
decrypt_chunk-Checked_example =
    decrypt_chunk-Checked toy as_it_is false IntegrityAlgorithm.hs256 (encrypted 5)
      (b'A' ∷ b'A' ∷ b'=' ∷ b'=' ∷ []) (5 ∷ []) toy_decrypts

toy_decrypts_sized :
    (b offset : ℕ)
    → decrypt_sized toy as_it_is false IntegrityAlgorithm.hs256 (encrypted b) (chunk_at offset)
      ≡ ok (b ∷ [])
unfolding decrypt_sized encode_array_buffer char_at
toy_decrypts_sized b offset = refl

abbrev parts : List Part
parts = (encrypted 5, 5 ∷ []) ∷ (encrypted 6, 6 ∷ []) ∷ []

slice_and_decrypt-filled_example :
    (mailboxes
        (slice_and_decrypt toy as_it_is false IntegrityAlgorithm.hs256
          (bytes_of parts)
          (chunk_at 26 ∷ chunk_at 39 ∷ [])).0
      ≡ filled_with parts)
    × ((slice_and_decrypt toy as_it_is false IntegrityAlgorithm.hs256
          (bytes_of parts)
          (chunk_at 26 ∷ chunk_at 39 ∷ [])).1
        ≡ none)
slice_and_decrypt-filled_example =
    slice_and_decrypt-filled toy as_it_is false IntegrityAlgorithm.hs256 26
      (chunk_at 26 ∷ chunk_at 39 ∷ []) parts
      (refl, refl, refl, toy_decrypts_sized 5 26, (refl, refl, refl, toy_decrypts_sized 6 39, tt))
      (inr (omega arith), (inr (omega arith), tt))

-- More chunks than three requests hold.
abbrev many : List ℕ
many = replicate 1700 7

update_chunk_queue-flatten_example : flatten (flatten (update_chunk_queue many)) ≡ many
update_chunk_queue-flatten_example = update_chunk_queue-flatten many
