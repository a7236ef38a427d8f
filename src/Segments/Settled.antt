-- ===== src/Segments/Settled.antt =====
-- fetchAndDecryptChunkSlice of lib/tdf3/src/tdf.ts: the mailboxes that a batch leaves.
use Prim.{tt}
use web_sdk.Base.{
  ℕ, suc, ◌≡◌, ◌≢◌, refl, ap, ◌∙◌, Bool, true, List, [], ◌∷◌, Option, none, some, Result, ok, err,
  Error, All, length, Bool-cases, inl, inr, ◌==◌, >>=-eq-ok, slice, ◌+◌,
}
use web_sdk.Cipher
use web_sdk.Cipher.{CryptoService}
use web_sdk.Zip.Reader.{same_units}
use web_sdk.Segments.{
  IntegrityAlgorithm, Mailbox, Chunk, settle, reject_chunks, offset_in_buffer, decrypt_loop,
  slice_and_decrypt, fetch_and_decrypt_chunk_slice, get_signature, encoded_signature,
  check_and_decrypt, decrypt_chunk, reject_thrown, decrypt_fetched, fetch_error,
}

abbrev pub Settled : Chunk → Type 0
Settled chunk = chunk.decrypted_chunk ≢ Mailbox.pending

settle-Settled : (r : Result (List ℕ)) (m : Mailbox) → settle r m ≢ Mailbox.pending
unfolding settle
settle-Settled (ok p) Mailbox.pending = λ h. cc
settle-Settled (err e) Mailbox.pending = λ h. cc
settle-Settled (ok p) (Mailbox.filled q) = λ h. cc
settle-Settled (err e) (Mailbox.filled q) = λ h. cc
settle-Settled (ok p) (Mailbox.rejected q) = λ h. cc
settle-Settled (err e) (Mailbox.rejected q) = λ h. cc

reject_chunks-Settled : (chunks : List Chunk) (e : Error) → All Settled (reject_chunks chunks e)
unfolding reject_chunks
reject_chunks-Settled [] e = tt
reject_chunks-Settled (chunk ∷ chunks) e =
    (settle-Settled (err e) chunk.decrypted_chunk, reject_chunks-Settled chunks e)

length-reject_chunks :
    (chunks : List Chunk) (e : Error) → length (reject_chunks chunks e) ≡ length chunks
unfolding reject_chunks
length-reject_chunks [] e = refl
length-reject_chunks (chunk ∷ chunks) e = ap suc (length-reject_chunks chunks e)

module _ (service : CryptoService) (encode : List ℕ → List ℕ) (legacy : Bool)
    (algorithm : IntegrityAlgorithm) where
  decrypt_loop-Settled :
      (first : ℕ) (buffer : List ℕ) (chunks : List Chunk)
      → (decrypt_loop service encode legacy algorithm first buffer chunks).1 ≡ none
      → All Settled (decrypt_loop service encode legacy algorithm first buffer chunks).0
  unfolding decrypt_loop
  decrypt_loop-Settled first buffer [] h = tt
  decrypt_loop-Settled first buffer (chunk ∷ chunks) h =
      let offset = offset_in_buffer first chunk.encrypted_offset in
      elim (Bool-cases (
        length (slice buffer offset (offset + chunk.encrypted_segment_size))
        == chunk.encrypted_segment_size)) [
          | inl whole ↦
              rw whole
                (settle-Settled _ _, decrypt_loop-Settled first buffer chunks (rw whole at h))
          | inr short ↦ let bad : some Error.decrypt ≡ none = rw short at h in cc
        ]

  abbrev Whole : List Chunk → List Chunk × Option Error → Type 0
  Whole chunks r = All Settled r.0 × (length r.0 ≡ length chunks)

  length-decrypt_loop :
      (first : ℕ) (buffer : List ℕ) (chunks : List Chunk)
      → length (decrypt_loop service encode legacy algorithm first buffer chunks).0 ≡ length chunks
  unfolding decrypt_loop
  length-decrypt_loop first buffer [] = refl
  length-decrypt_loop first buffer (chunk ∷ chunks) =
      let offset = offset_in_buffer first chunk.encrypted_offset in
      elim (Bool-cases (
        length (slice buffer offset (offset + chunk.encrypted_segment_size))
        == chunk.encrypted_segment_size)) [
          | inl whole ↦ rw whole (ap suc (length-decrypt_loop first buffer chunks))
          | inr short ↦ rw short refl
        ]

  reject_thrown-Whole :
      (chunks : List Chunk) (r : List Chunk × Option Error)
      → (r.1 ≡ none → All Settled r.0)
      → length r.0 ≡ length chunks
      → Whole chunks (reject_thrown service encode legacy algorithm r)
  unfolding reject_thrown
  reject_thrown-Whole chunks (slice, none) h l = (h refl, l)
  reject_thrown-Whole chunks (slice, some e) h l =
      (reject_chunks-Settled slice e, length-reject_chunks slice e ∙ l)

  decrypt_fetched-Whole :
      (first : Chunk) (chunks : List Chunk) (fetched : Result (List ℕ))
      → Whole
          (first ∷ chunks)
          (decrypt_fetched service encode legacy algorithm (first ∷ chunks) fetched)
  unfolding decrypt_fetched
  decrypt_fetched-Whole first chunks (err e) = (
    reject_chunks-Settled (first ∷ chunks) (fetch_error e),
    length-reject_chunks (first ∷ chunks) (fetch_error e),
  )
  decrypt_fetched-Whole first chunks (ok buffer) =
      reject_thrown-Whole (first ∷ chunks)
        (slice_and_decrypt service encode legacy algorithm buffer (first ∷ chunks))
        (decrypt_loop-Settled first.encrypted_offset buffer (first ∷ chunks))
        (length-decrypt_loop first.encrypted_offset buffer (first ∷ chunks))

  -- However the request and the decryption go, no mailbox of the batch is left pending, and no chunk
  -- of it is lost.
  pub fetch_and_decrypt-Settled :
      (fetch : ℕ → ℕ → Result (List ℕ)) (chunks : List Chunk)
      → All Settled (fetch_and_decrypt_chunk_slice service encode legacy algorithm fetch chunks).0
        × (length (fetch_and_decrypt_chunk_slice service encode legacy algorithm fetch chunks).0
            ≡ length chunks)
  unfolding fetch_and_decrypt_chunk_slice
  fetch_and_decrypt-Settled fetch [] = (tt, refl)
  fetch_and_decrypt-Settled fetch (first ∷ chunks) = decrypt_fetched-Whole first chunks _

module _ (service : CryptoService) (encode : List ℕ → List ℕ) (legacy : Bool) where
  abbrev pub Checked : IntegrityAlgorithm → List ℕ → List ℕ → List ℕ → Type 0
  Checked algorithm encrypted_chunk hash payload =
      (signature : List ℕ) × (get_signature service encrypted_chunk algorithm ≡ ok signature)
      × (same_units hash (encoded_signature service encode legacy algorithm signature) ≡ true)
      × (Cipher.decrypt service encrypted_chunk ≡ ok payload)

  check_and_decrypt-Checked :
      (algorithm : IntegrityAlgorithm) (encrypted_chunk hash payload : List ℕ)
      → check_and_decrypt service encode legacy algorithm encrypted_chunk hash ≡ ok payload
      → Checked algorithm encrypted_chunk hash payload
  unfolding check_and_decrypt
  check_and_decrypt-Checked algorithm encrypted_chunk hash payload h =
      let (signature, s, t) = >>=-eq-ok (get_signature service encrypted_chunk algorithm) _ h in
      elim (Bool-cases
        (same_units hash (encoded_signature service encode legacy algorithm signature))) [
          | inl same ↦ (signature, s, same, rw same at t)
          | inr other ↦ let bad : err Error.integrity ≡ ok payload = rw other at t in cc
        ]

  -- The bytes of a segment are decrypted only when their signature, as the TDF's version encodes it,
  -- is the hash that the manifest has for them.
  pub decrypt_chunk-Checked :
      (algorithm : IntegrityAlgorithm) (encrypted_chunk hash payload : List ℕ)
      → decrypt_chunk service encode legacy algorithm encrypted_chunk hash ≡ ok payload
      → Checked algorithm encrypted_chunk hash payload
  unfolding decrypt_chunk
  decrypt_chunk-Checked IntegrityAlgorithm.gmac encrypted_chunk hash payload h =
      check_and_decrypt-Checked IntegrityAlgorithm.gmac encrypted_chunk hash payload h
  decrypt_chunk-Checked IntegrityAlgorithm.hs256 encrypted_chunk hash payload h =
      check_and_decrypt-Checked IntegrityAlgorithm.hs256 encrypted_chunk hash payload h
  decrypt_chunk-Checked IntegrityAlgorithm.other encrypted_chunk hash payload h = cc
