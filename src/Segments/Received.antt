-- ===== src/Segments/Received.antt =====
-- What each chunk of a batch gets from fetchAndDecryptChunkSlice of lib/tdf3/src/tdf.ts.
use web_sdk.Base.{
  ℕ, ◌+◌, ◌≡◌, ◌≢◌, ◌⊎◌, refl, ap₂, subst, Bool, true, false, not, ◌&&◌, List, [], ◌∷◌, Option,
  none, some, Result, ok, err, Error, All, length, map, slice, ◌==◌, arith, Bool-cases,
  Result-cases, inl, inr, >>=-eq-ok, if◌then◌else◌,
}
use web_sdk.Cipher.{CryptoService}
use web_sdk.Segments.{
  IntegrityAlgorithm, Mailbox, Chunk, settle, settle_chunk, reject_chunks, fetch_error, total_size,
  offset_in_buffer, decrypt_chunk, decrypt_sized, decrypt_loop, slice_and_decrypt, reject_thrown,
  decrypt_fetched, fetch_and_decrypt_chunk_slice,
}
use web_sdk.Segments.Settled.{Checked, decrypt_chunk-Checked}

-- No promise of these has been settled.
abbrev pub Fresh : List Chunk → Type 0
Fresh chunks = All (λ c. c.decrypted_chunk ≡ Mailbox.pending) chunks

-- A chunk with another mailbox, and chunks that are all rejected.
abbrev pub with_mailbox : Mailbox → Chunk → Chunk
with_mailbox m chunk = record chunk { decrypted_chunk = m }

abbrev pub all_rejected : Error → List Chunk → List Chunk
all_rejected e chunks = map (with_mailbox (Mailbox.rejected e)) chunks

-- How a failed request is reported.
abbrev pub Reported : Error → Error → Type 0
Reported e reported =
    ((e ≡ Error.invalid_file) × (reported ≡ Error.invalid_file))
    ⊎ ((e ≢ Error.invalid_file) × (reported ≡ Error.network))

settle-fresh :
    (r : Result (List ℕ)) (chunk : Chunk)
    → chunk.decrypted_chunk ≡ Mailbox.pending
    → settle_chunk r chunk ≡ with_mailbox (settle r Mailbox.pending) chunk
unfolding settle_chunk
settle-fresh r chunk h = rw h refl

reject-Fresh :
    (e : Error) (chunks : List Chunk)
    → Fresh chunks
    → reject_chunks chunks e ≡ all_rejected e chunks
unfolding reject_chunks settle
reject-Fresh e [] h = refl
reject-Fresh e (chunk ∷ chunks) (first, rest) =
    ap₂ (λ c cs. c ∷ cs) (settle-fresh (err e) chunk first) (reject-Fresh e chunks rest)

settle-kept : (r s : Result (List ℕ)) (m : Mailbox) → settle s (settle r m) ≡ settle r m
unfolding settle
settle-kept (ok p) (ok q) Mailbox.pending = refl
settle-kept (ok p) (err e) Mailbox.pending = refl
settle-kept (err e) (ok q) Mailbox.pending = refl
settle-kept (err e) (err f) Mailbox.pending = refl
settle-kept (ok a) (ok b) (Mailbox.filled p) = refl
settle-kept (ok a) (ok b) (Mailbox.rejected p) = refl
settle-kept (ok a) (err b) (Mailbox.filled p) = refl
settle-kept (ok a) (err b) (Mailbox.rejected p) = refl
settle-kept (err a) (ok b) (Mailbox.filled p) = refl
settle-kept (err a) (ok b) (Mailbox.rejected p) = refl
settle-kept (err a) (err b) (Mailbox.filled p) = refl
settle-kept (err a) (err b) (Mailbox.rejected p) = refl

fetch_error-Reported : (e : Error) → Reported e (fetch_error e)
unfolding fetch_error
fetch_error-Reported Error.invalid_file = inl (refl, refl)
fetch_error-Reported Error.configuration = inr (λ e. cc, refl)
fetch_error-Reported Error.decrypt = inr (λ e. cc, refl)
fetch_error-Reported Error.integrity = inr (λ e. cc, refl)
fetch_error-Reported Error.unsafe_url = inr (λ e. cc, refl)
fetch_error-Reported Error.network = inr (λ e. cc, refl)
fetch_error-Reported Error.unsupported = inr (λ e. cc, refl)
fetch_error-Reported Error.invalid_character = inr (λ e. cc, refl)
fetch_error-Reported Error.tdf = inr (λ e. cc, refl)
fetch_error-Reported Error.attribute_not_found = inr (λ e. cc, refl)
fetch_error-Reported Error.generic = inr (λ e. cc, refl)

module _ (service : CryptoService) (encode : List ℕ → List ℕ) (legacy : Bool)
    (algorithm : IntegrityAlgorithm) where
  -- The bytes of a chunk in the buffer of its batch, whose first chunk is at `first`.
  abbrev pub part : ℕ → List ℕ → Chunk → List ℕ
  part first buffer chunk =
      let offset = offset_in_buffer first chunk.encrypted_offset in
      slice buffer offset (offset + chunk.encrypted_segment_size)

  -- A chunk that has been opened: its mailbox has the bytes that its part of the buffer decrypts to, with its signature
  -- and its size checked, or what opening it threw.
  abbrev pub Opened : List ℕ → Chunk → Chunk → Type 0
  Opened bytes chunk after =
      ((payload : List ℕ) × Checked service encode legacy algorithm bytes chunk.hash payload
        × ((chunk.plain_segment_size ≡ 0) ⊎ (length payload ≡ chunk.plain_segment_size))
        × (after ≡ with_mailbox (Mailbox.filled payload) chunk))
      ⊎ ((e : Error) × (decrypt_sized service encode legacy algorithm bytes chunk ≡ err e)
          × (after ≡ with_mailbox (Mailbox.rejected e) chunk))

  -- The chunks up to the first that the buffer is too short for have been opened, and all from that one on are rejected.
  abbrev pub Delivered : ℕ → List ℕ → List Chunk → List Chunk → Type 0
  Delivered first buffer [] after = after ≡ []
  Delivered first buffer (chunk ∷ chunks) after =
      ((length (part first buffer chunk) ≡ chunk.encrypted_segment_size)
        × ((opened : Chunk) × (rest : List Chunk) × (after ≡ opened ∷ rest)
            × Opened (part first buffer chunk) chunk opened
            × Delivered first buffer chunks rest))
      ⊎ ((length (part first buffer chunk) ≢ chunk.encrypted_segment_size)
          × (after ≡ all_rejected Error.decrypt (chunk ∷ chunks)))

  -- What a batch gets of the request for its bytes.
  abbrev pub Received : Chunk → List Chunk → Result (List ℕ) → List Chunk → Type 0
  Received first chunks (err e) after =
      (reported : Error) × Reported e reported × (after ≡ all_rejected reported (first ∷ chunks))
  Received first chunks (ok buffer) after =
      Delivered first.encrypted_offset buffer (first ∷ chunks) after

  decrypt_sized-ok :
      (bytes payload : List ℕ) (chunk : Chunk)
      → decrypt_sized service encode legacy algorithm bytes chunk ≡ ok payload
      → Checked service encode legacy algorithm bytes chunk.hash payload
        × ((chunk.plain_segment_size ≡ 0) ⊎ (length payload ≡ chunk.plain_segment_size))
  unfolding decrypt_sized
  decrypt_sized-ok bytes payload chunk h =
      let (p, e, f) =
        >>=-eq-ok (decrypt_chunk service encode legacy algorithm bytes chunk.hash) _ h in
      sized p e (Bool-cases (chunk.plain_segment_size == 0))
        (Bool-cases (length p == chunk.plain_segment_size)) f
    where
      sized :
          (p : List ℕ)
          → decrypt_chunk service encode legacy algorithm bytes chunk.hash ≡ ok p
          → ((chunk.plain_segment_size == 0) ≡ true) ⊎ ((chunk.plain_segment_size == 0) ≡ false)
          → ((length p == chunk.plain_segment_size) ≡ true)
            ⊎ ((length p == chunk.plain_segment_size) ≡ false)
          → (if not (chunk.plain_segment_size == 0) && not (length p == chunk.plain_segment_size)
              then err Error.decrypt
              else ok p)
            ≡ ok payload
          → Checked service encode legacy algorithm bytes chunk.hash payload
            × ((chunk.plain_segment_size ≡ 0) ⊎ (length payload ≡ chunk.plain_segment_size))
      sized p e (inl none_given) fits f =
          let same : p ≡ payload = (let g = rw none_given at f in cc) in
          (
            subst (Checked service encode legacy algorithm bytes chunk.hash) same
                (decrypt_chunk-Checked service encode legacy algorithm bytes chunk.hash p e),
            inl (ground arith),
          )
      sized p e (inr given) (inl fits) f =
          let same : p ≡ payload = (let g = rw (given, fits) at f in cc) in
          (
            subst (Checked service encode legacy algorithm bytes chunk.hash) same
                (decrypt_chunk-Checked service encode legacy algorithm bytes chunk.hash p e),
            inr (subst (λ q. length q ≡ chunk.plain_segment_size) same (ground arith)),
          )
      sized p e (inr given) (inr differs) f =
          let bad : err Error.decrypt ≡ ok payload = rw (given, differs) at f in cc

  open-Opened :
      (bytes : List ℕ) (chunk : Chunk)
      → chunk.decrypted_chunk ≡ Mailbox.pending
      → Opened bytes chunk
          (settle_chunk (decrypt_sized service encode legacy algorithm bytes chunk) chunk)
  unfolding settle
  open-Opened bytes chunk fresh =
      elim (Result-cases (decrypt_sized service encode legacy algorithm bytes chunk)) [
        | inl (e, h) ↦ inr (e, h, rw h (settle-fresh (err e) chunk fresh))
        | inr (payload, h) ↦
            let (checked, sized) = decrypt_sized-ok bytes payload chunk h in
            inl (payload, checked, sized, rw h (settle-fresh (ok payload) chunk fresh))
      ]

  settled : List Chunk × Option Error → List Chunk
  settled r = (reject_thrown service encode legacy algorithm r).0

  -- A chunk that has been settled stays as it is when the batch is rejected.
  settled-cons :
      (r : Result (List ℕ)) (chunk : Chunk) (rest : List Chunk) (thrown : Option Error)
      → settled (settle_chunk r chunk ∷ rest, thrown)
        ≡ settle_chunk r chunk ∷ settled (rest, thrown)
  unfolding settled reject_thrown reject_chunks settle_chunk
  settled-cons r chunk rest none = refl
  settled-cons r chunk rest (some e) = rw (settle-kept r (err e) chunk.decrypted_chunk) refl

  decrypt_loop-Delivered :
      (first : ℕ) (buffer : List ℕ) (chunks : List Chunk)
      → Fresh chunks
      → Delivered first buffer chunks
          (settled (decrypt_loop service encode legacy algorithm first buffer chunks))
  unfolding decrypt_loop settled reject_thrown
  decrypt_loop-Delivered first buffer [] fresh = refl
  decrypt_loop-Delivered first buffer (chunk ∷ chunks) (one, fresh) =
      elim (Bool-cases (length (part first buffer chunk) == chunk.encrypted_segment_size)) [
        | inl whole ↦
            let r = decrypt_sized service encode legacy algorithm (part first buffer chunk) chunk in
            let (rest, thrown) = decrypt_loop service encode legacy algorithm first buffer chunks in
            rw whole (
              inl (
                ground arith,
                (
                  settle_chunk r chunk,
                  settled (rest, thrown),
                  settled-cons r chunk rest thrown,
                  open-Opened (part first buffer chunk) chunk one,
                  decrypt_loop-Delivered first buffer chunks fresh,
                ),
              ))
        | inr short ↦
            rw short (inr (ground arith, reject-Fresh Error.decrypt (chunk ∷ chunks) (one, fresh)))
      ]

  -- When the promises of a batch are fresh, each is settled. If the request fails they are all rejected with what is
  -- reported of it, an invalid file or else a network error. Otherwise each chunk gets, up to the first that the
  -- response is too short for, the bytes that its part of the response decrypts to, whose signature is that of
  -- the manifest and whose size is too, unless that is 0 or left out, or is rejected with what opening it threw; and
  -- from that first one on, all are rejected. No chunk is lost, and nothing else of a chunk changes.
  pub fetch_and_decrypt-Received :
      (fetch : ℕ → ℕ → Result (List ℕ)) (first : Chunk) (chunks : List Chunk)
      → Fresh (first ∷ chunks)
      → Received first chunks
          (fetch first.encrypted_offset (total_size (first ∷ chunks)))
          (fetch_and_decrypt_chunk_slice service encode legacy algorithm fetch (first ∷ chunks)).0
  unfolding fetch_and_decrypt_chunk_slice decrypt_fetched slice_and_decrypt settled
  fetch_and_decrypt-Received fetch first chunks fresh = received (fetch first.encrypted_offset _)
    where
      received :
          (fetched : Result (List ℕ))
          → Received first chunks fetched
              (decrypt_fetched service encode legacy algorithm (first ∷ chunks) fetched).0
      received (err e) = (
        fetch_error e,
        fetch_error-Reported e,
        reject-Fresh (fetch_error e) (first ∷ chunks) fresh,
      )
      received (ok buffer) =
          decrypt_loop-Delivered first.encrypted_offset buffer (first ∷ chunks) fresh
