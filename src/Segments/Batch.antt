-- ===== src/Segments/Batch.antt =====
-- sliceAndDecrypt of lib/tdf3/src/tdf.ts on the bytes of its batch.
use web_sdk.Base.{
  ℕ, ◌+◌, ◌<◌, ◌≡◌, ◌⊎◌, refl, sym, ap, subst, ◌∙◌, Bool, List, [], ◌∷◌, ◌++◌, none, ok, All, arith,
  length, slice, eq→==, append_assoc, length-append,
}
use web_sdk.Cipher.{CryptoService}
use web_sdk.Segments.{
  IntegrityAlgorithm, Mailbox, Chunk, settle, offset_in_buffer, decrypt_sized, decrypt_loop,
  slice_and_decrypt,
}
use web_sdk.Segments.Layout.{offset_in_buffer-exact}
use web_sdk.Base.Slices.{slice-middle}

-- What the chunks of a payload stand for: the bytes of each segment, and its plaintext.
abbrev pub Part : Type 0
Part = List ℕ × List ℕ

abbrev pub bytes_of : List Part → List ℕ
bytes_of [] = []
bytes_of ((encrypted, plain) ∷ parts) = encrypted ++ bytes_of parts

abbrev pub filled_with : List Part → List Mailbox
filled_with [] = []
filled_with ((encrypted, plain) ∷ parts) = Mailbox.filled plain ∷ filled_with parts

abbrev pub mailboxes : List Chunk → List Mailbox
mailboxes [] = []
mailboxes (chunk ∷ chunks) = chunk.decrypted_chunk ∷ mailboxes chunks

module _ (service : CryptoService) (encode : List ℕ → List ℕ) (legacy : Bool)
    (algorithm : IntegrityAlgorithm) where
  -- Chunks that stand one after the other from an offset on, each pending, with the size of its
  -- segment, whose bytes pass the check and decrypt to the plaintext.
  abbrev pub Stand : ℕ → List Chunk → List Part → Type 0
  Stand offset [] [] = Unit
  Stand offset [] (part ∷ parts) = ⊥
  Stand offset (chunk ∷ chunks) [] = ⊥
  Stand offset (chunk ∷ chunks) ((encrypted, plain) ∷ parts) =
      (chunk.encrypted_offset ≡ offset)
      × (chunk.encrypted_segment_size ≡ length encrypted)
      × (chunk.decrypted_chunk ≡ Mailbox.pending)
      × (decrypt_sized service encode legacy algorithm encrypted chunk ≡ ok plain)
      × Stand (offset + length encrypted) chunks parts

  abbrev pub Below : ℕ → Chunk → Type 0
  Below first chunk = (first ≡ 0) ⊎ (chunk.encrypted_offset < first + first)

  decrypt_loop-filled :
      (first offset : ℕ) (before : List ℕ) (chunks : List Chunk) (parts : List Part)
      → offset ≡ first + length before
      → Stand offset chunks parts
      → All (Below first) chunks
      → (mailboxes
            (decrypt_loop service encode legacy algorithm first (before ++ bytes_of parts) chunks).0
          ≡ filled_with parts)
        × ((decrypt_loop service encode legacy algorithm first (before ++ bytes_of parts) chunks).1
            ≡ none)
  unfolding decrypt_loop settle
  decrypt_loop-filled first offset before [] [] e s b = (refl, refl)
  decrypt_loop-filled first offset before [] (part ∷ parts) e s b = absurd s
  decrypt_loop-filled first offset before (chunk ∷ chunks) [] e s b = absurd s
  decrypt_loop-filled first offset before (chunk ∷ chunks) ((encrypted, plain) ∷ parts) e
        (at, size, waiting, good, s) (below, b) =
      let start : offset_in_buffer first chunk.encrypted_offset ≡ length before =
        (offset_in_buffer-exact first chunk.encrypted_offset (omega arith)).1 below ∙ omega arith in
      let bytes : slice (before ++ (encrypted ++ bytes_of parts)) (length before)
            (length before + length encrypted)
          ≡ encrypted =
        slice-middle before encrypted (bytes_of parts) _ _ refl refl in
      let (p, q) =
        decrypt_loop-filled first (offset + length encrypted) (before ++ encrypted) chunks parts
          (omega (arith, length-append {0} before encrypted)) s b in
      let joined = append_assoc before encrypted (bytes_of parts) in
      let p' : mailboxes
            (decrypt_loop service encode legacy algorithm first
              (before ++ (encrypted ++ bytes_of parts)) chunks).0
          ≡ filled_with parts =
        rw joined at p in
      let q' : (decrypt_loop service encode legacy algorithm first
            (before ++ (encrypted ++ bytes_of parts)) chunks).1
          ≡ none =
        rw joined at q in
      rw (start, size, bytes, eq→== (length encrypted) (length encrypted) refl, good)
        (
          ap
                (λ m.
                  settle (ok plain) m
                  ∷ mailboxes
                      (decrypt_loop service encode legacy algorithm first
                        (before ++ (encrypted ++ bytes_of parts)) chunks).0)
                waiting
              ∙ ap (λ r. Mailbox.filled plain ∷ r) p',
          q',
        )

  -- Given the bytes of its batch, `sliceAndDecrypt` fills the mailbox of each chunk with the plaintext
  -- of its own segment, in order, and throws nothing. The chunks are pending, stand one after the
  -- other, and their segments pass the check and decrypt; the batch starts the payload, or no
  -- chunk of it lies at twice the first one's offset or beyond.
  pub slice_and_decrypt-filled :
      (offset : ℕ) (chunks : List Chunk) (parts : List Part)
      → Stand offset chunks parts
      → All (Below offset) chunks
      → (mailboxes (slice_and_decrypt service encode legacy algorithm (bytes_of parts) chunks).0
          ≡ filled_with parts)
        × ((slice_and_decrypt service encode legacy algorithm (bytes_of parts) chunks).1 ≡ none)
  unfolding slice_and_decrypt
  slice_and_decrypt-filled offset [] [] s b = (refl, refl)
  slice_and_decrypt-filled offset [] (part ∷ parts) s b = absurd s
  slice_and_decrypt-filled offset (chunk ∷ chunks) [] s b = absurd s
  slice_and_decrypt-filled offset (chunk ∷ chunks) ((encrypted, plain) ∷ parts) s b =
      let at : chunk.encrypted_offset ≡ offset = s.0 in
      decrypt_loop-filled chunk.encrypted_offset offset [] (chunk ∷ chunks)
        ((encrypted, plain) ∷ parts) (omega arith) s
        (subst (λ r. All (Below r) (chunk ∷ chunks)) (sym s.0) b)
