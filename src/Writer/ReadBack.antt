-- ===== src/Writer/ReadBack.antt =====
-- The segments that writeStream (lib/tdf3/src/tdf.ts) writes, as decryptStreamFrom reads them.
use mathlib.Core.List.{flatten}
use web_sdk.Base.{
  ℕ, suc, ◌+◌, ◌≤◌, ◌≡◌, refl, sym, ap, ◌∙◌, subst, Bool, true, false, not, ◌&&◌, List, [], ◌∷◌,
  ◌++◌, Result, ok, err, ◌==◌, if◌then◌else◌, length, length-append, arith, append_assoc, slice,
  Bool-cases, eq→==, Error, inl, inr, ◌>>=◌,
}
use web_sdk.Base.Slices.{slice-middle}
use web_sdk.Cipher.{Decrypts, decrypt-encrypt}
use web_sdk.Cipher
use web_sdk.Segments.{
  IntegrityAlgorithm, gmac, hs256, other, Segment, Chunk, chunks_from, or_default, pending,
  get_signature, encoded_signature, check_and_decrypt, decrypt_chunk, decrypt_sized,
}
use web_sdk.Writer.State.{Settings, size_unless_default}
use web_sdk.Writer.Track.{Signs, Described, nothing, segment}
use web_sdk.Zip.Reader.{same_units}

-- That the chunks, fetched, decrypt to the pieces of the content.
pub data ReadsBack (cfg : Settings) (fetch : ℕ → ℕ → Result (List ℕ))
    : List Chunk → List (List ℕ) → Type 0 where
  read_nothing : ReadsBack cfg fetch [] []
  read_chunk :
      {chunk : Chunk} {chunks : List Chunk} {piece : List ℕ} {pieces : List (List ℕ)}
      → (fetch chunk.encrypted_offset chunk.encrypted_segment_size >>= λ bytes.
          decrypt_sized cfg.service cfg.encode cfg.legacy cfg.segment_integrity_algorithm bytes
            chunk)
        ≡ ok piece
      → ReadsBack cfg fetch chunks pieces
      → ReadsBack cfg fetch (chunk ∷ chunks) (piece ∷ pieces)

-- Where `fetch` serves the bytes of the payload.
abbrev pub Serves : List ℕ → (ℕ → ℕ → Result (List ℕ)) → Type 0
Serves bytes fetch =
    (offset n : ℕ)
    → offset + n ≤ length bytes
    → fetch offset n ≡ ok (slice bytes offset (offset + n))

or_default-size_unless_default :
    (default_size n : ℕ) → or_default (size_unless_default default_size n) default_size ≡ n
unfolding or_default size_unless_default
or_default-size_unless_default default_size n = elim (Bool-cases (n == default_size)) [
  | inl e ↦ rw e (ground arith)
  | inr e ↦ rw e refl
]

same_units_self : (xs : List ℕ) → same_units xs xs ≡ true
unfolding same_units
same_units_self [] = refl
same_units_self (x ∷ xs) = rw (eq→== x x refl) (same_units_self xs)

-- A size that is the expected one.
size_accepted :
    (b : Bool) (n : ℕ) (piece : List ℕ)
    → (if not b && not (n == n) then err Error.decrypt else ok piece) ≡ ok piece
size_accepted true n piece = refl
size_accepted false n piece = rw (eq→== n n refl) refl

module _ (cfg : Settings) (size : ℕ) (law : Decrypts cfg.service)
    (vectors : (n : ℕ) → length (cfg.iv n) ≡ 12) where
  check_and_decrypt-Signs :
      (algorithm : IntegrityAlgorithm) (payload hash sig piece : List ℕ)
      → get_signature cfg.service payload algorithm ≡ ok sig
      → hash ≡ encoded_signature cfg.service cfg.encode cfg.legacy algorithm sig
      → Cipher.decrypt cfg.service payload ≡ ok piece
      → check_and_decrypt cfg.service cfg.encode cfg.legacy algorithm payload hash ≡ ok piece
  unfolding check_and_decrypt
  check_and_decrypt-Signs algorithm payload hash sig piece e h d =
      rw (e, h, same_units_self (encoded_signature cfg.service cfg.encode cfg.legacy algorithm sig))
        d

  decrypt_chunk-Signs :
      (algorithm : IntegrityAlgorithm) (payload hash sig piece : List ℕ)
      → get_signature cfg.service payload algorithm ≡ ok sig
      → hash ≡ encoded_signature cfg.service cfg.encode cfg.legacy algorithm sig
      → Cipher.decrypt cfg.service payload ≡ ok piece
      → decrypt_chunk cfg.service cfg.encode cfg.legacy algorithm payload hash ≡ ok piece
  unfolding decrypt_chunk get_signature
  decrypt_chunk-Signs gmac payload hash sig piece e h d =
      check_and_decrypt-Signs gmac payload hash sig piece e h d
  decrypt_chunk-Signs hs256 payload hash sig piece e h d =
      check_and_decrypt-Signs hs256 payload hash sig piece e h d
  decrypt_chunk-Signs other payload hash sig piece e h d = cc

  -- A segment as it is written, of which the reader gets the bytes.
  decrypt_sized-written :
      (n offset : ℕ) (piece payload hash : List ℕ)
      → Cipher.encrypt cfg.service piece (cfg.iv (suc n)) ≡ ok payload
      → Signs cfg size payload hash
      → decrypt_sized cfg.service cfg.encode cfg.legacy cfg.segment_integrity_algorithm payload
          (record {
            hash = hash;
            plain_segment_size =
                or_default
                  (size_unless_default cfg.segment_size_default (length piece))
                  cfg.segment_size_default;
            encrypted_offset = offset;
            encrypted_segment_size = or_default (size_unless_default size (length payload)) size;
            decrypted_chunk = pending;
          })
        ≡ ok piece
  unfolding decrypt_sized
  decrypt_sized-written n offset piece payload hash e (sig, f, g) =
      rw
        (
          decrypt_chunk-Signs cfg.segment_integrity_algorithm payload hash sig piece f g
              (decrypt-encrypt cfg.service piece (cfg.iv (suc n)) payload law (vectors (suc n)) e),
          or_default-size_unless_default cfg.segment_size_default (length piece),
        )
        (size_accepted (length piece == 0) (length piece) piece)

  pub Described-ReadsBack :
      {n : ℕ} {pieces payloads : List (List ℕ)} {infos : List Segment} (front bytes : List ℕ)
      (fetch : ℕ → ℕ → Result (List ℕ))
      → Serves bytes fetch
      → bytes ≡ front ++ flatten payloads
      → Described cfg size n pieces payloads infos
      → ReadsBack cfg fetch (chunks_from size cfg.segment_size_default (length front) infos) pieces
  unfolding chunks_from flatten
  Described-ReadsBack front bytes fetch serves whole nothing = read_nothing
  Described-ReadsBack front bytes fetch serves whole
        (segment {n = n} {chunk = piece} {payload = payload} {hash = hash} {chunks = chunks}
          {payloads = payloads} {infos = infos} e signs more) =
      let known = or_default-size_unless_default size (length payload) in
      let within : length front + length payload ≤ length bytes = omega (
        arith,
        ap length whole,
        length-append front (payload ++ flatten payloads),
        length-append payload (flatten payloads),
      ) in
      let fetched : fetch (length front)
            (or_default (size_unless_default size (length payload)) size)
          ≡ ok payload =
        ap (λ r. fetch (length front) r) known
        ∙ serves (length front) (length payload) within
        ∙ ap (λ r. ok (slice r (length front) (length front + length payload))) whole
        ∙ ap ok (slice-middle front payload (flatten payloads) _ _ refl refl) in
      read_chunk (rw fetched (decrypt_sized-written n (length front) piece payload hash e signs)) (
        subst (λ r. ReadsBack cfg fetch (chunks_from size cfg.segment_size_default r infos) chunks)
          (length-append front payload ∙ ap (λ r. length front + r) (sym known))
          (Described-ReadsBack (front ++ payload) bytes fetch serves
            (whole ∙ sym (append_assoc front payload (flatten payloads))) more))
