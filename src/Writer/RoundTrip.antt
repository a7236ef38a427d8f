-- ===== src/Writer/RoundTrip.antt =====
-- A TDF that writeStream writes, read by getPayloadSegment and decryptStreamFrom (lib/tdf3/src/tdf.ts and
-- lib/tdf3/src/utils/zip-reader.ts).
use mathlib.Core.List.{flatten}
use web_sdk.Base.{
  ℕ, ◌+◌, ◌<◌, ◌≡◌, refl, sym, ap, ap₂, ◌∙◌, subst, Bool, true, false, List, [], ◌∷◌, ◌++◌, some,
  Result, ok, length, arith, append_assoc, slice, All, Returns, Returns-bind, Returns-map,
  Returns-eq_ok, ◌⊎◌,
}
use web_sdk.Base.Slices.{slice-within}
use web_sdk.Cipher.{Decrypts}
use web_sdk.Crc32
use web_sdk.Utf8
use web_sdk.Segments.{chunks_from, gmac}
use web_sdk.Writer.State.{
  Settings, Output, Writing, get_header, payload_name, manifest_name, external_attributes,
}
use web_sdk.Writer.Stream.{write_stream, default_encrypted_size}
use web_sdk.Writer.Counted.{length-get_header, length-payload_name}
use web_sdk.Writer.Cut.{pieces}
use web_sdk.Writer.Refinement.{seen}
use web_sdk.Writer.Container.{container}
use web_sdk.Writer.ReadBack.{ReadsBack, Serves, Described-ReadsBack}
use web_sdk.Zip.Dos.{Date}
use web_sdk.Zip.Reader.{Chunker, CentralDirectory, get_payload_segment, find_entry, same_units}
use web_sdk.Zip.Writer.{
  write_data_descriptor, write_central_directory_record, write_end_of_central_directory_record,
}
use web_sdk.Zip.RoundTrip.{entry}
use web_sdk.Writer.Stored.{Stored}
use web_sdk.Writer.Layout.{Holds, write_stream-Holds}

-- A chunker that serves a file.
abbrev pub served : List ℕ → Chunker
served file = record {
  from_end = λ n. ok file;
  range = λ byte_start byte_end. ok (slice file byte_start byte_end);
}

-- The fetches of a payload's bytes from a file whose central directory names the payload first.
abbrev pub payload_fetch :
    List ℕ → ℕ → ℕ → ℕ → Date → List CentralDirectory → ℕ → ℕ → Result (List ℕ)
payload_fetch file size crc attributes now others offset n =
    get_payload_segment (served file)
      (entry true size 0 payload_name crc attributes now 28 ∷ others) payload_name offset n

same_name : same_units (Utf8.utf16 payload_name) payload_name ≡ true
unfolding same_units Utf8.utf16
same_name = refl

module _ (size crc attributes : ℕ) (now : Date) (others : List CentralDirectory) where
  payload_fetch-Serves :
      (header payload rest : List ℕ)
      → length header ≡ 67
      → Serves payload (payload_fetch (header ++ (payload ++ rest)) size crc attributes now others)
  unfolding get_payload_segment find_entry
  payload_fetch-Serves header payload rest h offset n l = rw same_name (
      ap₂ (λ a b. ok (slice (header ++ (payload ++ rest)) a b))
        (omega (arith, h, length-payload_name)) (omega (arith, h, length-payload_name))
      ∙ ap ok (slice-within header payload rest offset (offset + n) (omega arith) l))

-- A file whose payload follows the header.
abbrev StartsWith : List ℕ → List ℕ → List ℕ → Type 0
StartsWith header payload file = (rest : List ℕ) × (file ≡ header ++ (payload ++ rest))

parts-StartsWith :
    (header payload d0 xs ys : List ℕ)
    → StartsWith header payload (((header ++ (payload ++ d0)) ++ xs) ++ ys)
parts-StartsWith header payload d0 xs ys = (d0 ++ (xs ++ ys), simp (append_assoc))

container-StartsWith :
    (cfg : Settings) (header payload manifest : List ℕ)
    → Returns (StartsWith header payload) (container cfg header payload manifest)
unfolding container
container-StartsWith cfg header payload manifest =
    let P = StartsWith header payload in
    Returns-bind P (write_data_descriptor true (Crc32.unsigned payload 0) (length payload)) _
      (λ d0 _. Returns-bind P (get_header cfg 2 manifest_name) _ (λ h1 _.
        Returns-bind P (write_data_descriptor true (Crc32.unsigned manifest 0) (length manifest)) _
          (λ d1 _.
            Returns-bind P
              (write_central_directory_record true (length payload) payload_name 0
                (Crc32.unsigned payload 0) external_attributes (cfg.clock 4))
              _
              (λ r0 _.
                Returns-bind P
                  (write_central_directory_record true (length manifest) manifest_name
                    (length (header ++ (payload ++ d0))) (Crc32.unsigned manifest 0)
                    external_attributes (cfg.clock 5))
                  _
                  (λ r1 _.
                    Returns-bind P
                      (write_end_of_central_directory_record true 2 (length (r0 ++ r1))
                        (length ((header ++ (payload ++ d0)) ++ (h1 ++ (manifest ++ d1)))))
                      _
                      (λ last _.
                        parts-StartsWith header payload d0 (h1 ++ (manifest ++ d1))
                          ((r0 ++ r1) ++ last)))))))

module _ (cfg : Settings) where
  -- That a stream is closed and its segments read back as the pieces of a content, whatever the
  -- record of the payload says besides its offset.
  abbrev pub Readable : ℕ → List ℕ → Bool × Output → Type 0
  Readable encrypted_size content (closed, out) =
      (closed ≡ true)
      × ((size crc attributes : ℕ) (now : Date) (others : List CentralDirectory)
          → ReadsBack cfg (payload_fetch (flatten out.enqueued) size crc attributes now others)
              (chunks_from encrypted_size cfg.segment_size_default 0 out.segment_infos)
              (pieces cfg.segment_size_default content))

  abbrev pub ReadsContent : List ℕ → Writing → Type 0
  ReadsContent content w =
      (encrypted_size : ℕ) × (default_encrypted_size cfg ≡ ok encrypted_size)
      × Readable encrypted_size content (seen w)

module _ (cfg : Settings) (positive : 0 < cfg.segment_size_default) (law : Decrypts cfg.service)
    (vectors : (n : ℕ) → length (cfg.iv n) ≡ 12) where
  Stored-Readable :
      (encrypted_size : ℕ) (content : List ℕ) (out after : Output)
      → Stored cfg encrypted_size content out after
      → Readable cfg encrypted_size content (true, after)
  Stored-Readable encrypted_size content out after
        (header, payloads, infos, e, d, i, aggregate, sig, manifest, f, g) =
      let (rest, h) =
        Returns-eq_ok (StartsWith header (flatten payloads))
          (container cfg header (flatten payloads) manifest)
          (container-StartsWith cfg header (flatten payloads) manifest) g in
      (
        refl,
        λ size crc attributes now others. rw i (
            Described-ReadsBack cfg encrypted_size law vectors [] (flatten payloads)
              (payload_fetch (flatten after.enqueued) size crc attributes now others)
              (subst
                (λ r. Serves (flatten payloads) (payload_fetch r size crc attributes now others))
                (sym h)
                (payload_fetch-Serves size crc attributes now others header (flatten payloads) rest
                  (omega (
                    arith,
                    length-get_header cfg 0 payload_name header (omega (arith, length-payload_name))
                        e,
                    length-payload_name,
                  ))))
              refl d),
      )

  -- What `writeStream` writes of a content can be read, unless it fails. When each call of `pull` has a
  -- positive budget and there are more calls than bytes, the stream is closed, and each segment that its
  -- manifest lists, at the offset and of the size that decryptStreamFrom computes for it, is fetched by
  -- getPayloadSegment and then checked and decrypted to the piece of the content that it was made of. A
  -- record of the central directory that names the payload at offset 0 is given. The service decrypts
  -- what it encrypts, initialization vectors have 12 bytes, the default size of a segment is positive, and
  -- the TDF is not a legacy one or its segments are signed with GMAC.
  pub write_stream-ReadsContent :
      (content : List (List ℕ)) (budgets : List ℕ)
      → (cfg.legacy ≡ false) ⊎ (cfg.segment_integrity_algorithm ≡ gmac)
      → All (λ budget. 0 < budget) budgets
      → length (flatten content) < length budgets
      → Returns (ReadsContent cfg (flatten content)) (write_stream cfg true (some content) budgets)
  write_stream-ReadsContent content budgets agree h l =
      Returns-map (Holds cfg (flatten content)) (ReadsContent cfg (flatten content))
        (write_stream cfg true (some content) budgets)
        (write_stream-Holds cfg positive content budgets agree h l)
        (λ w (size, e, closed, out, stored).
          (size, e, (closed, (Stored-Readable size (flatten content) out w.output stored).1)))
