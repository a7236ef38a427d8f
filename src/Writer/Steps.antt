-- ===== src/Writer/Steps.antt =====
-- What the writing of a segment does to the output (_encryptAndCountSegment in writeStream of
-- lib/tdf3/src/tdf.ts).
use web_sdk.Base.{
  ℕ, suc, ◌+◌, ◌≤◌, ◌≡◌, refl, sym, ap, ◌∙◌, subst, List, [], ◌∷◌, ◌++◌, ok, length, Bool-cases,
  inl, inr, >>=-eq-ok,
}
use web_sdk.Cipher
use web_sdk.Segments.{get_signature}
use web_sdk.Writer.State.{
  Settings, Output, enqueue, count_chunk, sign_segment, get_signature_version_422,
}
use web_sdk.Writer.Stream.{segment_of, encrypt_and_count_segment, write_segment}
use web_sdk.Writer.Counted.{counted, count_chunk-eq-ok}

module _ (cfg : Settings) where
  -- The output with what a segment's signature changes.
  abbrev pub with_signatures : Output → Output → Output
  with_signatures out signed = record out {
    segment_hash_list = signed.segment_hash_list;
    aggregate_hash_422 = signed.aggregate_hash_422;
  }

  sign_segment-kept :
      (payload hash : List ℕ) (out signed : Output)
      → sign_segment cfg payload out ≡ ok (hash, signed)
      → with_signatures out signed ≡ signed
  unfolding sign_segment
  sign_segment-kept payload hash out signed e = elim (Bool-cases cfg.legacy) [
    | inl legacy ↦
        let (sig, _, g) =
          >>=-eq-ok (get_signature_version_422 cfg payload cfg.segment_integrity_algorithm) _
            (rw legacy at e) in
        let same : record out { aggregate_hash_422 = out.aggregate_hash_422 ++ sig } ≡ signed =
          cc in
        subst (λ r. with_signatures out r ≡ r) same refl
    | inr current ↦
        let (sig, _, g) =
          >>=-eq-ok (get_signature cfg.service payload cfg.segment_integrity_algorithm) _
            (rw current at e) in
        let same : record out { segment_hash_list = out.segment_hash_list ++ sig ∷ [] } ≡ signed =
          cc in
        subst (λ r. with_signatures out r ≡ r) same refl
  ]

  module _ (size : ℕ) where
    -- The output with a segment written.
    abbrev pub written : List ℕ → List ℕ → List ℕ → Output → Output
    written hash chunk payload out = enqueue payload (
        counted payload (record out {
          segment_infos = out.segment_infos ++ segment_of cfg size hash chunk payload ∷ [];
        }))

    abbrev pub processed : List ℕ → Output → Output
    processed chunk out = record out { bytes_processed = out.bytes_processed + length chunk }

    pub write_segment-eq-ok :
        (chunk : List ℕ) (out after : Output)
        → write_segment cfg size chunk out ≡ ok after
        → (payload : List ℕ) × (hash : List ℕ) × (signed : Output) × (Cipher.encrypt cfg.service
              chunk
              (cfg.iv (suc (length out.segment_infos)))
            ≡ ok payload)
          × (sign_segment cfg payload (processed chunk out) ≡ ok (hash, signed))
          × (with_signatures (processed chunk out) signed ≡ signed)
          × (written hash chunk payload signed ≡ after)
          × (out.total_byte_count + length payload ≤ cfg.byte_limit)
    unfolding write_segment encrypt_and_count_segment
    write_segment-eq-ok chunk out after e =
        let ((payload, counted_out), f, g) =
          >>=-eq-ok (encrypt_and_count_segment cfg size chunk out) _ e in
        let (encrypted, h, i) =
          >>=-eq-ok (Cipher.encrypt cfg.service chunk (cfg.iv (suc (length out.segment_infos)))) _
            f in
        let ((hash, signed), j, k) =
          >>=-eq-ok (sign_segment cfg encrypted (processed chunk out)) _ i in
        let kept = sign_segment-kept encrypted hash (processed chunk out) signed j in
        let described : Output = record signed {
          segment_infos = signed.segment_infos ++ segment_of cfg size hash chunk encrypted ∷ [];
        } in
        let (last, l, m) = >>=-eq-ok (count_chunk cfg encrypted described) _ k in
        let (n, bound) = count_chunk-eq-ok cfg encrypted described last l in
        let same_payload : encrypted ≡ payload = cc in
        let same_out : last ≡ counted_out = cc in
        let whole : enqueue payload counted_out ≡ after = cc in
        (
          encrypted,
          hash,
          signed,
          h,
          j,
          kept,
          ap (λ r. enqueue encrypted r) n
              ∙ (ap (λ r. enqueue r last) same_payload
                  ∙ (ap (λ r. enqueue payload r) same_out ∙ whole)),
          subst (λ r. r.total_byte_count + length encrypted ≤ cfg.byte_limit) (sym kept) bound,
        )
