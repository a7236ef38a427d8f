-- ===== src/Writer/Root.antt =====
-- The root signature that writeStream signs and decryptStreamFrom checks (lib/tdf3/src/tdf.ts).
use mathlib.Core.List.{flatten}
use web_sdk.Base.{
  ℕ, ◌<◌, ◌≡◌, refl, sym, ap, ◌∙◌, subst, false, List, [], ◌∷◌, ◌++◌, Result, ok, ◌>>=◌, >>=-eq-ok,
  Returns, Returns-bind, Returns-of, Returns-chain, Returns-map, All,
}
use web_sdk.Encodings.Base64
use web_sdk.Encodings.Base64.RoundTrip.{decode_array_buffer-encode_array_buffer}
use web_sdk.Granter.Records.{same_units_refl}
use web_sdk.Segments.{
  IntegrityAlgorithm, gmac, hs256, other, Segment, get_signature, encoded_signature,
}
use web_sdk.Segments.Root.{decode_hashes, supported, check_root}
use web_sdk.Writer.Emit.{write_segments}
use web_sdk.Writer.State.{Settings, Output, sign_segment, sign_root, enqueue}
use web_sdk.Writer.Stream.{segment_of, write_segment}
use web_sdk.Writer.Steps.{write_segment-eq-ok, processed}

decode_hashes-append :
    (segments : List Segment) (hashes : List (List ℕ)) (s : Segment) (hash : List ℕ)
    → decode_hashes segments ≡ ok hashes
    → Base64.decode_array_buffer s.hash ≡ ok hash
    → decode_hashes (segments ++ s ∷ []) ≡ ok (hashes ++ hash ∷ [])
unfolding decode_hashes
decode_hashes-append [] hashes s hash e f =
    let empty : [] ≡ hashes = cc in rw f (ap (λ r. ok (r ++ hash ∷ [])) empty)
decode_hashes-append (t ∷ segments) hashes s hash e f =
    let (first, g, h) = >>=-eq-ok (Base64.decode_array_buffer t.hash) _ e in
    let (rest, i, j) = >>=-eq-ok (decode_hashes segments) _ h in
    let whole : first ∷ rest ≡ hashes = cc in
    rw (g, decode_hashes-append segments rest s hash i f) (ap (λ r. ok (r ++ hash ∷ [])) whole)

module _ (cfg : Settings) (size : ℕ) (current : cfg.legacy ≡ false) where
  -- That the service and the tags make signatures of bytes.
  abbrev pub SignsBytes : Type 0
  SignsBytes =
      (payload sig : List ℕ)
      → get_signature cfg.service payload cfg.segment_integrity_algorithm ≡ ok sig
      → All (λ b. b < 256) sig

  -- That the hashes in the manifest are those that the root signature signs.
  abbrev pub Hashed : Output → Type 0
  Hashed out = decode_hashes out.segment_infos ≡ ok out.segment_hash_list

  sign_segment-hash :
      (payload hash : List ℕ) (out signed : Output)
      → sign_segment cfg payload out ≡ ok (hash, signed)
      → (sig : List ℕ) × (get_signature cfg.service payload cfg.segment_integrity_algorithm
          ≡ ok sig)
        × (Base64.encode_array_buffer false sig ≡ hash)
        × (out.segment_hash_list ++ sig ∷ [] ≡ signed.segment_hash_list)
  unfolding sign_segment
  sign_segment-hash payload hash out signed e =
      let (sig, f, g) =
        >>=-eq-ok (get_signature cfg.service payload cfg.segment_integrity_algorithm) _
          (rw current at e) in
      let same : record out { segment_hash_list = out.segment_hash_list ++ sig ∷ [] } ≡ signed =
        cc in
      (sig, f, cc, ap (λ r. r.segment_hash_list) same)

  write_segment-Hashed :
      (bytes : SignsBytes) (chunk : List ℕ) (out : Output)
      → Hashed out
      → Returns Hashed (write_segment cfg size chunk out)
  unfolding enqueue
  write_segment-Hashed bytes chunk out h =
      Returns-of Hashed (write_segment cfg size chunk out) (λ after e.
        let (payload, hash, signed, _, f, kept, w, _) =
          write_segment-eq-ok cfg size chunk out after e in
        let (sig, g, i, j) =
          sign_segment-hash payload hash (processed cfg size chunk out) signed f in
        let infos : out.segment_infos ≡ signed.segment_infos = ap (λ r. r.segment_infos) kept in
        let decoded : Base64.decode_array_buffer hash ≡ ok sig =
          ap Base64.decode_array_buffer (sym i)
          ∙ decode_array_buffer-encode_array_buffer false sig (bytes payload sig g) in
        let grown =
          decode_hashes-append out.segment_infos out.segment_hash_list
            (segment_of cfg size hash chunk payload) sig h decoded in
        subst Hashed w (
          ap (λ r. decode_hashes (r ++ segment_of cfg size hash chunk payload ∷ [])) (sym infos)
          ∙ grown
          ∙ ap ok j))

  write_segments-Hashed :
      (bytes : SignsBytes) (chunks : List (List ℕ)) (out : Output)
      → Hashed out
      → Returns Hashed (write_segments cfg size chunks out)
  unfolding write_segments
  write_segments-Hashed bytes [] out h = h
  write_segments-Hashed bytes (chunk ∷ chunks) out h =
      Returns-chain Hashed Hashed (write_segment cfg size chunk out) _
        (write_segment-Hashed bytes chunk out h)
        (λ next k. write_segments-Hashed bytes chunks next k)

  module _ (verify_assertions : List ℕ → Result {0} Unit) where
    -- That the reader accepts a root signature for the segments of an output.
    abbrev pub Accepted : Output → List ℕ × List ℕ → Type 0
    Accepted out (aggregate_hash, sig) =
        verify_assertions aggregate_hash ≡ ok tt
        → check_root cfg.service cfg.encode cfg.legacy verify_assertions cfg.integrity_algorithm sig
            out.segment_infos
          ≡ ok tt

    supported-signed :
        (algorithm : IntegrityAlgorithm) (content sig : List ℕ)
        → get_signature cfg.service content algorithm ≡ ok sig
        → supported algorithm ≡ ok tt
    unfolding supported get_signature
    supported-signed gmac content sig e = refl
    supported-signed hs256 content sig e = refl
    supported-signed other content sig e = cc

    sign_root-current :
        (out : Output)
        → sign_root cfg out ≡ (
            get_signature cfg.service (flatten out.segment_hash_list) cfg.integrity_algorithm
            >>= λ sig. ok (flatten out.segment_hash_list, Base64.encode_array_buffer false sig))
    unfolding sign_root
    sign_root-current out = rw current refl

    sign_root-Accepted : (out : Output) → Hashed out → Returns (Accepted out) (sign_root cfg out)
    unfolding check_root encoded_signature
    sign_root-Accepted out h = subst (Returns (Accepted out)) (sym (sign_root-current out)) (
        Returns-bind (Accepted out)
          (get_signature cfg.service (flatten out.segment_hash_list) cfg.integrity_algorithm) _
          (λ sig e verified.
            rw
              (
                h,
                supported-signed cfg.integrity_algorithm (flatten out.segment_hash_list) sig e,
                e,
                verified,
                current,
                same_units_refl (Base64.encode_array_buffer false sig),
              )
              refl))

    -- The root signature that `writeStream` computes after any segments, if it does not fail, is the one that
    -- decryptStreamFrom computes from the hashes of those segments in the manifest, so that its check
    -- passes when the assertions are verified. The TDF is not a legacy one, the signatures are bytes, and the
    -- writing starts without segments.
    pub sign_root-check :
        (bytes : SignsBytes) (chunks : List (List ℕ)) (out : Output)
        → Hashed out
        → Returns
            (λ after. Returns (Accepted after) (sign_root cfg after))
            (write_segments cfg size chunks out)
    sign_root-check bytes chunks out h =
        Returns-map Hashed (λ after. Returns (Accepted after) (sign_root cfg after))
          (write_segments cfg size chunks out) (write_segments-Hashed bytes chunks out h)
          (λ after k. sign_root-Accepted after k)
