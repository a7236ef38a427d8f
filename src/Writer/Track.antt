-- ===== src/Writer/Track.antt =====
-- How the segments of a payload enter the output and the manifest (_encryptAndCountSegment in
-- writeStream of lib/tdf3/src/tdf.ts).
use mathlib.Core.List.{flatten}
use web_sdk.Base.{
  ℕ, suc, ◌+◌, ◌≡◌, ◌⊎◌, refl, sym, ap, ◌∙◌, subst, false, List, [], ◌∷◌, ◌++◌, ok, length,
  length-append, arith, append_assoc, append-nil, inl, inr, >>=-eq-ok, Returns, Returns-bind,
  Returns-map, Bool-cases, drop, ◌-◌,
}
use web_sdk.Cipher
use web_sdk.Crc32
use web_sdk.Crc32.Laws.{unsigned-append}
use web_sdk.Segments.{gmac, Segment, get_signature, encoded_signature}
use web_sdk.Writer.State.{Settings, Output, enqueue, sign_segment, get_signature_version_422}
use web_sdk.Writer.Stream.{segment_of, write_segment}
use web_sdk.Writer.Counted.{counted, flatten-append_one}
use web_sdk.Writer.Emit.{write_segments}
use web_sdk.Writer.Steps.{processed, write_segment-eq-ok}

-- That the output is `front` with the `body` of the current entry behind it, and the counters
-- those of that entry.
abbrev pub Tracks : List ℕ → List ℕ → Output → Type 0
Tracks front body out =
    (flatten out.enqueued ≡ front ++ body)
    × (out.total_byte_count ≡ length front + length body)
    × (out.crc_counter ≡ Crc32.unsigned body 0)
    × (out.file_byte_count ≡ length body)

-- A chunk that is counted and given to the controller.
pub Tracks-counted :
    (front body chunk : List ℕ) (out : Output)
    → Tracks front body out
    → Tracks front (body ++ chunk) (enqueue chunk (counted chunk out))
unfolding enqueue
Tracks-counted front body chunk out (e, t, c, f) = (
  flatten-append_one out.enqueued chunk ∙ (ap (λ r. r ++ chunk) e ∙ append_assoc front body chunk),
  omega (arith, length-append body chunk),
  ap (λ r. Crc32.unsigned chunk r) c ∙ sym (unsigned-append body chunk 0),
  omega (arith, length-append body chunk),
)

module _ (cfg : Settings) (size : ℕ) where
  -- Where the two ways to sign agree on a segment.
  abbrev pub SignaturesAgree : Type 0
  SignaturesAgree = (cfg.legacy ≡ false) ⊎ (cfg.segment_integrity_algorithm ≡ gmac)

  -- The signature that the reader computes.
  abbrev pub Signs : List ℕ → List ℕ → Type 0
  Signs payload hash =
      (sig : List ℕ) × (get_signature cfg.service payload cfg.segment_integrity_algorithm ≡ ok sig)
      × (hash
          ≡ encoded_signature cfg.service cfg.encode cfg.legacy cfg.segment_integrity_algorithm sig)

  sign_segment-current :
      (payload hash : List ℕ) (out signed : Output)
      → cfg.legacy ≡ false
      → sign_segment cfg payload out ≡ ok (hash, signed)
      → Signs payload hash
  unfolding sign_segment encoded_signature
  sign_segment-current payload hash out signed current e =
      let (sig, f, g) =
        >>=-eq-ok (get_signature cfg.service payload cfg.segment_integrity_algorithm) _
          (rw current at e) in
      (sig, f, rw current cc)

  sign_segment-Signs :
      (payload hash : List ℕ) (out signed : Output)
      → SignaturesAgree
      → sign_segment cfg payload out ≡ ok (hash, signed)
      → Signs payload hash
  unfolding sign_segment get_signature encoded_signature get_signature_version_422
  sign_segment-Signs payload hash out signed (inl current) e =
      sign_segment-current payload hash out signed current e
  sign_segment-Signs payload hash out signed (inr tag) e = elim (Bool-cases cfg.legacy) [
    | inr current ↦ sign_segment-current payload hash out signed current e
    | inl legacy ↦
        let f = rw (legacy, tag) at e in
        rw (tag, legacy) (drop (length payload - 16) payload, refl, cc)
  ]

  -- What the writer has made of the segments of a content, from the n-th on: the encrypted payloads,
  -- and their descriptions in the manifest.
  pub data Described : ℕ → List (List ℕ) → List (List ℕ) → List Segment → Type 0 where
    nothing : {n : ℕ} → Described n [] [] []
    segment :
        {n : ℕ} {chunk payload hash : List ℕ} {chunks payloads : List (List ℕ)}
        {infos : List Segment}
        → Cipher.encrypt cfg.service chunk (cfg.iv (suc n)) ≡ ok payload
        → Signs payload hash
        → Described (suc n) chunks payloads infos
        → Described n
            (chunk ∷ chunks)
            (payload ∷ payloads)
            (segment_of cfg size hash chunk payload ∷ infos)

  abbrev pub Written : List (List ℕ) → Output → Output → Type 0
  Written chunks out after =
      (payloads : List (List ℕ)) × (infos : List Segment) × Described (length out.segment_infos)
        chunks payloads infos
      × (after.segment_infos ≡ out.segment_infos ++ infos)
      × ((front body : List ℕ)
          → Tracks front body out
          → Tracks front (body ++ flatten payloads) after)

  -- What the writing of a segment returns, and that of the ones behind it.
  write_segment-Written :
      (chunk : List ℕ) (chunks : List (List ℕ)) (out next after : Output)
      → SignaturesAgree
      → write_segment cfg size chunk out ≡ ok next
      → Written chunks next after
      → Written (chunk ∷ chunks) out after
  unfolding flatten enqueue
  write_segment-Written chunk chunks out next after agree e (payloads, infos, d, i, t) =
      let (payload, hash, signed, f, g, kept, w, _) =
        write_segment-eq-ok cfg size chunk out next e in
      let described = segment_of cfg size hash chunk payload in
      let same : out.segment_infos ≡ signed.segment_infos = ap (λ r. r.segment_infos) kept in
      let grown : out.segment_infos ++ described ∷ [] ≡ next.segment_infos =
        ap (λ r. r ++ described ∷ []) same ∙ ap (λ r. r.segment_infos) w in
      let counted_one : length next.segment_infos ≡ suc (length out.segment_infos) =
        ap length (sym grown)
        ∙ omega (arith, length-append {0} out.segment_infos (described ∷ [])) in
      (
        payload ∷ payloads,
        described ∷ infos,
        segment f (sign_segment-Signs payload hash (processed cfg size chunk out) signed agree g)
            (subst (λ r. Described r chunks payloads infos) counted_one d),
        i
            ∙ (ap (λ r. r ++ infos) (sym grown)
                ∙ append_assoc out.segment_infos (described ∷ []) infos),
        λ front body h.
            subst (λ r. Tracks front r after) (append_assoc body payload (flatten payloads))
              (t front (body ++ payload) (
                subst (Tracks front (body ++ payload)) w
                  (Tracks-counted front body payload signed (subst (Tracks front body) kept h)))),
      )

  pub write_segments-Written :
      (chunks : List (List ℕ)) (out : Output)
      → SignaturesAgree
      → Returns (Written chunks out) (write_segments cfg size chunks out)
  unfolding write_segments flatten
  write_segments-Written [] out agree = (
    [],
    [],
    nothing,
    sym (append-nil out.segment_infos),
    λ front body h. subst (λ r. Tracks front r out) (sym (append-nil body)) h,
  )
  write_segments-Written (chunk ∷ chunks) out agree =
      Returns-bind (Written (chunk ∷ chunks) out) (write_segment cfg size chunk out) _ (λ next e.
        Returns-map (Written chunks next) (Written (chunk ∷ chunks) out)
          (write_segments cfg size chunks next) (write_segments-Written chunks next agree)
          (λ after w. write_segment-Written chunk chunks out next after agree e w))
