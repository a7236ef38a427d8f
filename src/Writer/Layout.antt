-- ===== src/Writer/Layout.antt =====
-- What a stream of writeStream (lib/tdf3/src/tdf.ts) holds when it is closed.
use mathlib.Core.List.{flatten}
use web_sdk.Base.{
  ℕ, ◌<◌, ◌≡◌, refl, sym, subst, Bool, true, false, List, [], some, ok, length, All, Returns,
  Returns-bind, Returns-chain, Returns-map, Returns-image, ◌⊎◌,
}
use web_sdk.Segments.{gmac}
use web_sdk.Writer.State.{Settings, Output, Writing, start, initial}
use web_sdk.Writer.Stream.{pulls, write_stream, default_encrypted_size}
use web_sdk.Writer.Emit.{write_all}
use web_sdk.Writer.Refinement.{seen, pulls-write_all}
use web_sdk.Writer.Track.{SignaturesAgree}
use web_sdk.Writer.Stored.{Started, start-Started, Stored, write_all-Stored}

module _ (cfg : Settings) where
  -- A closed stream with the whole of a content.
  abbrev pub Holds : List ℕ → Writing → Type 0
  Holds content w =
      (encrypted_size : ℕ) × (default_encrypted_size cfg ≡ ok encrypted_size)
      × (w.closed ≡ true)
      × (out : Output) × Stored cfg encrypted_size content out w.output

  module _ (positive : 0 < cfg.segment_size_default) where
    abbrev ClosedWith : ℕ → List ℕ → Output → Bool × Output → Type 0
    ClosedWith encrypted_size content out (closed, after) =
        (closed ≡ true) × Stored cfg encrypted_size content out after

    pulls-Stored :
        (encrypted_size : ℕ) (budgets : List ℕ) (source : List (List ℕ)) (out : Output)
        → SignaturesAgree cfg encrypted_size
        → All (λ budget. 0 < budget) budgets
        → length (flatten source) < length budgets
        → Started cfg out
        → Returns
            (λ w. ClosedWith encrypted_size (flatten source) out (seen w))
            (pulls cfg encrypted_size budgets
              (record { current_buffer = []; source = source; output = out; closed = false }))
    pulls-Stored encrypted_size budgets source out agree h l s =
        Returns-image (ClosedWith encrypted_size (flatten source) out) seen _ (
          subst (Returns (ClosedWith encrypted_size (flatten source) out))
            (sym (pulls-write_all cfg encrypted_size positive budgets [] source out h l))
            (Returns-chain (Stored cfg encrypted_size (flatten source) out)
              (ClosedWith encrypted_size (flatten source) out)
              (write_all cfg encrypted_size (flatten source) out) _
              (write_all-Stored cfg encrypted_size (flatten source) out agree s)
              (λ after k. (refl, k))))

    -- A stream of `writeStream` that does not fail is closed, when each call of `pull` has a positive
    -- budget and there are more calls than bytes, and holds a container of the encrypted pieces of the
    -- content and of a manifest: headers, data with their checksums and sizes in the descriptors, and a
    -- central directory with the offsets of the two. The manifest is made with the descriptions of those
    -- pieces, each with the hash that the reader computes of it. The default size of a segment is positive,
    -- and the TDF is not a legacy one or its segments are signed with GMAC.
    pub write_stream-Holds :
        (content : List (List ℕ)) (budgets : List ℕ)
        → (cfg.legacy ≡ false) ⊎ (cfg.segment_integrity_algorithm ≡ gmac)
        → All (λ budget. 0 < budget) budgets
        → length (flatten content) < length budgets
        → Returns (Holds (flatten content)) (write_stream cfg true (some content) budgets)
    unfolding write_stream
    write_stream-Holds content budgets agree h l =
        Returns-bind (Holds (flatten content)) (default_encrypted_size cfg) _ (λ size e.
          Returns-chain (Started cfg) (Holds (flatten content)) (start cfg initial) _
            (start-Started cfg)
            (λ out s.
              Returns-map (λ w. ClosedWith size (flatten content) out (seen w))
                (Holds (flatten content)) _ (pulls-Stored size budgets content out agree h l s)
                (λ w (c, k). (size, e, c, out, k))))
