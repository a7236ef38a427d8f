-- ===== src/Writer/Counted.antt =====
-- What `_countChunk` counts of a TDF as it is written (writeStream of lib/tdf3/src/tdf.ts).
use mathlib.Core.List.{flatten}
use web_sdk.Base.{
  ℕ, suc, ◌+◌, ◌<◌, ◌≤◌, ◌≡◌, refl, sym, ap, ◌∙◌, subst, true, List, [], ◌∷◌, ◌++◌, ok, err, Error,
  ltb, length, length-append, arith, append_assoc, append-nil, Bool-cases, inl, inr, Returns,
  Returns-bind, Returns-of, Returns-chain,
}
use web_sdk.Crc32
use web_sdk.Utf8
use web_sdk.Writer.State.{
  Settings, Output, enqueue, count_chunk, enqueue_and_count, enqueue_header, get_header,
  reset_counters, start, payload_name, manifest_name,
}
use web_sdk.Zip.Headers.{recalculate-local_file_header}

pub flatten-append_one :
    (xs : List (List ℕ)) (x : List ℕ) → flatten (xs ++ x ∷ []) ≡ flatten xs ++ x
unfolding flatten
flatten-append_one [] x = append-nil x
flatten-append_one (y ∷ xs) x =
    ap (λ r. y ++ r) (flatten-append_one xs x) ∙ sym (append_assoc y (flatten xs) x)

-- The output when a chunk is counted.
abbrev pub counted : List ℕ → Output → Output
counted chunk out = record out {
  total_byte_count = out.total_byte_count + length chunk;
  crc_counter = Crc32.unsigned chunk out.crc_counter;
  file_byte_count = out.file_byte_count + length chunk;
}

pub length-payload_name : length (Utf8.encode payload_name) ≡ 9
unfolding Utf8.encode
length-payload_name = refl

pub length-manifest_name : length (Utf8.encode manifest_name) ≡ 15
unfolding Utf8.encode
length-manifest_name = refl

module _ (cfg : Settings) where
  pub count_chunk-eq-ok :
      (chunk : List ℕ) (out after : Output)
      → count_chunk cfg chunk out ≡ ok after
      → (counted chunk out ≡ after) × (out.total_byte_count + length chunk ≤ cfg.byte_limit)
  unfolding count_chunk
  count_chunk-eq-ok chunk out after e =
      elim (Bool-cases (ltb cfg.byte_limit (out.total_byte_count + length chunk))) [
        | inl over ↦
            let stuck : count_chunk cfg chunk out ≡ err Error.configuration = rw over refl in cc
        | inr fits ↦
            let same : count_chunk cfg chunk out ≡ ok (counted chunk out) = rw fits refl in
            (cc, ground arith)
      ]

  pub length-get_header :
      (reading : ℕ) (name header : List ℕ)
      → length (Utf8.encode name) < 65536
      → get_header cfg reading name ≡ ok header
      → length header ≡ 58 + length (Utf8.encode name)
  unfolding get_header
  length-get_header reading name header h e =
      let whole = rw e at (
        recalculate-local_file_header name 0 0 0 (cfg.clock reading) [] true (omega arith)
          (omega arith) h) in
      let same : length header ≡ 30 + length (Utf8.encode name) + 28 = cc in omega arith

  -- The total is that of the bytes given to the controller, and within the limit.
  abbrev pub Sound : Output → Type 0
  Sound out =
      (out.total_byte_count ≡ length (flatten out.enqueued))
      × (out.total_byte_count ≤ cfg.byte_limit)

  pub length-enqueued :
      (out : Output) (chunk : List ℕ)
      → length (flatten (out.enqueued ++ chunk ∷ [])) ≡ length (flatten out.enqueued) + length chunk
  length-enqueued out chunk =
      ap length (flatten-append_one out.enqueued chunk) ∙ length-append (flatten out.enqueued) chunk

  -- A chunk that is counted in place of one of the same length that the controller is given.
  pub counted-Sound :
      (chunk same_length : List ℕ) (out after : Output)
      → Sound out
      → length same_length ≡ length chunk
      → count_chunk cfg same_length (enqueue chunk out) ≡ ok after
      → Sound after
  unfolding enqueue
  counted-Sound chunk same_length out after (t, l) h e =
      let (c, m) = count_chunk-eq-ok same_length (enqueue chunk out) after e in
      subst Sound c (omega (arith, length-enqueued out chunk), m)

  pub enqueue_header-Sound :
      (reading : ℕ) (name : List ℕ) (out : Output)
      → length (Utf8.encode name) < 65536
      → Sound out
      → Returns Sound (enqueue_header cfg reading name out)
  unfolding enqueue_header
  enqueue_header-Sound reading name out short s =
      Returns-bind Sound (get_header cfg reading name) _ (λ header f.
        Returns-bind Sound (get_header cfg (suc reading) name) _ (λ again i.
          Returns-of Sound (count_chunk cfg again (enqueue header out)) (λ after e.
            counted-Sound header again out after s
              (length-get_header (suc reading) name again short i
                ∙ sym (length-get_header reading name header short f))
              e)))

  pub enqueue_and_count-Sound :
      (chunk : List ℕ) (out : Output) → Sound out → Returns Sound (enqueue_and_count cfg chunk out)
  unfolding enqueue_and_count
  enqueue_and_count-Sound chunk out s =
      Returns-of Sound (count_chunk cfg chunk (enqueue chunk out))
        (λ after e. counted-Sound chunk chunk out after s refl e)

  pub start-Sound : (out : Output) → Sound out → Returns Sound (start cfg out)
  unfolding start reset_counters
  start-Sound out s =
      Returns-chain Sound Sound (enqueue_header cfg 0 payload_name out) _
        (enqueue_header-Sound 0 payload_name out (omega (arith, length-payload_name)) s)
        (λ headed h. h)
