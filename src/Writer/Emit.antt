-- ===== src/Writer/Emit.antt =====
-- The two loops of `pull` (writeStream of lib/tdf3/src/tdf.ts): the reads of the source and the full
-- segments, and the writing of all segments at once.
use mathlib.Core.List.{flatten}
use web_sdk.Base.{
  ℕ, zero, suc, ◌<◌, ◌≤◌, ◌≡◌, refl, sym, ap, ◌∙◌, Bool, true, false, List, [], ◌∷◌, ◌++◌, Result,
  ok, ltb, leb, length, take, drop, length-drop, length-append, arith, append_assoc, append-nil,
  Bool-cases, inl, inr, lt→leb, le→leb, ◌>>=◌, bind_assoc, bind_cong, >>=-eq-ok,
}
use web_sdk.Base.Slices.{take-append_short, drop-append_short}
use web_sdk.Bytes.{concat_uint8}
use web_sdk.Bytes.Concat.{concat_uint8-eq-flatten}
use web_sdk.Writer.State.{Settings, Output, Writing, read_source}
use web_sdk.Writer.Stream.{write_segment, emit, finish}
use web_sdk.Writer.Cut.{pieces, pieces-full}

-- All the segments, one after the other.
unfoldable pub write_segments : Settings → ℕ → List (List ℕ) → Output → Result Output
write_segments cfg encrypted_size [] out = ok out
write_segments cfg encrypted_size (segment ∷ segments) out =
    write_segment cfg encrypted_size segment out >>= λ out.
    write_segments cfg encrypted_size segments out

-- The writing of a whole content at once.
unfoldable pub write_all : Settings → ℕ → List ℕ → Output → Result Output
unfolding write_segments
write_all cfg encrypted_size content out =
    write_segments cfg encrypted_size (pieces cfg.segment_size_default content) out >>= λ out.
    finish cfg encrypted_size out

-- What the stream has still to write.
abbrev pub remaining : Writing → List ℕ
remaining w = w.current_buffer ++ flatten w.source

concat-two : (xs ys : List ℕ) → concat_uint8 (xs ∷ ys ∷ []) ≡ xs ++ ys
unfolding flatten
concat-two xs ys = concat_uint8-eq-flatten (xs ∷ ys ∷ []) ∙ ap (λ r. xs ++ r) (append-nil ys)

-- What the loop that fills the buffer leaves: the same content, a full buffer if it is not done, and
-- else a buffer that is not full and no more content.
abbrev pub Filled : ℕ → List ℕ → List ℕ × List (List ℕ) × Bool → Type 0
Filled size content (buffer, source, true) =
    (buffer ++ flatten source ≡ content) × ((source ≡ []) × (length buffer < size))
Filled size content (buffer, source, false) =
    (buffer ++ flatten source ≡ content) × (size ≤ length buffer)

pub read_source-Filled :
    (size : ℕ) (buffer : List ℕ) (source : List (List ℕ))
    → Filled size (buffer ++ flatten source) (read_source size buffer source)
unfolding read_source flatten
read_source-Filled size buffer [] = elim (Bool-cases (ltb (length buffer) size)) [
  | inl e ↦ rw e (refl, (refl, ground arith))
  | inr e ↦ rw e (refl, ground arith)
]
read_source-Filled size buffer (value ∷ source) = elim (Bool-cases (ltb (length buffer) size)) [
  | inl e ↦ rw e (
      rw (← append_assoc buffer value (flatten source), ← concat-two buffer value)
        (read_source-Filled size (concat_uint8 (buffer ∷ value ∷ [])) source))
  | inr e ↦ rw e (refl, ground arith)
]

module _ (cfg : Settings) (encrypted_size : ℕ) (positive : 0 < cfg.segment_size_default) where
  abbrev pub size : ℕ
  size = cfg.segment_size_default

  abbrev pub complete : List ℕ → Output → Result Output
  complete content out = write_all cfg encrypted_size content out

  abbrev pub complete_rest : List ℕ → List ℕ × Output → Result Output
  complete_rest rest (buffer, out) = complete (buffer ++ rest) out

  write_all-full :
      (content : List ℕ) (out : Output)
      → size ≤ length content
      → complete content out ≡ (
          write_segment cfg encrypted_size (take size content) out >>= λ out.
          complete (drop size content) out)
  unfolding write_all write_segments
  write_all-full content out h = rw (pieces-full size positive content h) (
      bind_assoc (write_segment cfg encrypted_size (take size content) out)
        (λ out. write_segments cfg encrypted_size (pieces size (drop size content)) out)
        (λ out. finish cfg encrypted_size out))

  -- The segments that the loop writes are the first ones of the content.
  pub emit-write_all :
      (budget : ℕ) (buffer rest : List ℕ) (out : Output)
      → (emit cfg encrypted_size budget buffer out >>= λ p. complete_rest rest p)
        ≡ complete (buffer ++ rest) out
  unfolding emit
  emit-write_all zero buffer rest out = refl
  emit-write_all (suc budget) buffer rest out = elim (Bool-cases (leb size (length buffer))) [
    | inr e ↦ rw e refl
    | inl e ↦
        let h : size ≤ length buffer = ground arith in
        rw e (
          bind_assoc (write_segment cfg encrypted_size (take size buffer) out)
            (λ out. emit cfg encrypted_size budget (drop size buffer) out)
            (λ p. complete_rest rest p)
          ∙ bind_cong (write_segment cfg encrypted_size (take size buffer) out)
              (λ out. emit-write_all budget (drop size buffer) rest out)
          ∙ sym (
              write_all-full (buffer ++ rest) out (omega (arith, length-append buffer rest))
              ∙ rw (take-append_short size buffer rest h, drop-append_short size buffer rest h)
                  refl))
  ]

  -- The loop takes a segment off the buffer, if it has one and a budget.
  emit-length :
      (budget : ℕ) (buffer left : List ℕ) (out after : Output)
      → emit cfg encrypted_size budget buffer out ≡ ok (left, after)
      → length left ≤ length buffer
  unfolding emit
  emit-length zero buffer left out after e = let h : buffer ≡ left = cc in rw h (omega arith)
  emit-length (suc budget) buffer left out after e = elim (Bool-cases (leb size (length buffer))) [
    | inr short ↦
        let same : emit cfg encrypted_size (suc budget) buffer out ≡ ok (buffer, out) =
          rw short refl in
        let h : buffer ≡ left = cc in rw h (omega arith)
    | inl full ↦
        let same : emit cfg encrypted_size (suc budget) buffer out ≡ (
            write_segment cfg encrypted_size (take size buffer) out >>= λ out.
            emit cfg encrypted_size budget (drop size buffer) out) =
          rw full refl in
        let (next, f, g) =
          >>=-eq-ok (write_segment cfg encrypted_size (take size buffer) out)
            (λ out. emit cfg encrypted_size budget (drop size buffer) out) (sym same ∙ e) in
        let shorter = emit-length budget (drop size buffer) left next after g in
        omega (arith, length-drop size buffer)
  ]

  pub emit-shorter :
      (budget : ℕ) (buffer left : List ℕ) (out after : Output)
      → 0 < budget
      → size ≤ length buffer
      → emit cfg encrypted_size budget buffer out ≡ ok (left, after)
      → length left < length buffer
  unfolding emit
  emit-shorter zero buffer left out after p h e = absurd (omega arith)
  emit-shorter (suc budget) buffer left out after p h e =
      let same : emit cfg encrypted_size (suc budget) buffer out ≡ (
          write_segment cfg encrypted_size (take size buffer) out >>= λ out.
          emit cfg encrypted_size budget (drop size buffer) out) =
        rw (le→leb size (length buffer) h) refl in
      let (next, f, g) =
        >>=-eq-ok (write_segment cfg encrypted_size (take size buffer) out)
          (λ out. emit cfg encrypted_size budget (drop size buffer) out) (sym same ∙ e) in
      let shorter = emit-length budget (drop size buffer) left next after g in
      omega (arith, length-drop size buffer)

  pub emit-short :
      (budget : ℕ) (buffer : List ℕ) (out : Output)
      → length buffer < size
      → emit cfg encrypted_size budget buffer out ≡ ok (buffer, out)
  unfolding emit
  emit-short zero buffer out h = refl
  emit-short (suc budget) buffer out h = rw (lt→leb size (length buffer) h) refl
