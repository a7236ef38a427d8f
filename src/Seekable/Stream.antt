-- ===== src/Seekable/Stream.antt =====
-- sourceToStream of lib/src/seekable.ts, for a chunker.
use mathlib.Core.List.{flatten}
use web_sdk.Base.{
  ℕ, zero, suc, ◌+◌, ◌-◌, ◌≤◌, ◌<◌, ◌≡◌, refl, sym, ap, subst, ◌∙◌, true, false, List, [], ◌∷◌,
  ◌++◌, Result, ok, length, take, drop, ◌>>=◌, arith, append_assoc, append-nil, if◌then◌else◌,
  length-take, length-drop, Bool-cases, ◌⊎◌, inl, inr, leb,
}
use web_sdk.Writer.Counted.{flatten-append_one}
use web_sdk.Zip.Directory.{drop-drop}
use web_sdk.Seekable.{Reading, chunk_size, take_chunk, pull, pulls, start_reading}

-- A chunker serves a content: it returns the bytes from the start on, as many as it likes up to the end, and at least
-- one where there is one.
unfoldable pub Serves : (ℕ → ℕ → Result (List ℕ)) → List ℕ → Type 0
Serves chunker content =
    (first last : ℕ)
    → first < last
    → (count : ℕ) × (chunker first last ≡ ok (take count (drop first content)))
      × (count ≤ last - first)
      × (first < length content → 0 < count)

drop-take : (n : ℕ) (xs : List ℕ) → take n xs ++ drop (length (take n xs)) xs ≡ xs
drop-take zero xs = refl
drop-take (suc n) [] = refl
drop-take (suc n) (x ∷ xs) = ap (λ r. x ∷ r) (drop-take n xs)

no_rest : (n : ℕ) (xs : List ℕ) → length xs ≤ n → drop n xs ≡ []
no_rest zero [] h = refl
no_rest zero (x ∷ xs) h = absurd (omega arith)
no_rest (suc n) [] h = refl
no_rest (suc n) (x ∷ xs) h = no_rest n xs (omega arith)

module _ (content : List ℕ) where
  -- What is enqueued is the content up to the offset.
  abbrev Read : Reading → Type 0
  Read s = (flatten s.enqueued ++ drop s.offset content ≡ content) × (s.offset ≤ length content)

  abbrev Whole : Reading → Type 0
  Whole s = (s.closed ≡ true) × (flatten s.enqueued ≡ content)

  take_chunk-end :
      (s : Reading) (count : ℕ)
      → Read s
      → (s.offset < length content → 0 < count)
      → take count (drop s.offset content) ≡ []
      → Whole (take_chunk s [])
  unfolding take_chunk
  take_chunk-end s count (read, low) progress empty =
      let over : length content ≤ s.offset = elim (Bool-cases (leb (length content) s.offset)) [
        | inl over ↦ ground arith
        | inr under ↦
            let more : s.offset < length content = ground arith in
            let some_bytes = progress more in
            absurd (
              omega (
                arith,
                ap length empty,
                length-take {0} count (drop s.offset content),
                length-drop {0} s.offset content,
              ))
      ] in
      (
        refl,
        sym (append-nil (flatten s.enqueued))
            ∙ ap (λ r. flatten s.enqueued ++ r) (sym (no_rest s.offset content over))
            ∙ read,
      )

  take_chunk-Read :
      (s : Reading) (count b : ℕ) (chunk : List ℕ)
      → Read s
      → b ∷ chunk ≡ take count (drop s.offset content)
      → Read (take_chunk s (b ∷ chunk))
  unfolding take_chunk
  take_chunk-Read s count b chunk (read, low) e =
      let rest = drop s.offset content in
      let same : (b ∷ chunk) ++ drop (length (b ∷ chunk)) rest ≡ rest =
        subst (λ c. c ++ drop (length c) rest ≡ rest) (sym e) (drop-take count rest) in
      let sizes = ap length e in
      (
        ap (λ r. r ++ drop (s.offset + length (b ∷ chunk)) content)
              (flatten-append_one s.enqueued (b ∷ chunk))
            ∙ append_assoc (flatten s.enqueued) (b ∷ chunk)
                (drop (s.offset + length (b ∷ chunk)) content)
            ∙ ap (λ r. flatten s.enqueued ++ ((b ∷ chunk) ++ r))
                (sym (
                  drop-drop (length (b ∷ chunk)) s.offset (s.offset + length (b ∷ chunk)) content
                    refl))
            ∙ ap (λ r. flatten s.enqueued ++ r) same
            ∙ read,
        omega (arith, sizes, length-take {0} count rest, length-drop {0} s.offset content),
      )

  pulls-closed :
      (chunker : ℕ → ℕ → Result (List ℕ)) (n : ℕ) (s : Reading)
      → s.closed ≡ true
      → pulls chunker n s ≡ ok s
  unfolding pulls
  pulls-closed chunker zero s e = refl
  pulls-closed chunker (suc n) s e = rw e refl

  pulls-open :
      (chunker : ℕ → ℕ → Result (List ℕ)) (n : ℕ) (s : Reading) {t : Reading}
      → s.closed ≡ false
      → pull chunker s ≡ ok t
      → pulls chunker (suc n) s ≡ pulls chunker n t
  unfolding pulls
  pulls-open chunker n s e f =
      ap (λ c. if c then ok s else (pull chunker s >>= λ next. pulls chunker n next)) e
      ∙ ap (λ r. r >>= λ next. pulls chunker n next) f

  module _ (chunker : ℕ → ℕ → Result (List ℕ)) (serves : Serves chunker content) where
    pull-next :
        (s : Reading)
        → Read s
        → s.closed ≡ false
        → (t : Reading) × (pull chunker s ≡ ok t)
          × (Whole t ⊎ (Read t × (t.closed ≡ false) × (s.offset < t.offset)))
    unfolding pull Serves
    pull-next s read unclosed =
        let (count, answer, bound, progress) =
          serves s.offset (s.offset + chunk_size) (omega arith) in
        next (take count (drop s.offset content)) count refl answer progress
      where
        next :
            (chunk : List ℕ) (count : ℕ)
            → chunk ≡ take count (drop s.offset content)
            → chunker s.offset (s.offset + chunk_size) ≡ ok (take count (drop s.offset content))
            → (s.offset < length content → 0 < count)
            → (t : Reading) × (pull chunker s ≡ ok t)
              × (Whole t ⊎ (Read t × (t.closed ≡ false) × (s.offset < t.offset)))
        next [] count e answer progress = (
          take_chunk s [],
          rw answer (ap (λ r. ok (take_chunk s r)) (sym e)),
          inl (take_chunk-end s count read progress (sym e)),
        )
        next (b ∷ chunk) count e answer progress = (
          take_chunk s (b ∷ chunk),
          rw answer (ap (λ r. ok (take_chunk s r)) (sym e)),
          inr (take_chunk-Read s count b chunk read e, unclosed, omega arith),
        )

    pulls-Whole :
        (n : ℕ) (s : Reading)
        → Read s
        → s.closed ≡ false
        → length content - s.offset < n
        → (t : Reading) × (pulls chunker n s ≡ ok t) × Whole t
    unfolding pulls
    pulls-Whole zero s read unclosed enough = absurd (omega arith)
    pulls-Whole (suc n) s read unclosed enough =
        let (t, pulled, progress) = pull-next s read unclosed in
        elim progress [
          | inl whole ↦
              (t, pulls-open chunker n s unclosed pulled ∙ pulls-closed chunker n t whole.0, whole)
          | inr (read', unclosed', further) ↦
              let (u, rest, whole) = pulls-Whole n t read' unclosed' (omega (arith, read'.1)) in
              (u, pulls-open chunker n s unclosed pulled ∙ rest, whole)
        ]

    -- However short the reads of a chunker are, as long as each returns a byte where there is one: the stream that
    -- `sourceToStream` makes of it is closed, when it is pulled more often than the content has bytes, and its
    -- chunks are the content.
    pub pulls-content :
        (n : ℕ)
        → length content < n
        → (t : Reading) × (pulls chunker n start_reading ≡ ok t)
          × (t.closed ≡ true)
          × (flatten t.enqueued ≡ content)
    unfolding flatten
    pulls-content n enough =
        let (t, e, (closed, all)) =
          pulls-Whole n start_reading (refl, omega arith) refl (omega arith) in
        (t, e, closed, all)
