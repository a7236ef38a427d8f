-- ===== src/Writer/Refinement.antt =====
-- The stream of writeStream (lib/tdf3/src/tdf.ts) against the writing of all segments at once.
use mathlib.Core.List.{flatten}
use web_sdk.Base.{
  ℕ, suc, ◌<◌, ◌≤◌, ◌≡◌, refl, sym, ap, ◌∙◌, Bool, true, false, List, [], ◌∷◌, ◌++◌, Result, ok,
  err, length, length-append, arith, append-nil, inl, inr, ◌>>=◌, All, ne→==, Result-cases,
}
use web_sdk.Writer.State.{Settings, Output, Writing, read_source}
use web_sdk.Writer.Stream.{write_segment, emit, finish, finish_pull, pull, pulls}
use web_sdk.Writer.Cut.{pieces-last, pieces-nil}
use web_sdk.Writer.Emit.{
  write_segments, write_all, remaining, Filled, read_source-Filled, emit-write_all, emit-shorter,
  emit-short,
}

-- What the caller sees of the stream.
abbrev pub seen : Writing → Bool × Output
seen w = (w.closed, w.output)

module _ (cfg : Settings) (encrypted_size : ℕ) (positive : 0 < cfg.segment_size_default) where
  abbrev size : ℕ
  size = cfg.segment_size_default

  abbrev complete : List ℕ → Output → Result Output
  complete content out = write_all cfg encrypted_size content out

  abbrev finished : Result Output → Result (Bool × Output)
  finished r = r >>= λ out. ok (true, out)

  pulls-closed :
      (budgets : List ℕ) (w : Writing) → w.closed ≡ true → pulls cfg encrypted_size budgets w ≡ ok w
  unfolding pulls
  pulls-closed [] w c = refl
  pulls-closed (b ∷ budgets) w c = rw c refl

  abbrev closed_after : List (List ℕ) → Output → Writing
  closed_after source out = record {
    current_buffer = [];
    source = source;
    output = out;
    closed = true;
  }

  finish_pull-seen :
      (source : List (List ℕ)) (budgets : List ℕ) (r : Result Output)
      → (((r >>= λ out. ok (closed_after source out)) >>= λ w. pulls cfg encrypted_size budgets w)
          >>= λ w. ok (seen w))
        ≡ finished r
  finish_pull-seen source budgets (err e) = refl
  finish_pull-seen source budgets (ok out) =
      rw (pulls-closed budgets (closed_after source out) refl) refl

  -- The last call of `pull`.
  finish_pull-write_all :
      (buffer : List ℕ) (source : List (List ℕ)) (out : Output) (budgets : List ℕ)
      → length buffer < size
      → ((finish_pull cfg encrypted_size true buffer source out >>= λ w.
            pulls cfg encrypted_size budgets w)
          >>= λ w. ok (seen w))
        ≡ finished (complete buffer out)
  unfolding finish_pull write_all write_segments
  finish_pull-write_all [] source out budgets h =
      rw (pieces-nil size positive)
        (finish_pull-seen source budgets (finish cfg encrypted_size out))
  finish_pull-write_all (b ∷ buffer) source out budgets h =
      rw
        (
          pieces-last size positive b buffer h,
          ne→== (suc (length buffer)) 0 (λ e. absurd (omega arith)),
        )
        (last (write_segment cfg encrypted_size (b ∷ buffer) out))
    where
      last :
          (r : Result Output)
          → (((r >>= λ out. finish cfg encrypted_size out >>= λ out. ok (closed_after source out))
                >>= λ w. pulls cfg encrypted_size budgets w)
              >>= λ w. ok (seen w))
            ≡ finished ((r >>= λ out. ok out) >>= λ out. finish cfg encrypted_size out)
      last (err e) = refl
      last (ok out) = finish_pull-seen source budgets (finish cfg encrypted_size out)

  abbrev open_stream : List ℕ → List (List ℕ) → Output → Writing
  open_stream buffer source out = record {
    current_buffer = buffer;
    source = source;
    output = out;
    closed = false;
  }

  -- A call of `pull` after its reads, and the calls that follow it.
  abbrev after_reads : ℕ → List ℕ → List ℕ × List (List ℕ) × Bool → Output → Result (Bool × Output)
  after_reads budget budgets (buffer, source, is_done) out =
      ((emit cfg encrypted_size budget buffer out >>= λ p.
      finish_pull cfg encrypted_size is_done p.0 source p.1)
        >>= λ w. pulls cfg encrypted_size budgets w)
      >>= λ w. ok (seen w)

  -- That the calls that follow write what is left, if it has fewer bytes than they are.
  abbrev Completes : List ℕ → Type 0
  Completes budgets =
      (buffer : List ℕ) (source : List (List ℕ)) (out : Output)
      → length (buffer ++ flatten source) < length budgets
      → (pulls cfg encrypted_size budgets (open_stream buffer source out) >>= λ w. ok (seen w))
        ≡ finished (complete (buffer ++ flatten source) out)

  after_reads-write_all :
      (budget : ℕ) (budgets content : List ℕ) (read : List ℕ × List (List ℕ) × Bool) (out : Output)
      → 0 < budget
      → length content ≤ length budgets
      → Filled size content read
      → Completes budgets
      → after_reads budget budgets read out ≡ finished (complete content out)
  unfolding flatten finish_pull
  after_reads-write_all budget budgets content (buffer, source, true) out p l (c, (e, h)) next =
      let same : buffer ≡ content =
        sym (append-nil buffer) ∙ ap (λ r. buffer ++ flatten r) (sym e) ∙ c in
      rw (emit-short cfg encrypted_size positive budget buffer out h) (
        finish_pull-write_all buffer source out budgets h
        ∙ ap (λ r. finished (complete r out)) same)
  after_reads-write_all budget budgets content (buffer, source, false) out p l (c, h) next =
      let whole = emit-write_all cfg encrypted_size positive budget buffer (flatten source) out in
      elim (Result-cases (emit cfg encrypted_size budget buffer out)) [
        | inl (thrown, e) ↦ rw e (ap finished ((rw e at whole) ∙ ap (λ r. complete r out) c))
        | inr ((left, after), e) ↦
            let shorter =
              emit-shorter cfg encrypted_size positive budget buffer left out after p h e in
            rw e (
              next left source after (
                omega (
                  arith,
                  length-append left (flatten source),
                  length-append buffer (flatten source),
                  ap length c,
                ))
              ∙ ap finished ((rw e at whole) ∙ ap (λ r. complete r out) c))
      ]

  -- Whatever pieces the content comes in, and whatever budgets the controller has, as long as each is
  -- positive and the calls of `pull` are more than the bytes left: the stream is closed with the
  -- output of writing the whole content at once, segment by segment, or fails with its error. The
  -- default size of a segment is positive.
  pub pulls-write_all :
      (budgets buffer : List ℕ) (source : List (List ℕ)) (out : Output)
      → All (λ budget. 0 < budget) budgets
      → length (remaining (open_stream buffer source out)) < length budgets
      → (pulls cfg encrypted_size budgets (open_stream buffer source out) >>= λ w. ok (seen w))
        ≡ (write_all cfg encrypted_size (buffer ++ flatten source) out >>= λ out. ok (true, out))
  unfolding pulls pull
  pulls-write_all [] buffer source out h l = absurd (omega arith)
  pulls-write_all (budget ∷ budgets) buffer source out (p, h) l =
      after_reads-write_all budget budgets (buffer ++ flatten source)
        (read_source size buffer source) out p (omega arith) (read_source-Filled size buffer source)
        (λ left rest after m. pulls-write_all budgets left rest after h m)
