-- ===== src/Segments/Queue.antt =====
-- updateChunkQueue of lib/tdf3/src/tdf.ts, the unbounded download. Its result is the requests in the
-- groups that are awaited together, the last of which is not awaited; a request is its slice.
use mathlib.Core.List.{flatten}
use web_sdk.Base.{
  ℕ, zero, suc, ◌≤◌, ◌≡◌, refl, sym, ap, ◌∙◌, List, [], ◌∷◌, ◌++◌, arith, length, take, drop,
  length-drop, ◌==◌, if◌then◌else◌, Bool-cases, inl, inr, append_assoc, append-nil,
  take-append-drop,
}
use web_sdk.Scheduler.{legacy_segments_per_download, legacy_max_concurrent_segment_batches}

module _ {ℓ} {Item : Type ℓ} where
  -- On fuel: a round takes one chunk at least.
  pub queue_loop : ℕ → List Item → List (List Item) → List (List (List Item))
  queue_loop zero chunks requests = requests ∷ []
  queue_loop (suc fuel) [] requests = requests ∷ []
  queue_loop (suc fuel) (c ∷ chunks) requests =
      let slice = take legacy_segments_per_download (c ∷ chunks) in
      let rest = drop legacy_segments_per_download (c ∷ chunks) in
      let started = requests ∷ queue_loop fuel rest (slice ∷ []) in
      let joined = queue_loop fuel rest (requests ++ slice ∷ []) in
      if length requests == legacy_max_concurrent_segment_batches then started else joined

  unfoldable pub update_chunk_queue : List Item → List (List (List Item))
  unfolding queue_loop
  update_chunk_queue chunks = queue_loop (length chunks) chunks []

  flatten-append : (xs ys : List (List Item)) → flatten (xs ++ ys) ≡ flatten xs ++ flatten ys
  unfolding flatten
  flatten-append [] ys = refl
  flatten-append (x ∷ xs) ys =
      ap (λ r. x ++ r) (flatten-append xs ys) ∙ sym (append_assoc x (flatten xs) (flatten ys))

  queue_loop-flatten :
      (fuel : ℕ) (chunks : List Item) (requests : List (List Item))
      → length chunks ≤ fuel
      → flatten (flatten (queue_loop fuel chunks requests)) ≡ flatten requests ++ chunks
  unfolding queue_loop flatten
  queue_loop-flatten zero [] requests h =
      ap flatten (append-nil requests) ∙ sym (append-nil (flatten requests))
  queue_loop-flatten zero (c ∷ chunks) requests h = absurd (omega arith)
  queue_loop-flatten (suc fuel) [] requests h =
      ap flatten (append-nil requests) ∙ sym (append-nil (flatten requests))
  queue_loop-flatten (suc fuel) (c ∷ chunks) requests h =
      let slice = take legacy_segments_per_download (c ∷ chunks) in
      let rest = drop legacy_segments_per_download (c ∷ chunks) in
      let whole : (slice ++ []) ++ rest ≡ c ∷ chunks =
        ap (λ r. r ++ rest) (append-nil slice)
        ∙ take-append-drop legacy_segments_per_download (c ∷ chunks) in
      let fits : length rest ≤ fuel =
        omega (arith, length-drop {A = Item} legacy_segments_per_download (c ∷ chunks)) in
      elim (Bool-cases (length requests == legacy_max_concurrent_segment_batches)) [
        | inl full ↦ rw full (
            flatten-append requests (flatten (queue_loop fuel rest (slice ∷ [])))
            ∙ ap (λ r. flatten requests ++ r)
                (queue_loop-flatten fuel rest (slice ∷ []) fits ∙ whole))
        | inr room ↦ rw room (
            queue_loop-flatten fuel rest (requests ++ slice ∷ []) fits
            ∙ ap (λ r. r ++ rest) (flatten-append requests (slice ∷ []))
            ∙ append_assoc (flatten requests) (slice ++ []) rest
            ∙ ap (λ r. flatten requests ++ r) whole)
      ]

  -- The slices that `updateChunkQueue` requests are, one after the other, all the chunks, each once and
  -- in order; the fuel is enough.
  pub update_chunk_queue-flatten :
      (chunks : List Item) → flatten (flatten (update_chunk_queue chunks)) ≡ chunks
  unfolding update_chunk_queue flatten
  update_chunk_queue-flatten chunks = queue_loop-flatten (length chunks) chunks [] (omega arith)
