-- ===== src/Segments/Layout.antt =====
-- The offsets of a payload's chunks (decryptStreamFrom of lib/tdf3/src/tdf.ts), and those that sliceAndDecrypt
-- computes from them.
use native.Mathlib.Nat.{
  mod-lt, mod-eq_of_lt, mod-eq-sub-mod, suc-mul, zero-mul, add-mul, mul-le-mul_right,
  mul-lt-mul_of_pos_right,
}
use web_sdk.Base.{
  ℕ, zero, suc, ◌+◌, ◌-◌, ◌*◌, ◌<◌, ◌≤◌, ◌≡◌, ◌↔◌, ◌⊎◌, inl, inr, ap, subst, ◌∙◌, List, [], ◌∷◌,
  none, some, arith, get_elem?, Bool-cases, ◌==◌,
}
use web_sdk.Segments.{Segment, Chunk, chunks_from, or_default, offset_in_buffer}

-- The offset computed for a chunk at or behind the first one of its batch is the distance between the
-- two exactly when the batch starts the payload, or the chunk lies below twice the first one's offset.
pub offset_in_buffer-exact :
    (first encrypted_offset : ℕ)
    → first ≤ encrypted_offset
    → (offset_in_buffer first encrypted_offset ≡ encrypted_offset - first)
      ↔ ((first ≡ 0) ⊎ (encrypted_offset < first + first))
unfolding offset_in_buffer
offset_in_buffer-exact first off h = elim (Bool-cases (first == 0)) [
  | inl start ↦ rw start ((λ e. inl (ground arith)), (λ e. ground arith))
  | inr later ↦
      let positive : 0 < first = ground arith in
      rw later (
        (λ e. inr (omega (arith, mod-lt off {m = first} positive))),
        (λ e.
            mod-eq-sub-mod h
            ∙ mod-eq_of_lt (elim e [ inl z ↦ absurd (omega arith) | inr l ↦ omega arith ])),
      )
]

-- All segments but the last have the default size.
abbrev pub Uniform : List Segment → Type 0
Uniform [] = Unit
Uniform (s ∷ []) = Unit
Uniform (s ∷ t ∷ segments) = (s.encrypted_segment_size ≡ none) × Uniform (t ∷ segments)

module _ (size plain : ℕ) where
  -- The chunks of uniform segments are at the multiples of the default size.
  chunks_from-offset :
      (offset : ℕ) (segments : List Segment) (k : ℕ) (c : Chunk)
      → Uniform segments
      → get_elem? (chunks_from size plain offset segments) k ≡ some c
      → c.encrypted_offset ≡ offset + k * size
  unfolding chunks_from or_default
  chunks_from-offset offset [] k c u h = cc
  chunks_from-offset offset (s ∷ segments) zero c u h = ground (arith, zero-mul size)
  chunks_from-offset offset (s ∷ []) (suc k) c u h = cc
  chunks_from-offset offset (s ∷ t ∷ segments) (suc k) c (d, u) h =
      chunks_from-offset (offset + size) (t ∷ segments) k c u (
        subst (λ r. get_elem? (chunks_from size plain (offset + r) (t ∷ segments)) k ≡ some c)
          (ap (λ r. or_default r size) d) h)
      ∙ omega (arith, suc-mul k size)

  -- When all segments but the last have the default encrypted size, the batches of `count` chunks
  -- that start the payload or start at `count` or later have every chunk at the offset that
  -- `sliceAndDecrypt` computes.
  pub batch_offsets :
      (segments : List Segment) (start count k : ℕ) (first c : Chunk)
      → 0 < size
      → Uniform segments
      → (start ≡ 0) ⊎ (count ≤ start)
      → start ≤ k
      → k < start + count
      → get_elem? (chunks_from size plain 0 segments) start ≡ some first
      → get_elem? (chunks_from size plain 0 segments) k ≡ some c
      → offset_in_buffer first.encrypted_offset c.encrypted_offset
        ≡ c.encrypted_offset - first.encrypted_offset
  batch_offsets segments start count k first c p u b l m f g =
      rw (at, at_k)
        ((offset_in_buffer-exact (start * size) (k * size) (mul-le-mul_right size l)).1 (elim b [
          | inl z ↦ inl (ap (λ r. r * size) z ∙ zero-mul size)
          | inr later ↦ inr (
              subst (λ r. k * size < r) (add-mul start start size)
                (mul-lt-mul_of_pos_right (omega arith) p))
        ]))
    where
      at : first.encrypted_offset ≡ start * size
      at = omega (arith, chunks_from-offset 0 segments start first u f)

      at_k : c.encrypted_offset ≡ k * size
      at_k = omega (arith, chunks_from-offset 0 segments k c u g)
