-- ===== src/Writer/Cut.antt =====
-- The segments of a content: full ones, and a last one that is shorter (writeStream of
-- lib/tdf3/src/tdf.ts).
use mathlib.Core.List.{flatten}
use web_sdk.Base.{
  ℕ, zero, suc, ◌<◌, ◌≤◌, ◌≡◌, refl, ap, ◌∙◌, List, [], ◌∷◌, ◌++◌, ltb, ◌==◌, if◌then◌else◌, length,
  take, drop, length-drop, arith, append-nil, take-append-drop, Bool-cases, inl, inr, lt→ltb,
  le→ltb, ne→==,
}

-- On fuel: a segment that is cut off has a byte at least.
unfoldable pub cut : ℕ → ℕ → List ℕ → List (List ℕ)
cut zero size content = []
cut (suc fuel) size content =
    let rest = cut fuel size (drop size content) in
    if ltb (length content) size
    then (if length content == 0 then [] else content ∷ [])
    else take size content ∷ rest

unfoldable pub pieces : ℕ → List ℕ → List (List ℕ)
unfolding cut
pieces size content = cut (suc (length content)) size content

module _ (size : ℕ) (positive : 0 < size) where
  cut-enough :
      (f g : ℕ) (content : List ℕ)
      → length content < f
      → length content < g
      → cut f size content ≡ cut g size content
  unfolding cut
  cut-enough zero g content h k = absurd (omega arith)
  cut-enough (suc f) zero content h k = absurd (omega arith)
  cut-enough (suc f) (suc g) content h k = elim (Bool-cases (ltb (length content) size)) [
    | inl e ↦ rw e refl
    | inr e ↦
        let l : size ≤ length content = ground arith in
        rw
          (cut-enough f g (drop size content) (omega (arith, length-drop size content))
            (omega (arith, length-drop size content)))
          refl
  ]

  pub pieces-full :
      (content : List ℕ)
      → size ≤ length content
      → pieces size content ≡ take size content ∷ pieces size (drop size content)
  unfolding pieces cut
  pieces-full content h = rw (le→ltb (length content) size h) (
      ap (λ r. take size content ∷ r)
        (cut-enough (length content) (suc (length (drop size content))) (drop size content)
          (omega (arith, length-drop size content)) (omega arith)))

  pub pieces-last :
      (b : ℕ) (content : List ℕ)
      → length (b ∷ content) < size
      → pieces size (b ∷ content) ≡ (b ∷ content) ∷ []
  unfolding pieces cut
  pieces-last b content h =
      rw
        (
          lt→ltb (length (b ∷ content)) size h,
          ne→== (suc (length content)) 0 (λ e. absurd (omega arith)),
        )
        refl

  pub pieces-nil : pieces size [] ≡ []
  unfolding pieces cut
  pieces-nil = rw (lt→ltb 0 size positive) refl

  flatten-cut :
      (f : ℕ) (content : List ℕ) → length content < f → flatten (cut f size content) ≡ content
  unfolding cut flatten
  flatten-cut zero content h = absurd (omega arith)
  flatten-cut (suc f) content h = elim (Bool-cases (ltb (length content) size)) [
    | inl e ↦ rw e (last content)
    | inr e ↦
        let l : size ≤ length content = ground arith in
        rw e (
          ap (λ r. take size content ++ r)
            (flatten-cut f (drop size content) (omega (arith, length-drop size content)))
          ∙ take-append-drop size content)
  ]
    where
      last : (c : List ℕ) → flatten (if length c == 0 then [] else c ∷ []) ≡ c
      last [] = refl
      last (b ∷ c) = rw (ne→== (suc (length c)) 0 (λ e. absurd (omega arith))) (append-nil (b ∷ c))

  pub pieces-flatten : (content : List ℕ) → flatten (pieces size content) ≡ content
  unfolding pieces
  pieces-flatten content = flatten-cut (suc (length content)) content (omega arith)
