-- ===== src/Base/Slices.antt =====
-- A slice that is one of the parts that a list was put together from.
use web_sdk.Base.{
  ℕ, zero, suc, ◌+◌, ◌-◌, ◌≤◌, ◌≡◌, refl, ap, ap₂, ◌∙◌, List, [], ◌∷◌, ◌++◌, length, take, drop,
  slice, take-append_exact, length-drop, arith,
}

drop-append_plus : (k a : ℕ) (xs ys : List ℕ) → k ≡ length xs + a → drop k (xs ++ ys) ≡ drop a ys
drop-append_plus k a [] ys h = ap (λ r. drop r ys) (omega arith)
drop-append_plus zero a (x ∷ xs) ys h = absurd (omega arith)
drop-append_plus (suc k) a (x ∷ xs) ys h = drop-append_plus k a xs ys (omega arith)

-- The slice that holds the second of three parts.
pub slice-middle :
    (xs ys zs : List ℕ) (a b : ℕ)
    → a ≡ length xs
    → b ≡ length xs + length ys
    → slice (xs ++ (ys ++ zs)) a b ≡ ys
slice-middle xs ys zs a b h k =
    ap (λ r. take (b - a) r) (drop-append_plus a 0 xs (ys ++ zs) (omega arith))
    ∙ take-append_exact (b - a) ys zs (omega arith)

module _ {ℓ} {A : Type ℓ} where
  -- A prefix of the first of two parts.
  pub take-append_short : (n : ℕ) (xs ys : List A) → n ≤ length xs → take n (xs ++ ys) ≡ take n xs
  take-append_short zero xs ys h = refl
  take-append_short (suc n) [] ys h = absurd (omega arith)
  take-append_short (suc n) (x ∷ xs) ys h =
      ap (λ r. x ∷ r) (take-append_short n xs ys (omega arith))

  pub drop-append_short :
      (n : ℕ) (xs ys : List A) → n ≤ length xs → drop n (xs ++ ys) ≡ drop n xs ++ ys
  drop-append_short zero xs ys h = refl
  drop-append_short (suc n) [] ys h = absurd (omega arith)
  drop-append_short (suc n) (x ∷ xs) ys h = drop-append_short n xs ys (omega arith)

-- A slice of the second of three parts.
pub slice-within :
    (front body rest : List ℕ) (a b : ℕ)
    → a ≤ b
    → b ≤ length body
    → slice (front ++ (body ++ rest)) (length front + a) (length front + b) ≡ slice body a b
slice-within front body rest a b h k =
    ap₂ (λ n r. take n r) (omega arith)
      (drop-append_plus (length front + a) a front (body ++ rest) refl
        ∙ drop-append_short a body rest (omega arith))
    ∙ take-append_short (b - a) (drop a body) rest (omega (arith, length-drop a body))
