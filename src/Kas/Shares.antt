-- ===== src/Kas/Shares.antt =====
-- The shares that unwrapKey of lib/tdf3/src/tdf.ts merges.
use mathlib.Core.List.{Permᴰ}
use mathlib.Core.List.Permᴰ
use web_sdk.Base.{
  suc, ◌≤◌, ◌≡◌, refl, sym, ap, ◌∙◌, subst, List, [], ◌∷◌, Result, ok, err, length, map, arith, All,
}
use web_sdk.Pool.{fulfilled}

module _ {ℓ} {A : Type ℓ} where
  length-Permᴰ : {xs ys : List A} → Permᴰ xs ys → length xs ≡ length ys
  length-Permᴰ Permᴰ.nil = refl
  length-Permᴰ (Permᴰ.cons e p) = ap suc (length-Permᴰ p)
  length-Permᴰ (Permᴰ.swap e f) = refl
  length-Permᴰ (Permᴰ.trans p q) = length-Permᴰ p ∙ length-Permᴰ q

module _ {ℓ κ} {A : Type ℓ} (P : A → Type κ) where
  pub All-Permᴰ : {xs ys : List A} → Permᴰ xs ys → All P xs → All P ys
  All-Permᴰ Permᴰ.nil h = tt
  All-Permᴰ (Permᴰ.cons e p) (h, hs) = (subst P e h, All-Permᴰ p hs)
  All-Permᴰ (Permᴰ.swap e f) (h, (k, hs)) = (subst P f k, (subst P e h, hs))
  All-Permᴰ (Permᴰ.trans p q) h = All-Permᴰ q (All-Permᴰ p h)

module _ {ℓ} {A : Type ℓ} where
  fulfilled-cons :
      (a : Result A) (xs ys : List (Result A))
      → Permᴰ (fulfilled xs) (fulfilled ys)
      → Permᴰ (fulfilled (a ∷ xs)) (fulfilled (a ∷ ys))
  unfolding fulfilled
  fulfilled-cons (ok v) xs ys p = Permᴰ.cons refl p
  fulfilled-cons (err e) xs ys p = p

  fulfilled-swap :
      (a b : Result A) (xs : List (Result A))
      → Permᴰ (fulfilled (a ∷ b ∷ xs)) (fulfilled (b ∷ a ∷ xs))
  unfolding fulfilled
  fulfilled-swap (ok v) (ok w) xs = Permᴰ.swap refl refl
  fulfilled-swap (ok v) (err f) xs = Permᴰ.refl (v ∷ fulfilled xs)
  fulfilled-swap (err e) (ok w) xs = Permᴰ.refl (w ∷ fulfilled xs)
  fulfilled-swap (err e) (err f) xs = Permᴰ.refl (fulfilled xs)

  -- The values of a rearranged list are a rearrangement.
  pub fulfilled-Permᴰ :
      {xs ys : List (Result A)} → Permᴰ xs ys → Permᴰ (fulfilled xs) (fulfilled ys)
  unfolding fulfilled
  fulfilled-Permᴰ Permᴰ.nil = Permᴰ.nil
  fulfilled-Permᴰ (Permᴰ.cons {a = a} {l₁ = xs} {l₂ = ys} e p) =
      subst (λ r. Permᴰ (fulfilled (a ∷ xs)) (fulfilled (r ∷ ys))) e
        (fulfilled-cons a xs ys (fulfilled-Permᴰ p))
  fulfilled-Permᴰ (Permᴰ.swap {a = a} {b = b} {b' = d} {l = xs} e f) =
      subst (λ r. Permᴰ (fulfilled (a ∷ b ∷ xs)) (fulfilled (r ∷ d ∷ xs))) f
        (subst (λ r. Permᴰ (fulfilled (a ∷ b ∷ xs)) (fulfilled (b ∷ r ∷ xs))) e
          (fulfilled-swap a b xs))
  fulfilled-Permᴰ (Permᴰ.trans p q) = Permᴰ.trans (fulfilled-Permᴰ p) (fulfilled-Permᴰ q)

  fulfilled-ok : (values : List A) → fulfilled (map ok values) ≡ values
  unfolding fulfilled
  fulfilled-ok [] = refl
  fulfilled-ok (v ∷ values) = ap (λ r. v ∷ r) (fulfilled-ok values)

  length-fulfilled : (xs : List (Result A)) → length (fulfilled xs) ≤ length xs
  unfolding fulfilled
  length-fulfilled [] = omega arith
  length-fulfilled (ok v ∷ xs) = omega (arith, length-fulfilled xs)
  length-fulfilled (err e ∷ xs) = omega (arith, length-fulfilled xs)

  length-map_ok : (values : List A) → length {A = Result A} (map ok values) ≡ length values
  length-map_ok [] = refl
  length-map_ok (v ∷ values) = ap suc (length-map_ok values)

  -- A list with as many values as elements has values only.
  all_fulfilled :
      (xs : List (Result A)) → length (fulfilled xs) ≡ length xs → xs ≡ map ok (fulfilled xs)
  unfolding fulfilled
  all_fulfilled [] e = refl
  all_fulfilled (ok v ∷ xs) e = ap (λ r. ok v ∷ r) (all_fulfilled xs (omega arith))
  all_fulfilled (err x ∷ xs) e = absurd (omega (arith, length-fulfilled xs))

  -- Jobs that are the values in some order are values themselves, and those are them in that order.
  pub values-Permᴰ :
      (jobs : List (Result A)) (values : List A)
      → Permᴰ jobs (map ok values)
      → (jobs ≡ map ok (fulfilled jobs)) × Permᴰ (fulfilled jobs) values
  values-Permᴰ jobs values p =
      let q : Permᴰ (fulfilled jobs) values =
        subst (λ r. Permᴰ (fulfilled jobs) r) (fulfilled-ok values) (fulfilled-Permᴰ p) in
      (all_fulfilled jobs (length-Permᴰ q ∙ sym (length-Permᴰ p ∙ length-map_ok values)), q)
