-- ===== src/Base/Outcome.antt =====
-- The result of code that returns a value or throws one of the SDK's errors (lib/src/errors.ts).
use mathlib.Core.Path.{◌≡◌, refl, ap, subst}
use mathlib.Core.Logic.{◌⊎◌, inl, inr}

-- The classes of lib/src/errors.ts that the modelled code throws, with the InvalidCharacterError of
-- lib/src/encodings/base64.ts; `generic` is a plain `Error` or one of another library.
pub data Error : Type 0 where
  configuration invalid_file decrypt integrity unsafe_url network unsupported : Error
  invalid_character tdf attribute_not_found generic : Error

pub data Result {ℓ} (Value : Type ℓ) : Type ℓ where
  err : Error → Result Value
  ok : Value → Result Value

module _ {ℓ κ} {A : Type ℓ} {B : Type κ} where
  infixl 5 ◌>>=◌
  -- What a `throw` skips is the rest of the function.
  abbrev pub ◌>>=◌ : Result A → (A → Result B) → Result B
  err thrown >>= next = err thrown
  ok value >>= next = next value

  -- A chain that returns a value got one from its first part.
  pub >>=-eq-ok :
      (first : Result A) (next : A → Result B) {b : B}
      → (first >>= next) ≡ ok b
      → (value : A) × (first ≡ ok value) × (next value ≡ ok b)
  >>=-eq-ok (err thrown) next returns = cc
  >>=-eq-ok (ok value) next returns = (value, refl, returns)

module _ {ℓ κ} {A : Type ℓ} {B : Type κ} where
  -- Chains with equal continuations.
  pub bind_cong :
      (r : Result A) {f g : A → Result B} → ((a : A) → f a ≡ g a) → (r >>= f) ≡ (r >>= g)
  bind_cong (err e) h = refl
  bind_cong (ok a) h = h a

module _ {ℓ κ μ} {A : Type ℓ} {B : Type κ} {C : Type μ} where
  pub bind_assoc :
      (r : Result A) (f : A → Result B) (g : B → Result C)
      → ((r >>= f) >>= g) ≡ (r >>= λ a. f a >>= g)
  bind_assoc (err e) f g = refl
  bind_assoc (ok a) f g = refl

pub Result-cases {ℓ} :
    {A : Type ℓ} (r : Result A) → ((e : Error) × (r ≡ err e)) ⊎ ((a : A) × (r ≡ ok a))
Result-cases (err e) = inl (e, refl)
Result-cases (ok a) = inr (a, refl)

module _ {ℓ κ} {B : Type ℓ} (P : B → Type κ) where
  -- That a property holds of the value, if one is returned.
  abbrev pub Returns : Result B → Type κ
  Returns (err e) = Unit
  Returns (ok b) = P b

  pub Returns-eq_ok : (r : Result B) {b : B} → Returns r → r ≡ ok b → P b
  Returns-eq_ok (err e) h returns = cc
  Returns-eq_ok (ok b) h returns = let same = ok_inj returns in subst P same h
    where
      value : B → Result B → B
      value d (err e) = d
      value d (ok c) = c

      ok_inj : {a c : B} → ok a ≡ ok c → a ≡ c
      ok_inj {a = a} e = ap (value a) e

  module _ {μ} {A : Type μ} where
    pub Returns-bind :
        (r : Result A) (next : A → Result B)
        → ((a : A) → r ≡ ok a → Returns (next a))
        → Returns (r >>= next)
    Returns-bind (err e) next h = tt
    Returns-bind (ok a) next h = h a refl

  pub Returns-of : (r : Result B) → ((b : B) → r ≡ ok b → P b) → Returns r
  Returns-of (err e) h = tt
  Returns-of (ok b) h = h b refl

module _ {ℓ κ λ0 μ} {A : Type ℓ} {B : Type κ} (P : A → Type λ0) (Q : B → Type μ) where
  -- A property that a chain's second part keeps.
  pub Returns-chain :
      (r : Result A) (next : A → Result B)
      → Returns P r
      → ((a : A) → P a → Returns Q (next a))
      → Returns Q (r >>= next)
  Returns-chain (err e) next h k = tt
  Returns-chain (ok a) next h k = k a h

module _ {ℓ κ μ} {B : Type ℓ} (P : B → Type κ) (Q : B → Type μ) where
  pub Returns-map : (r : Result B) → Returns P r → ((b : B) → P b → Q b) → Returns Q r
  Returns-map (err e) h k = tt
  Returns-map (ok b) h k = k b h

module _ {ℓ κ μ ν} {A : Type ℓ} {B : Type κ} {C : Type μ} (P : C → Type ν) where
  pub Returns-assoc :
      (r : Result A) (f : A → Result B) (g : B → Result C)
      → ((a : A) → r ≡ ok a → Returns P (f a >>= g))
      → Returns P ((r >>= f) >>= g)
  Returns-assoc (err e) f g h = tt
  Returns-assoc (ok a) f g h = h a refl

module _ {ℓ κ μ} {A : Type ℓ} {B : Type κ} (P : B → Type μ) (f : A → B) where
  pub Returns-image : (r : Result A) → Returns P (r >>= λ a. ok (f a)) → Returns (λ a. P (f a)) r
  Returns-image (err e) h = tt
  Returns-image (ok a) h = h
