-- ===== src/Encodings/Base64/Letters.antt =====
-- The characters of lib/src/encodings/base64.ts and what they are looked up as.
use web_sdk.Base.{
  ℕ, ◌<◌, ◌≡◌, refl, ap, Bool, true, false, not, some, Result, ok, err, ◌==◌, arith, Bool-cases,
  inl, inr,
}
use web_sdk.Base.Table.{all_below, all_below_sound}
use web_sdk.Encodings.Base64.{char_at, lookup, padding, Looked, sextet, pad}

-- Whether a character is looked up as a number.
unfoldable looks_up : ℕ → Result Looked → Bool
looks_up i (err e) = false
looks_up i (ok pad) = false
looks_up i (ok (sextet n)) = n == i

looks_up-eq : (i : ℕ) (r : Result Looked) → looks_up i r ≡ true → r ≡ ok (sextet i)
unfolding looks_up
looks_up-eq i (err e) h = cc
looks_up-eq i (ok pad) h = cc
looks_up-eq i (ok (sextet n)) h = let same : n ≡ i = ground arith in ap (λ r. ok (sextet r)) same

all_looked : (u : Bool) → all_below 64 (λ i. looks_up i (lookup (some (char_at u i)))) ≡ true
unfolding all_below looks_up lookup char_at
all_looked true = refl
all_looked false = refl

-- The character of a number is looked up as that number.
pub lookup-char_at : (u : Bool) (i : ℕ) → i < 64 → lookup (some (char_at u i)) ≡ ok (sextet i)
lookup-char_at u i h =
    looks_up-eq i (lookup (some (char_at u i)))
      (all_below_sound 64 (λ i. looks_up i (lookup (some (char_at u i)))) i (all_looked u) h)

no_padding : (u : Bool) → all_below 64 (λ i. not (char_at u i == padding)) ≡ true
unfolding all_below char_at
no_padding true = refl
no_padding false = refl

-- No number has the padding for its character.
pub char_at-padding : (u : Bool) (i : ℕ) → i < 64 → (char_at u i == padding) ≡ false
char_at-padding u i h = elim (Bool-cases (char_at u i == padding)) [
  | inr e ↦ e
  | inl e ↦
      let bad : false ≡ true =
        rw e at (all_below_sound 64 (λ i. not (char_at u i == padding)) i (no_padding u) h) in
      cc
]
