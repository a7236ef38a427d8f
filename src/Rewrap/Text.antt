-- ===== src/Rewrap/Text.antt =====
-- `includes` of a string, as handleRpcRewrapErrorString of lib/src/access/access-rpc.ts uses it: a text with a part in
-- it.
use mathlib.Core.List.{Memᴰ}
use mathlib.Core.List.Memᴰ
use web_sdk.Base.{
  ℕ, ◌≡◌, refl, sym, ap, ap₂, ◌∙◌, Bool, true, false, ◌||◌, List, [], ◌∷◌, ◌++◌, ◌==◌, Bool-cases,
  inl, inr, arith, eq→==,
}
use web_sdk.Rewrap.Answer.{
  Code, internal, unimplemented, data_loss, unknown, deadline_exceeded, unavailable, is_prefix,
  has_text, is_service_error,
}

abbrev pub Contains : List ℕ → List ℕ → Type 0
Contains part text = (before after : List ℕ) × (text ≡ before ++ (part ++ after))

is_prefix-eq :
    (part text : List ℕ) → is_prefix part text ≡ true → (after : List ℕ) × (text ≡ part ++ after)
unfolding is_prefix
is_prefix-eq [] text e = (text, refl)
is_prefix-eq (c ∷ part) [] e = cc
is_prefix-eq (c ∷ part) (d ∷ text) e = elim (Bool-cases (c == d)) [
  | inl h ↦
      let same : d ≡ c = ground arith in
      let (after, f) = is_prefix-eq part text (rw h at e) in (after, ap₂ (λ x xs. x ∷ xs) same f)
  | inr h ↦ let bad : false ≡ true = rw h at e in cc
]

is_prefix-append : (part after : List ℕ) → is_prefix part (part ++ after) ≡ true
unfolding is_prefix
is_prefix-append [] after = refl
is_prefix-append (c ∷ part) after = rw (eq→== c c refl) (is_prefix-append part after)

pub has_text-Contains : (part text : List ℕ) → has_text part text ≡ true → Contains part text
unfolding has_text
has_text-Contains part [] e = let (after, f) = is_prefix-eq part [] e in ([], after, f)
has_text-Contains part (c ∷ text) e = elim (Bool-cases (is_prefix part (c ∷ text))) [
  | inl starts ↦ let (after, f) = is_prefix-eq part (c ∷ text) starts in ([], after, f)
  | inr other ↦
      let (before, after, f) = has_text-Contains part text (rw other at e) in
      (c ∷ before, after, ap (λ r. c ∷ r) f)
]

has_text-start : (part text : List ℕ) → is_prefix part text ≡ true → has_text part text ≡ true
unfolding has_text
has_text-start part [] e = e
has_text-start part (c ∷ text) e = rw e refl

has_text-append : (part before after : List ℕ) → has_text part (before ++ (part ++ after)) ≡ true
unfolding has_text
has_text-append part [] after = has_text-start part (part ++ after) (is_prefix-append part after)
has_text-append part (c ∷ before) after = rw (has_text-append part before after) (ground arith)

pub Contains-has_text : (part text : List ℕ) → Contains part text → has_text part text ≡ true
Contains-has_text part text (before, after, e) =
    ap (has_text part) e ∙ has_text-append part before after

pub lacks : (part text : List ℕ) → has_text part text ≡ false → ¬ Contains part text
lacks part text e c = let bad = Contains-has_text part text c in cc

pub lacks-has_text : (part text : List ℕ) → ¬ Contains part text → has_text part text ≡ false
lacks-has_text part text no_part = elim (Bool-cases (has_text part text)) [
  | inl e ↦ absurd (no_part (has_text-Contains part text e))
  | inr e ↦ e
]

-- The codes of the failures of a service.
abbrev pub service_codes : List Code
service_codes =
    internal ∷ unimplemented ∷ data_loss ∷ unknown ∷ deadline_exceeded ∷ unavailable ∷ []

module _ (code_name : Code → List ℕ) where
  -- The text has one of the codes.
  abbrev pub HasOne : List Code → List ℕ → Type 0
  HasOne codes e = (code : Code) × Memᴰ code codes × Contains (code_name code) e

  any_text : List Code → List ℕ → Bool
  any_text [] e = false
  any_text (code ∷ codes) e = has_text (code_name code) e || any_text codes e

  any_text-HasOne : (codes : List Code) (e : List ℕ) → any_text codes e ≡ true → HasOne codes e
  unfolding any_text
  any_text-HasOne [] e h = cc
  any_text-HasOne (code ∷ codes) e h = elim (Bool-cases (has_text (code_name code) e)) [
    | inl found ↦ (code, Memᴰ.head refl, has_text-Contains (code_name code) e found)
    | inr other ↦
        let (rest, m, c) = any_text-HasOne codes e (rw other at h) in (rest, Memᴰ.tail m, c)
  ]

  HasOne-any_text : (codes : List Code) (e : List ℕ) → HasOne codes e → any_text codes e ≡ true
  unfolding any_text
  HasOne-any_text [] e (code, m, c) = absurd (Memᴰ.not-nil m)
  HasOne-any_text (first ∷ codes) e (code, m, c) = elim (Memᴰ.cases_cons m) [
    | inl same ↦
        rw (ap (λ r. has_text (code_name r) e) (sym same) ∙ Contains-has_text (code_name code) e c)
          refl
    | inr rest ↦ rw (HasOne-any_text codes e (code, rest, c)) (ground arith)
  ]

  any_text-service : (e : List ℕ) → is_service_error code_name e ≡ any_text service_codes e
  unfolding any_text is_service_error
  any_text-service e = ground arith

  pub is_service_error-HasOne :
      (e : List ℕ) → is_service_error code_name e ≡ true → HasOne service_codes e
  is_service_error-HasOne e h = any_text-HasOne service_codes e (sym (any_text-service e) ∙ h)

  pub HasOne-is_service_error :
      (e : List ℕ) → HasOne service_codes e → is_service_error code_name e ≡ true
  HasOne-is_service_error e h = any_text-service e ∙ HasOne-any_text service_codes e h

  pub lacks-is_service_error :
      (e : List ℕ) → ¬ HasOne service_codes e → is_service_error code_name e ≡ false
  lacks-is_service_error e none_there = elim (Bool-cases (is_service_error code_name e)) [
    | inl h ↦ absurd (none_there (is_service_error-HasOne e h))
    | inr h ↦ h
  ]
