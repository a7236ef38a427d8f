-- ===== src/Discovery/Validate.antt =====
-- What validateAttributes of lib/src/policy/discovery.ts accepts.
use web_sdk.Base.{
  ℕ, ◌≤◌, ◌≡◌, refl, sym, subst, Bool, true, false, List, [], ◌∷◌, Option, none, some, ok, Error,
  leb, length, >>=-eq-ok, arith, inl, inr, ◌⊎◌, ◌↔◌, All, le→leb,
}
use web_sdk.Discovery.{check, replied, all_valid, all_found, validate_attributes, max_validate_fqns}
use web_sdk.Discovery.Names.{IsValueFqn, matches_iff}

check-eq {ℓ} : {A : Type ℓ} (b : Bool) (e : Error) (a : A) {c : A} → check b e a ≡ ok c → b ≡ true
unfolding check
check-eq true e a h = refl
check-eq false e a h = cc

replied-eq {ℓ} : {A : Type ℓ} (reply : Option A) {a : A} → replied reply ≡ ok a → reply ≡ some a
unfolding replied
replied-eq none h = cc
replied-eq (some b) h = cc

all_valid-All : (fqns : List (List ℕ)) → all_valid fqns ≡ true → All IsValueFqn fqns
unfolding all_valid
all_valid-All [] h = tt
all_valid-All (fqn ∷ fqns) h =
    ((matches_iff fqn).0 (ground arith), all_valid-All fqns (ground arith))

All-all_valid : (fqns : List (List ℕ)) → All IsValueFqn fqns → all_valid fqns ≡ true
unfolding all_valid
All-all_valid [] h = refl
All-all_valid (fqn ∷ fqns) (h, more) = rw ((matches_iff fqn).1 h) (All-all_valid fqns more)

all_found-All :
    (found : List ℕ → Bool) (fqns : List (List ℕ))
    → all_found found fqns ≡ true
    → All (λ fqn. found fqn ≡ true) fqns
unfolding all_found
all_found-All found [] h = tt
all_found-All found (fqn ∷ fqns) h = (ground arith, all_found-All found fqns (ground arith))

All-all_found :
    (found : List ℕ → Bool) (fqns : List (List ℕ))
    → All (λ fqn. found fqn ≡ true) fqns
    → all_found found fqns ≡ true
unfolding all_found
All-all_found found [] h = refl
All-all_found found (fqn ∷ fqns) (h, more) = rw h (All-all_found found fqns more)

module _ (secure : Bool) (get : List (List ℕ) → Option (List ℕ → Bool)) where
  -- At most 250 names of the documented form, all among the members of the platform's reply over a secure URL.
  abbrev pub Known : List (List ℕ) → Type 0
  Known fqns =
      (found : List ℕ → Bool) × (secure ≡ true)
      × (length fqns ≤ 250)
      × All IsValueFqn fqns
      × (get fqns ≡ some found)
      × All (λ fqn. found fqn ≡ true) fqns

  passes :
      (fqn : List ℕ) (fqns : List (List ℕ))
      → validate_attributes secure get (fqn ∷ fqns) ≡ ok tt
      → Known (fqn ∷ fqns)
  unfolding validate_attributes
  passes fqn fqns e =
      let all = fqn ∷ fqns in
      let (u, e1, f1) = >>=-eq-ok (check secure Error.configuration tt) _ e in
      let (v, e2, f2) =
        >>=-eq-ok (check (leb (length all) max_validate_fqns) Error.configuration tt) _ f1 in
      let (w, e3, f3) = >>=-eq-ok (check (all_valid all) Error.configuration tt) _ f2 in
      let (found, e4, f4) = >>=-eq-ok (replied (get all)) _ f3 in
      let few = check-eq (leb (length all) max_validate_fqns) _ _ e2 in
      (
        found,
        check-eq secure _ _ e1,
        ground arith,
        all_valid-All all (check-eq (all_valid all) _ _ e3),
        replied-eq (get all) e4,
        all_found-All found all (check-eq (all_found found all) _ _ f4),
      )

  none_listed : validate_attributes secure get [] ≡ ok tt
  unfolding validate_attributes
  none_listed = refl

  accepts : (fqns : List (List ℕ)) → Known fqns → validate_attributes secure get fqns ≡ ok tt
  unfolding validate_attributes check replied
  accepts [] h = refl
  accepts (fqn ∷ fqns) (found, s, few, valid, reply, known) =
      rw
        (
          s,
          le→leb (length (fqn ∷ fqns)) max_validate_fqns few,
          All-all_valid (fqn ∷ fqns) valid,
          reply,
          All-all_found found (fqn ∷ fqns) known,
        )
        refl

  -- `validateAttributes` returns exactly for an empty list and for at most 250 names of the documented form that
  -- the platform, asked over a secure URL for just these, all knows; in every other case it throws.
  pub validate_attributes_iff :
      (fqns : List (List ℕ))
      → (validate_attributes secure get fqns ≡ ok tt) ↔ ((fqns ≡ []) ⊎ Known fqns)
  validate_attributes_iff fqns = (
    returns fqns,
    λ h. elim h [
      | inl e ↦ subst (λ r. validate_attributes secure get r ≡ ok tt) (sym e) none_listed
      | inr known ↦ accepts fqns known
    ],
  )
    where
      returns :
          (fqns : List (List ℕ))
          → validate_attributes secure get fqns ≡ ok tt
          → (fqns ≡ []) ⊎ Known fqns
      returns [] e = inl refl
      returns (fqn ∷ fqns) e = inr (passes fqn fqns e)
