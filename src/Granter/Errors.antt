-- ===== src/Granter/Errors.antt =====
-- When plan of lib/src/policy/granter.ts fails.
use web_sdk.Base.{
  ℕ, ◌≡◌, refl, Bool, true, false, List, [], ◌∷◌, none, some, ok, err, Error, Option-cases, inl,
  inr,
}
use web_sdk.Granter.Model.{Value, KeySplitStep, Clauses, add_grants, grants_for, add_value, put}
use web_sdk.Granter.Plan.{collect, plan}
use web_sdk.Kas.{find_key}

-- Whether each value has an attribute.
unfoldable pub all_defined : List Value → Bool
all_defined [] = true
all_defined (v ∷ values) =
    let rest = all_defined values in elim v.attribute [ none ↦ false | some attribute ↦ rest ]

module _ (sort_by_locale sort : List (List ℕ) → List (List ℕ)) (lower : List ℕ → List ℕ) where
  abbrev Collects : List Value → Clauses → Type 0
  Collects values clauses =
      (all_defined values ≡ true
        → (after : Clauses) × (collect sort_by_locale sort lower values clauses ≡ ok after))
      × (all_defined values ≡ false
          → collect sort_by_locale sort lower values clauses ≡ err Error.configuration)

  collect-Collects : (values : List Value) (clauses : Clauses) → Collects values clauses
  unfolding collect all_defined
  collect-Collects [] clauses = ((λ e. (clauses, refl)), (λ e. cc))
  collect-Collects (v ∷ values) (granters, all_clauses) = elim (Option-cases v.attribute) [
    | inl e ↦ rw e ((λ bad. cc), (λ _. refl))
    | inr (attribute, e) ↦ rw e (
        collect-Collects values (
          add_grants (lower v.fqn) (grants_for attribute v) granters,
          put (lower attribute.fqn)
              (add_value attribute (lower v.fqn) (find_key (lower attribute.fqn) all_clauses))
              all_clauses,
        ))
  ]

  -- `plan` returns a plan when every value has an attribute, and is a configuration error when one has
  -- none.
  pub plan-defined :
      (values : List Value)
      → (all_defined values ≡ true
          → (steps : List KeySplitStep) × (plan sort_by_locale sort lower values ≡ ok steps))
        × (all_defined values ≡ false
            → plan sort_by_locale sort lower values ≡ err Error.configuration)
  unfolding plan
  plan-defined values =
      let (defined, missing) = collect-Collects values ([], []) in
      ((λ e. let (after, f) = defined e in rw f (_, refl)), (λ e. rw (missing e) refl))
