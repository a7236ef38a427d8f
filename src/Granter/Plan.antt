-- ===== src/Granter/Plan.antt =====
-- The keys, the splits and the steps of plan and simplify (lib/src/policy/granter.ts).
use web_sdk.Base.{
  ℕ, suc, List, [], ◌∷◌, ◌++◌, Option, none, some, Result, ok, err, Error, map, ◌>>=◌,
}
use mathlib.Core.List.{flatten}
use web_sdk.Kas.{Table, find_key}
use web_sdk.Granter.Model.{
  KeyHolder, Value, BooleanOperator, ComplexBooleanClause, KeySplitStep, put, add_grants,
  grants_for, add_value, Clauses, complex_clauses, server, kas_key, all_values, any_value, ordered,
}

module _ (sort_by_locale sort : List (List ℕ) → List (List ℕ)) where
  unfoldable pub sort_key : KeyHolder → List ℕ
  sort_key (server r uri c) = uri ++ 47 ∷ []
  sort_key (kas_key kas_uri kid) = kas_uri ++ 47 ∷ kid

  unfoldable pub join : List (List ℕ) → List ℕ
  join [] = []
  join (part ∷ []) = part
  join (part ∷ next ∷ parts) = part ++ 58 ∷ join (next ∷ parts)

  unfoldable pub key_for : List KeyHolder → List ℕ
  unfolding join sort_key
  key_for granters = join (sort_by_locale (map sort_key granters))

  -- An assignment to the conjunction, unless there are no granters.
  unfoldable pub put_granters : List KeyHolder → Table (List KeyHolder) → Table (List KeyHolder)
  unfolding put key_for
  put_granters [] conjunction = conjunction
  put_granters (g ∷ gs) conjunction = put (key_for (g ∷ gs)) (g ∷ gs) conjunction

  unfoldable pub put_all : List (List KeyHolder) → Table (List KeyHolder) → Table (List KeyHolder)
  unfolding put_granters
  put_all [] conjunction = conjunction
  put_all (child ∷ children) conjunction = put_all children (put_granters child conjunction)

  unfoldable pub put_clause :
      BooleanOperator → List (List KeyHolder) → Table (List KeyHolder) → Table (List KeyHolder)
  unfolding put_all put_granters
  put_clause any_value children conjunction = put_granters (flatten children) conjunction
  put_clause all_values children conjunction = put_all children conjunction
  put_clause ordered children conjunction = put_all children conjunction

  unfoldable pub put_clauses :
      List ComplexBooleanClause → Table (List KeyHolder) → Table (List KeyHolder)
  unfolding put_clause
  put_clauses [] conjunction = conjunction
  put_clauses (clause ∷ clauses) conjunction =
      put_clauses clauses (put_clause clause.op clause.children conjunction)

  unfoldable pub step_for : ℕ → KeyHolder → List KeySplitStep
  step_for sid (kas_key kas_uri kid) =
      record { sid = sid; kas = kas_key kas_uri kid; kid = some kid } ∷ []
  step_for sid (server r uri none) = record { sid = sid; kas = server r uri none; kid = none } ∷ []
  step_for sid (server r uri (some kids)) =
      map (λ kid. record { sid = sid; kas = server r uri (some kids); kid = some kid }) kids

  -- A round of the loop, before the rest of it.
  unfoldable pub numbered :
      ℕ → Option (List KeyHolder) → (ℕ → List (ℕ × List KeyHolder)) → List (ℕ × List KeyHolder)
  numbered i none rest = rest i
  numbered i (some granters) rest = (suc i, granters) ∷ rest (suc i)

  -- The loop on the sorted keys, `i` of which have been numbered.
  unfoldable pub number_splits :
      ℕ → List (List ℕ) → Table (List KeyHolder) → List (ℕ × List KeyHolder)
  unfolding find_key numbered
  number_splits i [] conjunction = []
  number_splits i (k ∷ keys) conjunction =
      numbered i (find_key k conjunction) (λ j. number_splits j keys conjunction)

  unfoldable pub split_steps : List (ℕ × List KeyHolder) → List KeySplitStep
  unfolding step_for
  split_steps [] = []
  split_steps ((sid, granters) ∷ splits) =
      flatten (map (step_for sid) granters) ++ split_steps splits

  unfoldable pub splits : List ComplexBooleanClause → List (ℕ × List KeyHolder)
  unfolding put_clauses number_splits
  splits clauses =
      let conjunction = put_clauses clauses [] in
      number_splits 0 (sort (map (λ p. p.0) conjunction)) conjunction

  unfoldable pub simplify : List ComplexBooleanClause → List KeySplitStep
  unfolding splits split_steps
  simplify clauses = split_steps (splits clauses)

  module _ (lower : List ℕ → List ℕ) where
    -- The first loop of `plan`.
    unfoldable pub collect : List Value → Clauses → Result Clauses
    unfolding put find_key add_value add_grants grants_for
    collect [] clauses = ok clauses
    collect (v ∷ values) (granters, all_clauses) = elim v.attribute [
      | none ↦ err Error.configuration
      | some attribute ↦
          let fqn = lower v.fqn in
          let attribute_fqn = lower attribute.fqn in
          let clause = add_value attribute fqn (find_key attribute_fqn all_clauses) in
          collect values
            (add_grants fqn (grants_for attribute v) granters, put attribute_fqn clause all_clauses)
    ]

    unfoldable pub plan : List Value → Result (List KeySplitStep)
    unfolding collect complex_clauses simplify
    plan values = do
      (granters, all_clauses) ← collect values ([], [])
      ok (simplify (complex_clauses granters all_clauses))
