-- ===== src/Granter/Last.antt =====
-- Which group of granters an entry of the conjunction holds (simplify of lib/src/policy/granter.ts): the last one that was
-- assigned under its key.
use web_sdk.Base.{
  ℕ, ◌≡◌, ◌≢◌, ◌⊎◌, refl, sym, ap, subst, ◌∙◌, true, false, List, [], ◌∷◌, ◌++◌, some, Bool-cases,
  inl, inr, All,
}
use web_sdk.Kas.{Table, find_key}
use web_sdk.Zip.Reader.{same_units}
use web_sdk.Granter.Model.{
  KeyHolder, ComplexBooleanClause, any_value, all_values, ordered, put, BooleanOperator,
}
use web_sdk.Granter.Plan.{put_granters, put_all, put_clause, put_clauses}
use web_sdk.Granter.Records.{same_units_refl, same_units_eq, find_key-put}
use web_sdk.Granter.Conjunction.{groups, groups_of, key}

find_key-put_differs {ℓ} :
    {V : Type ℓ} (k other : List ℕ) (v : V) (table : Table V)
    → same_units k other ≡ false
    → find_key other (put k v table) ≡ find_key other table
unfolding find_key put
find_key-put_differs k other v [] h = rw h refl
find_key-put_differs k other v ((first, old) ∷ table) h = elim (Bool-cases (same_units first k)) [
  | inl e ↦
      let differs : same_units first other ≡ false =
        ap (λ r. same_units r other) (same_units_eq first k e) ∙ h in
      rw (e, differs) refl
  | inr e ↦ rw (e, find_key-put_differs k other v table h) refl
]

module _ (sort_by_locale sort : List (List ℕ) → List (List ℕ)) where
  -- No group with a granter has the key.
  abbrev pub NoneWith : List ℕ → List (List KeyHolder) → Type 0
  NoneWith k all = All (λ w. (w ≡ []) ⊎ (key sort_by_locale sort w ≢ k)) all

  -- The last of the groups with its key.
  abbrev pub IsLast : List ℕ → List KeyHolder → List (List KeyHolder) → Type 0
  IsLast k v all =
      (before after : List (List KeyHolder)) × (all ≡ before ++ v ∷ after)
      × (key sort_by_locale sort v ≡ k)
      × NoneWith k after

  put_all-append :
      (xs ys : List (List KeyHolder)) (conjunction : Table (List KeyHolder))
      → put_all sort_by_locale sort (xs ++ ys) conjunction
        ≡ put_all sort_by_locale sort ys (put_all sort_by_locale sort xs conjunction)
  unfolding put_all
  put_all-append [] ys conjunction = refl
  put_all-append (x ∷ xs) ys conjunction =
      put_all-append xs ys (put_granters sort_by_locale sort x conjunction)

  put_clause-groups :
      (op : BooleanOperator) (children : List (List KeyHolder))
      (conjunction : Table (List KeyHolder))
      → put_clause sort_by_locale sort op children conjunction
        ≡ put_all sort_by_locale sort (groups_of op children) conjunction
  unfolding put_clause put_all
  put_clause-groups any_value children conjunction = refl
  put_clause-groups all_values children conjunction = refl
  put_clause-groups ordered children conjunction = refl

  put_clauses-groups :
      (clauses : List ComplexBooleanClause) (conjunction : Table (List KeyHolder))
      → put_clauses sort_by_locale sort clauses conjunction
        ≡ put_all sort_by_locale sort (groups clauses) conjunction
  unfolding put_clauses put_all
  put_clauses-groups [] conjunction = refl
  put_clauses-groups (clause ∷ clauses) conjunction =
      put_clauses-groups clauses _
      ∙ ap (put_all sort_by_locale sort (groups clauses))
          (put_clause-groups clause.op clause.children conjunction)
      ∙ sym (put_all-append (groups_of clause.op clause.children) (groups clauses) conjunction)

  put_all-found :
      (k : List ℕ) (v : List KeyHolder) (all : List (List KeyHolder))
      (conjunction : Table (List KeyHolder))
      → find_key k (put_all sort_by_locale sort all conjunction) ≡ some v
      → IsLast k v all ⊎ ((find_key k conjunction ≡ some v) × NoneWith k all)
  unfolding put_all put_granters
  put_all-found k v [] conjunction h = inr (h, tt)
  put_all-found k v ([] ∷ all) conjunction h = elim (put_all-found k v all conjunction h) [
    | inl (before, after, e, same, later) ↦
        inl ([] ∷ before, after, ap (λ r. [] ∷ r) e, same, later)
    | inr (kept, later) ↦ inr (kept, (inl refl, later))
  ]
  put_all-found k v ((g ∷ gs) ∷ all) conjunction h =
      let own = key sort_by_locale sort (g ∷ gs) in
      elim (put_all-found k v all (put own (g ∷ gs) conjunction) h) [
        | inl (before, after, e, same, later) ↦
            inl ((g ∷ gs) ∷ before, after, ap (λ r. (g ∷ gs) ∷ r) e, same, later)
        | inr (found, later) ↦ elim (Bool-cases (same_units own k)) [
          | inl e ↦
              let same : own ≡ k = same_units_eq own k e in
              let put_there : find_key k (put own (g ∷ gs) conjunction) ≡ some (g ∷ gs) =
                subst (λ r. find_key r (put own (g ∷ gs) conjunction) ≡ some (g ∷ gs)) same
                  (find_key-put own (g ∷ gs) conjunction) in
              let is_group : g ∷ gs ≡ v = cc in
              inl (
                [],
                all,
                ap (λ r. r ∷ all) is_group,
                ap (key sort_by_locale sort) (sym is_group) ∙ same,
                later,
              )
          | inr e ↦ inr (
            sym (find_key-put_differs own k (g ∷ gs) conjunction e) ∙ found,
            (
              inr (λ same.
                  let bad : true ≡ false =
                    sym (same_units_refl k) ∙ ap (λ r. same_units r k) (sym same) ∙ e in
                  cc),
              later,
            ),
          )
        ]
      ]

  -- What is found is the last of the groups.
  pub put_clauses-IsLast :
      (k : List ℕ) (v : List KeyHolder) (clauses : List ComplexBooleanClause)
      → find_key k (put_clauses sort_by_locale sort clauses []) ≡ some v
      → IsLast k v (groups clauses)
  unfolding find_key
  put_clauses-IsLast k v clauses h =
      elim (put_all-found k v (groups clauses) []
        (ap (find_key k) (sym (put_clauses-groups clauses [])) ∙ h)) [
          | inl last ↦ last
          | inr (kept, later) ↦ cc
        ]
