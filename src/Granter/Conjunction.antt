-- ===== src/Granter/Conjunction.antt =====
-- The conjunction that simplify of lib/src/policy/granter.ts makes of the clauses.
use mathlib.Core.List.{flatten, Memᴰ}
use mathlib.Core.List.Memᴰ
use web_sdk.Base.{ℕ, ◌<◌, ◌≡◌, refl, subst, List, [], ◌∷◌, ◌++◌, some, length, All, arith, inl, inr}
use web_sdk.Kas.{Table, find_key}
use web_sdk.Granter.Model.{
  KeyHolder, BooleanOperator, all_values, any_value, ordered, ComplexBooleanClause,
}
use web_sdk.Granter.Plan.{key_for, put_granters, put_all, put_clause, put_clauses}
use web_sdk.Granter.Records.{find_key-put, find_key-put_other, put-All}

-- What is to be a split of its own: all that may release a value of an 'anyOf' clause together, and
-- those of each value of another one.
abbrev pub groups_of : BooleanOperator → List (List KeyHolder) → List (List KeyHolder)
groups_of any_value children = flatten children ∷ []
groups_of all_values children = children
groups_of ordered children = children

abbrev pub groups : List ComplexBooleanClause → List (List KeyHolder)
groups [] = []
groups (clause ∷ clauses) = groups_of clause.op clause.children ++ groups clauses

module _ (sort_by_locale sort : List (List ℕ) → List (List ℕ)) where
  abbrev pub Conjunction : Type 0
  Conjunction = Table (List KeyHolder)

  abbrev pub key : List KeyHolder → List ℕ
  key granters = key_for sort_by_locale sort granters

  -- An entry is a group, under its key.
  abbrev pub IsGroup : List (List KeyHolder) → List ℕ → List KeyHolder → Type 0
  IsGroup all k v = (k ≡ key v) × Memᴰ v all × (0 < length v)

  -- The conjunction has no more than groups.
  abbrev pub Sound : List (List KeyHolder) → Conjunction → Type 0
  Sound all conjunction = All (λ p. IsGroup all p.0 p.1) conjunction

  -- The key of a group is in the conjunction.
  abbrev pub HasKey : List ℕ → Conjunction → Type 0
  HasKey k conjunction = (v : List KeyHolder) × (find_key k conjunction ≡ some v)

  -- The groups are all in the conjunction.
  abbrev pub Complete : List (List KeyHolder) → Conjunction → Type 0
  Complete done conjunction =
      (g : KeyHolder) (gs : List KeyHolder) → Memᴰ (g ∷ gs) done → HasKey (key (g ∷ gs)) conjunction

  put_granters-Sound :
      (all : List (List KeyHolder)) (granters : List KeyHolder) (conjunction : Conjunction)
      → Memᴰ granters all
      → Sound all conjunction
      → Sound all (put_granters sort_by_locale sort granters conjunction)
  unfolding put_granters
  put_granters-Sound all [] conjunction m s = s
  put_granters-Sound all (g ∷ gs) conjunction m s =
      put-All (IsGroup all) (key (g ∷ gs)) (g ∷ gs) conjunction (refl, m, omega arith) s

  put_granters-HasKey :
      (k : List ℕ) (granters : List KeyHolder) (conjunction : Conjunction)
      → HasKey k conjunction
      → HasKey k (put_granters sort_by_locale sort granters conjunction)
  unfolding put_granters
  put_granters-HasKey k [] conjunction h = h
  put_granters-HasKey k (g ∷ gs) conjunction (v, e) =
      find_key-put_other (key (g ∷ gs)) (g ∷ gs) k conjunction v e

  put_granters-key :
      (g : KeyHolder) (gs : List KeyHolder) (conjunction : Conjunction)
      → HasKey (key (g ∷ gs)) (put_granters sort_by_locale sort (g ∷ gs) conjunction)
  unfolding put_granters
  put_granters-key g gs conjunction = (g ∷ gs, find_key-put (key (g ∷ gs)) (g ∷ gs) conjunction)

  put_all-Sound :
      (all children : List (List KeyHolder)) (conjunction : Conjunction)
      → ((c : List KeyHolder) → Memᴰ c children → Memᴰ c all)
      → Sound all conjunction
      → Sound all (put_all sort_by_locale sort children conjunction)
  unfolding put_all
  put_all-Sound all [] conjunction m s = s
  put_all-Sound all (child ∷ children) conjunction m s =
      put_all-Sound all children _ (λ c h. m c (Memᴰ.tail h))
        (put_granters-Sound all child conjunction (m child (Memᴰ.head refl)) s)

  put_all-HasKey :
      (k : List ℕ) (children : List (List KeyHolder)) (conjunction : Conjunction)
      → HasKey k conjunction
      → HasKey k (put_all sort_by_locale sort children conjunction)
  unfolding put_all
  put_all-HasKey k [] conjunction h = h
  put_all-HasKey k (child ∷ children) conjunction h =
      put_all-HasKey k children _ (put_granters-HasKey k child conjunction h)

  put_all-Complete :
      (children : List (List KeyHolder)) (conjunction : Conjunction)
      → Complete children (put_all sort_by_locale sort children conjunction)
  unfolding put_all
  put_all-Complete [] conjunction g gs m = absurd (Memᴰ.not-nil m)
  put_all-Complete (child ∷ children) conjunction g gs m = elim (Memᴰ.cases_cons m) [
    | inl e ↦
        put_all-HasKey (key (g ∷ gs)) children (put_granters sort_by_locale sort child conjunction)
          (subst (λ r. HasKey (key (g ∷ gs)) (put_granters sort_by_locale sort r conjunction)) e
            (put_granters-key g gs conjunction))
    | inr rest ↦ put_all-Complete children _ g gs rest
  ]

  put_clause-Sound :
      (all : List (List KeyHolder)) (op : BooleanOperator) (children : List (List KeyHolder))
      (conjunction : Conjunction)
      → ((c : List KeyHolder) → Memᴰ c (groups_of op children) → Memᴰ c all)
      → Sound all conjunction
      → Sound all (put_clause sort_by_locale sort op children conjunction)
  unfolding put_clause
  put_clause-Sound all any_value children conjunction m s =
      put_granters-Sound all (flatten children) conjunction (m (flatten children) (Memᴰ.head refl))
        s
  put_clause-Sound all all_values children conjunction m s =
      put_all-Sound all children conjunction m s
  put_clause-Sound all ordered children conjunction m s = put_all-Sound all children conjunction m s

  put_clause-HasKey :
      (k : List ℕ) (op : BooleanOperator) (children : List (List KeyHolder))
      (conjunction : Conjunction)
      → HasKey k conjunction
      → HasKey k (put_clause sort_by_locale sort op children conjunction)
  unfolding put_clause
  put_clause-HasKey k any_value children conjunction h =
      put_granters-HasKey k (flatten children) conjunction h
  put_clause-HasKey k all_values children conjunction h = put_all-HasKey k children conjunction h
  put_clause-HasKey k ordered children conjunction h = put_all-HasKey k children conjunction h

  put_clause-Complete :
      (op : BooleanOperator) (children : List (List KeyHolder)) (conjunction : Conjunction)
      → Complete (groups_of op children) (put_clause sort_by_locale sort op children conjunction)
  unfolding put_clause
  put_clause-Complete any_value children conjunction g gs m =
      subst (λ r. HasKey (key (g ∷ gs)) (put_granters sort_by_locale sort r conjunction))
        (Memᴰ.eq_of_singleton m) (put_granters-key g gs conjunction)
  put_clause-Complete all_values children conjunction g gs m =
      put_all-Complete children conjunction g gs m
  put_clause-Complete ordered children conjunction g gs m =
      put_all-Complete children conjunction g gs m

  pub put_clauses-Sound :
      (all : List (List KeyHolder)) (clauses : List ComplexBooleanClause)
      (conjunction : Conjunction)
      → ((c : List KeyHolder) → Memᴰ c (groups clauses) → Memᴰ c all)
      → Sound all conjunction
      → Sound all (put_clauses sort_by_locale sort clauses conjunction)
  unfolding put_clauses
  put_clauses-Sound all [] conjunction m s = s
  put_clauses-Sound all (clause ∷ clauses) conjunction m s =
      put_clauses-Sound all clauses _
        (λ c h. m c (Memᴰ.append_right (groups_of clause.op clause.children) h))
        (put_clause-Sound all clause.op clause.children conjunction
          (λ c h. m c (Memᴰ.append_left (groups clauses) h)) s)

  put_clauses-HasKey :
      (k : List ℕ) (clauses : List ComplexBooleanClause) (conjunction : Conjunction)
      → HasKey k conjunction
      → HasKey k (put_clauses sort_by_locale sort clauses conjunction)
  unfolding put_clauses
  put_clauses-HasKey k [] conjunction h = h
  put_clauses-HasKey k (clause ∷ clauses) conjunction h =
      put_clauses-HasKey k clauses _ (put_clause-HasKey k clause.op clause.children conjunction h)

  pub put_clauses-Complete :
      (clauses : List ComplexBooleanClause) (conjunction : Conjunction)
      → Complete (groups clauses) (put_clauses sort_by_locale sort clauses conjunction)
  unfolding put_clauses
  put_clauses-Complete [] conjunction g gs m = absurd (Memᴰ.not-nil m)
  put_clauses-Complete (clause ∷ clauses) conjunction g gs m =
      elim (Memᴰ.append_cases (groups_of clause.op clause.children) m) [
        | inl here ↦
            put_clauses-HasKey (key (g ∷ gs)) clauses
              (put_clause sort_by_locale sort clause.op clause.children conjunction)
              (put_clause-Complete clause.op clause.children conjunction g gs here)
        | inr later ↦ put_clauses-Complete clauses _ g gs later
      ]
