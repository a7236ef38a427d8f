-- ===== src/Granter/Tests.antt =====
-- A plan for a value of an 'allOf' attribute on two servers and one of an 'anyOf' attribute, and two groups whose
-- keys collide.
use mathlib.Core.List.{Memᴰ}
use mathlib.Core.List.Memᴰ
use web_sdk.Base.{ℕ, ◌≡◌, refl, List, [], ◌∷◌, none, some, Result, ok, err, length, map, ◌<◌}
use web_sdk.Granter.Model.{
  KeyHolder, server, kas_key, Value, Attribute, Rule, all_of, any_of, ComplexBooleanClause,
  KeySplitStep, all_values,
}
use web_sdk.Granter.Plan.{plan, splits}
use web_sdk.Granter.Conjunction.{groups}
use web_sdk.Granter.Splits.{HasSplit, simplify-HasSplit, splits-groups}

abbrev same : List (List ℕ) → List (List ℕ)
same keys = keys

abbrev kept : List ℕ → List ℕ
kept text = text

abbrev attribute_of : ℕ → Rule → Attribute
attribute_of n rule = record {
  fqn = n ∷ [];
  rule = rule;
  grants = server 7 (100 ∷ []) none ∷ [];
  kas_keys = [];
  namespace = none;
}

abbrev value_of : ℕ → Attribute → List KeyHolder → Value
value_of n attribute grants = record {
  fqn = n ∷ [];
  attribute = some attribute;
  grants = grants;
  kas_keys = [];
}

abbrev data_attributes : List Value
data_attributes =
    value_of 1 (attribute_of 10 all_of) (server 1 (97 ∷ []) none ∷ server 2 (98 ∷ []) none ∷ [])
    ∷ value_of 2 (attribute_of 10 all_of) []
    ∷ value_of 3 (attribute_of 11 any_of) (server 3 (99 ∷ []) none ∷ [])
    ∷ value_of 4 (attribute_of 11 any_of) (server 4 (101 ∷ []) none ∷ [])
    ∷ []

abbrev sids : Result (List KeySplitStep) → List ℕ
sids (err e) = []
sids (ok steps) = map (λ s. s.sid) steps

planned : sids (plan same same kept data_attributes) ≡ 1 ∷ 1 ∷ 2 ∷ 3 ∷ 3 ∷ []
unfolding plan mathlib.Core.List.flatten
planned = refl

abbrev clauses : List ComplexBooleanClause
clauses =
    record {
      op = all_values;
      children =
          (server 1 (97 ∷ []) none ∷ server 2 (98 ∷ []) none ∷ [])
          ∷ (kas_key (99 ∷ []) (49 ∷ []) ∷ [])
          ∷ [];
    }
    ∷ []

simplify-HasSplit_example : HasSplit same same clauses (kas_key (99 ∷ []) (49 ∷ []) ∷ [])
simplify-HasSplit_example =
    simplify-HasSplit same same (λ k keys m. m) clauses (kas_key (99 ∷ []) (49 ∷ [])) []
      (Memᴰ.tail (Memᴰ.head refl))

splits-groups_example :
    Memᴰ (server 1 (97 ∷ []) none ∷ server 2 (98 ∷ []) none ∷ []) (groups clauses)
    × (0 < length (server 1 (97 ∷ []) none ∷ server 2 (98 ∷ []) none ∷ []))
unfolding splits
splits-groups_example =
    splits-groups same same clauses 1 (server 1 (97 ∷ []) none ∷ server 2 (98 ∷ []) none ∷ [])
      (Memᴰ.head refl)

-- A key id with a colon and a slash in it makes the key of a group of one that of a group of two.
abbrev colliding : List ComplexBooleanClause
colliding =
    record {
      op = all_values;
      children =
          (kas_key (97 ∷ []) (49 ∷ 58 ∷ 98 ∷ 47 ∷ 50 ∷ []) ∷ [])
          ∷ (kas_key (97 ∷ []) (49 ∷ []) ∷ kas_key (98 ∷ []) (50 ∷ []) ∷ [])
          ∷ [];
    }
    ∷ []

one_split : length (splits same same colliding) ≡ 1
unfolding splits
one_split = refl
