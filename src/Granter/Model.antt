-- ===== src/Granter/Model.antt =====
-- plan and simplify of lib/src/policy/granter.ts, and effectiveKasKeys of lib/src/policy/kas-keys.ts. A string
-- is the list of its code units; `reference` is the identity of an object, by which a Set tells grants
-- apart. The platform's toLowerCase and the two ways to sort strings, by localeCompare and by code
-- units, are parameters. A split's id is the number whose decimal text the source takes. No FQN is the
-- text of an array index, so that records keep the order of their insertion.
use web_sdk.Base.{
  ℕ, Bool, false, ◌||◌, List, [], ◌∷◌, ◌++◌, Option, none, some, ◌==◌, if◌then◌else◌,
}
use web_sdk.Kas.{Table, find_key}
use web_sdk.Zip.Reader.{same_units}

-- A key access server, with the key ids of its public key if that is cached, or a key of one.
pub data KeyHolder : Type 0 where
  server : (reference : ℕ) (uri : List ℕ) (cached : Option (List (List ℕ))) → KeyHolder
  kas_key : (kas_uri kid : List ℕ) → KeyHolder

pub record KasKey : Type 0 where
  pub kas_uri : List ℕ
  pub public_key : Option (List ℕ)

pub data Rule : Type 0 where
  unspecified all_of any_of hierarchy : Rule

pub record Namespace : Type 0 where
  pub grants : List KeyHolder
  pub kas_keys : List KasKey

pub record Attribute : Type 0 where
  pub fqn : List ℕ
  pub rule : Rule
  pub grants : List KeyHolder
  pub kas_keys : List KasKey
  pub namespace : Option Namespace

pub record Value : Type 0 where
  pub fqn : List ℕ
  pub attribute : Option Attribute
  pub grants : List KeyHolder
  pub kas_keys : List KasKey

pub data BooleanOperator : Type 0 where
  all_values any_value ordered : BooleanOperator

pub record AttributeClause : Type 0 where
  pub def : Attribute
  pub values : List (List ℕ)

-- The children are clauses of the operator 'anyOf' each, by the way they are made.
pub record ComplexBooleanClause : Type 0 where
  pub op : BooleanOperator
  pub children : List (List KeyHolder)

pub record KeySplitStep : Type 0 where
  pub sid : ℕ
  pub kas : KeyHolder
  pub kid : Option (List ℕ)

unfoldable pub boolean_operator_for : Rule → BooleanOperator
boolean_operator_for unspecified = all_values
boolean_operator_for all_of = all_values
boolean_operator_for any_of = any_value
boolean_operator_for hierarchy = ordered

unfoldable pub namespace_grants : Option Namespace → List KeyHolder
namespace_grants none = []
namespace_grants (some n) = n.grants

unfoldable pub namespace_keys : Option Namespace → List KasKey
namespace_keys none = []
namespace_keys (some n) = n.kas_keys

unfoldable pub or_keys : List KasKey → List KasKey → List KasKey
or_keys [] others = others
or_keys (k ∷ keys) others = k ∷ keys

unfoldable pub effective_kas_keys : Attribute → Value → List KasKey
unfolding or_keys namespace_keys
effective_kas_keys attribute v =
    or_keys v.kas_keys (or_keys attribute.kas_keys (namespace_keys attribute.namespace))

unfoldable pub to_key_holders : List KasKey → List KeyHolder
to_key_holders [] = []
to_key_holders (k ∷ keys) =
    let rest = to_key_holders keys in
    elim k.public_key [ none ↦ rest | some kid ↦ kas_key k.kas_uri kid ∷ rest ]

-- The members of a Set, in the order of their insertion.
unfoldable pub has_holder : KeyHolder → List KeyHolder → Bool
has_holder (server r u c) [] = false
has_holder (server r u c) (server s v d ∷ set) = r == s || has_holder (server r u c) set
has_holder (server r u c) (kas_key v k ∷ set) = has_holder (server r u c) set
has_holder (kas_key u k) set = false

unfoldable pub add_holders : List KeyHolder → List KeyHolder → List KeyHolder
unfolding has_holder
add_holders set [] = set
add_holders set (g ∷ gs) = add_holders (if has_holder g set then set else set ++ g ∷ []) gs

-- An assignment to a key of a record.
unfoldable pub put {ℓ} : {V : Type ℓ} → List ℕ → V → Table V → Table V
unfolding same_units
put k v [] = (k, v) ∷ []
put k v ((key, old) ∷ table) =
    let rest = put k v table in if same_units key k then (key, v) ∷ table else (key, old) ∷ rest

unfoldable pub holders_of : Option (List KeyHolder) → List KeyHolder
holders_of none = []
holders_of (some set) = set

-- The grants that `addGrants` is called with until one call returns true.
unfoldable pub first_grants : List (List KeyHolder) → List KeyHolder
first_grants [] = []
first_grants ([] ∷ others) = first_grants others
first_grants ((g ∷ gs) ∷ others) = g ∷ gs

unfoldable pub add_grants :
    List ℕ → List KeyHolder → Table (List KeyHolder) → Table (List KeyHolder)
unfolding find_key put add_holders holders_of
add_grants fqn gs granters = put fqn (add_holders (holders_of (find_key fqn granters)) gs) granters

unfoldable pub grants_for : Attribute → Value → List KeyHolder
unfolding effective_kas_keys to_key_holders first_grants namespace_grants
grants_for attribute v = first_grants (
    to_key_holders (effective_kas_keys attribute v)
    ∷ v.grants
    ∷ attribute.grants
    ∷ namespace_grants attribute.namespace
    ∷ [])

unfoldable pub add_value : Attribute → List ℕ → Option AttributeClause → AttributeClause
add_value attribute fqn none = record { def = attribute; values = fqn ∷ [] }
add_value attribute fqn (some clause) = record clause { values = clause.values ++ fqn ∷ [] }

abbrev pub Clauses : Type 0
Clauses = Table (List KeyHolder) × Table AttributeClause

-- The granters of each value of a clause that has any.
unfoldable pub clause_children : Table (List KeyHolder) → List (List ℕ) → List (List KeyHolder)
unfolding find_key holders_of
clause_children granters [] = []
clause_children granters (value ∷ values) =
    let rest = clause_children granters values in
    elim (holders_of (find_key value granters)) [ [] ↦ rest | g ∷ gs ↦ (g ∷ gs) ∷ rest ]

unfoldable pub complex_clauses :
    Table (List KeyHolder) → Table AttributeClause → List ComplexBooleanClause
unfolding clause_children boolean_operator_for
complex_clauses granters [] = []
complex_clauses granters ((_, clause) ∷ clauses) =
    record {
      op = boolean_operator_for clause.def.rule;
      children = clause_children granters clause.values;
    }
    ∷ complex_clauses granters clauses
