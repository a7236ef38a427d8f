-- ===== src/Kas/Unwrap.antt =====
-- unwrapKey of lib/tdf3/src/tdf.ts over the pools of lib/src/concurrency.ts. `try_kas` is the outcome of
-- tryKasRewrap, its error as handleRewrapError has it, and `lower` is toLowerCase; `picks i` are the winners of the races
-- of the i-th split's pool. An AggregateError that holds more errors than one, or none, is a plain error.
-- Keys of the crypto service are the bytes that they stand for.
use web_sdk.Base.{
  ℕ, suc, Bool, true, false, List, [], ◌∷◌, Option, none, some, Result, ok, err, Error, ◌⊎◌, inl,
  inr, ltb, if◌then◌else◌, map, ◌>>=◌,
}
use mathlib.Core.List.{flatten}
use web_sdk.Kas.{KeyAccess, OriginAllowList, Table, split_lookup_table_factory, distinct_from}
use web_sdk.KeySplit.{key_merge}
use web_sdk.Pool.{all_pool, any_pool}
use web_sdk.Zip.Reader.{same_units}

pub record RewrapResponseData : Type 0 where
  pub key : List ℕ
  pub required_obligations : List (List ℕ)

pub record Unwrapped : Type 0 where
  pub reconstructed_key : List ℕ
  pub required_obligations : List (List ℕ)

unfoldable pub pool_size : Option ℕ → ℕ
pool_size none = 1
pool_size (some limit) = if ltb 1 limit then limit else 1

-- What is thrown for the errors of an AggregateError.
unfoldable pub single_error : List Error → Error
single_error [] = Error.generic
single_error (e ∷ []) = e
single_error (e ∷ f ∷ errors) = Error.generic

unfoldable pub any_outcome : RewrapResponseData ⊎ List Error → Result RewrapResponseData
unfolding single_error
any_outcome (inl response) = ok response
any_outcome (inr errors) = err (single_error errors)

-- Every split has a server that may be asked.
unfoldable pub check_potentials : Table (Table KeyAccess) → Result (Table (Table KeyAccess))
check_potentials [] = ok []
check_potentials ((sid, []) ∷ potentials) = err Error.unsafe_url
check_potentials ((sid, kas ∷ disjunction) ∷ potentials) = do
  rest ← check_potentials potentials
  ok ((sid, kas ∷ disjunction) ∷ rest)

module _ (lower : List ℕ → List ℕ) (try_kas : KeyAccess → Result RewrapResponseData) (n : ℕ)
    (picks : ℕ → ℕ → ℕ) (all_picks : ℕ → ℕ) where
  abbrev pub asked : Table KeyAccess → List (Result RewrapResponseData)
  asked table = map (λ p. try_kas p.1) table

  unfoldable pub split_outcomes : ℕ → Table (Table KeyAccess) → List (Result RewrapResponseData)
  unfolding any_pool any_outcome
  split_outcomes i [] = []
  split_outcomes i ((sid, table) ∷ potentials) =
      any_outcome (any_pool n (picks i) (asked table)) ∷ split_outcomes (suc i) potentials

  unfoldable pub merge_responses : List RewrapResponseData → Result Unwrapped
  unfolding key_merge distinct_from same_units
  merge_responses responses = do
    reconstructed_key ← key_merge (map (λ r. r.key) responses)
    let obligations = flatten (map (λ r. map lower r.required_obligations) responses)
    ok (record {
      reconstructed_key = reconstructed_key;
      required_obligations = distinct_from same_units [] obligations;
    })

  unfoldable pub unwrap_potentials : Table (Table KeyAccess) → Result Unwrapped
  unfolding check_potentials all_pool split_outcomes merge_responses
  unwrap_potentials split_potentials = do
    potentials ← check_potentials split_potentials
    responses ← all_pool n all_picks (split_outcomes 0 potentials)
    merge_responses responses

module _ (origin : List ℕ → Result (List ℕ)) (lower : List ℕ → List ℕ)
    (try_kas : KeyAccess → Result RewrapResponseData) (picks : ℕ → ℕ → ℕ) (all_picks : ℕ → ℕ) where
  -- The first argument says whether there is an auth configuration.
  unfoldable pub unwrap_key : Bool → Option ℕ → OriginAllowList → List KeyAccess → Result Unwrapped
  unfolding split_lookup_table_factory unwrap_potentials pool_size
  unwrap_key false limit allowed_kases key_access = err Error.configuration
  unwrap_key true limit allowed_kases key_access = do
    split_potentials ← split_lookup_table_factory origin allowed_kases key_access
    unwrap_potentials lower try_kas (pool_size limit) picks all_picks split_potentials
