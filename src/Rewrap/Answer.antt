-- ===== src/Rewrap/Answer.antt =====
-- What tryKasRewrap of lib/tdf3/src/tdf.ts makes of the response to its request, and handleRpcRewrapErrorString of
-- lib/src/access/access-rpc.ts. The names of the codes of the RPC library, and the crypto service, are
-- parameters. The failures of the crypto service are `thrown`.
use web_sdk.Base.{
  ℕ, Bool, true, false, ◌&&◌, ◌||◌, List, [], ◌∷◌, Option, none, some, Result, ok, err, Error, ◌==◌,
  ◌>>=◌, if◌then◌else◌, drop, take, ◌⊎◌, inl, inr,
}
use web_sdk.Kas.{Table}
use web_sdk.Rewrap.{
  Value, Outcome, kas_wrapped_key, error, missing, KeyAccessRewrapResult, PolicyRewrapResult,
  RewrapResponse, get_required_obligation_fqns, upgrade_rewrap_response_v1,
}

pub data Code : Type 0 where
  invalid_argument permission_denied unauthenticated internal unimplemented data_loss unknown : Code
  deadline_exceeded unavailable : Code

-- The classes of lib/src/errors.ts that are thrown here; a refusal has the obligations that it was given.
pub data RewrapError : Type 0 where
  invalid_file unauthenticated_error service network decrypt : RewrapError
  denied : List (List ℕ) → RewrapError
  thrown : Error → RewrapError

pub record RewrapResponseData : Type 0 where
  pub key : List ℕ
  pub metadata : Table Value
  pub required_obligations : List (List ℕ)

unfoldable pub is_prefix : List ℕ → List ℕ → Bool
is_prefix [] text = true
is_prefix (c ∷ part) [] = false
is_prefix (c ∷ part) (d ∷ text) = c == d && is_prefix part text

-- `includes` of a string.
unfoldable pub has_text : List ℕ → List ℕ → Bool
unfolding is_prefix
has_text part [] = is_prefix part []
has_text part (c ∷ text) = is_prefix part (c ∷ text) || has_text part text

module _ (code_name : Code → List ℕ) where
  unfoldable pub is_service_error : List ℕ → Bool
  unfolding has_text
  is_service_error e =
      has_text (code_name internal) e
      || has_text (code_name unimplemented) e
      || has_text (code_name data_loss) e
      || has_text (code_name unknown) e
      || has_text (code_name deadline_exceeded) e
      || has_text (code_name unavailable) e

  -- Without obligations the refusal has none.
  unfoldable pub handle_rpc_rewrap_error_string : List ℕ → List (List ℕ) → RewrapError
  unfolding has_text is_service_error
  handle_rpc_rewrap_error_string e required_obligations =
      if has_text (code_name invalid_argument) e
      then invalid_file
      else if has_text (code_name permission_denied) e
      then denied required_obligations
      else if has_text (code_name unauthenticated) e
      then unauthenticated_error
      else if is_service_error e
      then service
      else network

-- `responses?.[0]?.results?.[0]`
unfoldable pub first_result : List PolicyRewrapResult → Option KeyAccessRewrapResult
first_result [] = none
first_result (response ∷ responses) = first response.results
  where
    first : List KeyAccessRewrapResult → Option KeyAccessRewrapResult
    first [] = none
    first (result ∷ results) = some result

module _ {Key : Type 0} (code_name : Code → List ℕ) (to_lower_case : List ℕ → List ℕ)
    (elliptic : Bool) (derive_key : Result Key)
    (decrypt_with_key : List ℕ → Key → List ℕ → Result (List ℕ))
    (decrypt_with_private_key : List ℕ → Result (List ℕ)) where
  -- A key that was wrapped with a derived key stands after the 12 bytes of its vector.
  unfoldable pub unwrapped : List ℕ → Result (List ℕ)
  unwrapped entity_wrapped_key =
      if elliptic
      then (derive_key >>= λ derived.
          decrypt_with_key (drop 12 entity_wrapped_key) derived (take 12 entity_wrapped_key))
      else decrypt_with_private_key entity_wrapped_key

  unfoldable pub data_of :
      Table Value → List (List ℕ) → Result (List ℕ) → RewrapError ⊎ RewrapResponseData
  data_of metadata required_obligations (err e) = inl (thrown e)
  data_of metadata required_obligations (ok key) =
      inr (record { key = key; metadata = metadata; required_obligations = required_obligations })

  unfoldable pub outcome_of :
      Table Value → List (List ℕ) → Outcome → RewrapError ⊎ RewrapResponseData
  unfolding data_of unwrapped handle_rpc_rewrap_error_string
  outcome_of metadata required_obligations (kas_wrapped_key key) =
      data_of metadata required_obligations (unwrapped key)
  outcome_of metadata required_obligations (error e) =
      inl (handle_rpc_rewrap_error_string code_name e required_obligations)
  outcome_of metadata required_obligations missing = inl decrypt

  unfoldable pub answer_with :
      List (List ℕ) → Option KeyAccessRewrapResult → RewrapError ⊎ RewrapResponseData
  unfolding outcome_of
  answer_with required_obligations none = inl decrypt
  answer_with required_obligations (some result) =
      outcome_of result.metadata required_obligations result.result

  unfoldable pub answer : RewrapResponse → RewrapError ⊎ RewrapResponseData
  unfolding answer_with get_required_obligation_fqns upgrade_rewrap_response_v1 first_result
  answer response =
      let upgraded = upgrade_rewrap_response_v1 response in
      answer_with (get_required_obligation_fqns to_lower_case upgraded)
        (first_result upgraded.responses)
