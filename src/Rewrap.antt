-- ===== src/Rewrap.antt =====
-- upgradeRewrapResponseV1 and getRequiredObligationFQNs of lib/src/utils.ts. A string is the list of its code units,
-- and the platform's toLowerCase is a parameter. Of a protobuf Value only the kinds that the code tells apart are
-- kept. A Set is the list of its members, in the order in which they were added.
pub mod Added
pub mod Obligations
pub mod Answer
pub mod Text
pub mod Decided
mod Tests
use web_sdk.Base.{ℕ, List, [], ◌∷◌, ◌++◌, Option, none, some, if◌then◌else◌}
use web_sdk.Kas.{Table, find_key, includes}
use web_sdk.Zip.Reader.{same_units}

mutual
  -- `other_value` stands for the kinds that the code passes over.
  pub data Value : Type 0 where
    string_value : List ℕ → Value
    list_value : Values → Value
    other_value : Value

  pub data Values : Type 0 where
    end : Values
    entry : Value → Values → Values

pub data Outcome : Type 0 where
  kas_wrapped_key : List ℕ → Outcome
  error : List ℕ → Outcome
  missing : Outcome

pub record KeyAccessRewrapResult : Type 0 where
  pub key_access_object_id : List ℕ
  pub status : List ℕ
  pub result : Outcome
  pub metadata : Table Value

pub record PolicyRewrapResult : Type 0 where
  pub policy_id : List ℕ
  pub results : List KeyAccessRewrapResult

pub record RewrapResponse : Type 0 where
  pub entity_wrapped_key : List ℕ
  pub responses : List PolicyRewrapResult

abbrev pub required_obligations_metadata_key : List ℕ
required_obligations_metadata_key =
    b'X' ∷ b'-' ∷ b'R' ∷ b'e' ∷ b'q' ∷ b'u' ∷ b'i' ∷ b'r' ∷ b'e' ∷ b'd' ∷ b'-' ∷ b'O' ∷ b'b' ∷ b'l'
    ∷ b'i' ∷ b'g' ∷ b'a' ∷ b't' ∷ b'i' ∷ b'o' ∷ b'n' ∷ b's' ∷ []

-- `add` of a Set of strings.
unfoldable pub add : List ℕ → List (List ℕ) → List (List ℕ)
unfolding includes same_units
add name names = if includes same_units name names then names else names ++ name ∷ []

module _ (to_lower_case : List ℕ → List ℕ) where
  unfoldable pub add_obligations : Values → List (List ℕ) → List (List ℕ)
  unfolding add
  add_obligations end names = names
  add_obligations (entry (string_value s) obligations) names =
      add_obligations obligations (add (to_lower_case s) names)
  add_obligations (entry (list_value values) obligations) names = add_obligations obligations names
  add_obligations (entry other_value obligations) names = add_obligations obligations names

  unfoldable pub add_value : Option Value → List (List ℕ) → List (List ℕ)
  unfolding add_obligations
  add_value none names = names
  add_value (some (string_value s)) names = names
  add_value (some other_value) names = names
  add_value (some (list_value obligations)) names = add_obligations obligations names

  unfoldable pub add_results : List KeyAccessRewrapResult → List (List ℕ) → List (List ℕ)
  unfolding add_value find_key
  add_results [] names = names
  add_results (result ∷ results) names =
      add_results results
        (add_value (find_key required_obligations_metadata_key result.metadata) names)

  unfoldable pub add_responses : List PolicyRewrapResult → List (List ℕ) → List (List ℕ)
  unfolding add_results
  add_responses [] names = names
  add_responses (response ∷ responses) names =
      add_responses responses (add_results response.results names)

  unfoldable pub get_required_obligation_fqns : RewrapResponse → List (List ℕ)
  unfolding add_responses
  get_required_obligation_fqns response = add_responses response.responses []

abbrev pub policy_name : List ℕ
policy_name = b'p' ∷ b'o' ∷ b'l' ∷ b'i' ∷ b'c' ∷ b'y' ∷ []

abbrev pub first_object : List ℕ
first_object = b'k' ∷ b'a' ∷ b'o' ∷ b'-' ∷ b'0' ∷ []

abbrev pub permit : List ℕ
permit = b'p' ∷ b'e' ∷ b'r' ∷ b'm' ∷ b'i' ∷ b't' ∷ []

-- The response that a server of the first version has given in the fields of the second.
unfoldable pub upgraded : List ℕ → List PolicyRewrapResult
upgraded key =
    record {
      policy_id = policy_name;
      results =
          record {
            key_access_object_id = first_object;
            status = permit;
            result = kas_wrapped_key key;
            metadata = [];
          }
          ∷ [];
    }
    ∷ []

unfoldable pub upgrade_responses : List ℕ → List PolicyRewrapResult → List PolicyRewrapResult
unfolding upgraded
upgrade_responses key (response ∷ responses) = response ∷ responses
upgrade_responses [] [] = []
upgrade_responses (byte ∷ key) [] = upgraded (byte ∷ key)

unfoldable pub upgrade_rewrap_response_v1 : RewrapResponse → RewrapResponse
unfolding upgrade_responses
upgrade_rewrap_response_v1 response = record response {
  responses = upgrade_responses response.entity_wrapped_key response.responses;
}
