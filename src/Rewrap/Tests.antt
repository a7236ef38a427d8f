-- ===== src/Rewrap/Tests.antt =====
-- A response of two results that name an obligation in two spellings, and the theorem at it.
use mathlib.Core.List.{Memᴰ}
use web_sdk.Base.{
  ℕ, ◌+◌, ◌≡◌, ◌↔◌, refl, ◌&&◌, List, [], ◌∷◌, leb, if◌then◌else◌, map, Result, ok, inl, true,
}
use web_sdk.Rewrap.{
  upgrade_rewrap_response_v1, string_value, list_value, other_value, end, entry, kas_wrapped_key,
  error, KeyAccessRewrapResult, RewrapResponse, required_obligations_metadata_key,
  get_required_obligation_fqns,
}
use web_sdk.Rewrap.Answer.{
  Code, invalid_argument, permission_denied, unauthenticated, internal, unimplemented, data_loss,
  unknown, deadline_exceeded, unavailable, answer, first_result, denied,
}
use web_sdk.Rewrap.Decided.{Explains, answer-Explains}
use web_sdk.Rewrap.Added.{Distinct}
use web_sdk.Rewrap.Obligations.{RequiresAny, get_required_obligation_fqns_iff}

abbrev lower : List ℕ → List ℕ
lower s = map (λ c. if leb b'A' c && leb c b'Z' then c + 32 else c) s

abbrev permitted : KeyAccessRewrapResult
permitted = record {
  key_access_object_id = [];
  status = [];
  result = kas_wrapped_key (7 ∷ []);
  metadata =
      (b'k' ∷ [], string_value (b'z' ∷ []))
      ∷ (
        required_obligations_metadata_key,
        list_value (
            entry (string_value (b'A' ∷ []))
              (entry other_value (entry (string_value (b'b' ∷ [])) end))),
      )
      ∷ [];
}

abbrev failed : KeyAccessRewrapResult
failed = record {
  key_access_object_id = [];
  status = [];
  result = error (b'e' ∷ []);
  metadata =
      (
        required_obligations_metadata_key,
        list_value (entry (string_value (b'B' ∷ [])) (entry (string_value (b'c' ∷ [])) end)),
      )
      ∷ [];
}

abbrev response : RewrapResponse
response = record {
  entity_wrapped_key = [];
  responses = record { policy_id = []; results = permitted ∷ failed ∷ [] } ∷ [];
}

collected :
    get_required_obligation_fqns lower response ≡ (b'a' ∷ []) ∷ (b'b' ∷ []) ∷ (b'c' ∷ []) ∷ []
unfolding get_required_obligation_fqns
collected = refl

get_required_obligation_fqns_iff_example :
    ((name : List ℕ)
      → Memᴰ name (get_required_obligation_fqns lower response)
        ↔ RequiresAny lower response.responses name)
    × Distinct (get_required_obligation_fqns lower response)
get_required_obligation_fqns_iff_example = get_required_obligation_fqns_iff lower response

abbrev code_name : Code → List ℕ
code_name invalid_argument = b'I' ∷ b'A' ∷ []
code_name permission_denied = b'P' ∷ b'D' ∷ []
code_name unauthenticated = b'U' ∷ b'A' ∷ []
code_name internal = b'I' ∷ b'N' ∷ []
code_name unimplemented = b'U' ∷ b'I' ∷ []
code_name data_loss = b'D' ∷ b'L' ∷ []
code_name unknown = b'U' ∷ b'K' ∷ []
code_name deadline_exceeded = b'D' ∷ b'E' ∷ []
code_name unavailable = b'U' ∷ b'V' ∷ []

abbrev refusing : RewrapResponse
refusing = record {
  entity_wrapped_key = [];
  responses =
      record {
        policy_id = [];
        results = record failed { result = error (b'a' ∷ b'P' ∷ b'D' ∷ []) } ∷ permitted ∷ [];
      }
      ∷ [];
}

abbrev decrypt_with_key : List ℕ → ℕ → List ℕ → Result (List ℕ)
decrypt_with_key wrapped key iv = ok (key ∷ wrapped)

abbrev decrypt_with_private_key : List ℕ → Result (List ℕ)
decrypt_with_private_key wrapped = ok wrapped

refused :
    answer code_name lower true (ok 5) decrypt_with_key decrypt_with_private_key refusing
    ≡ inl (denied ((b'b' ∷ []) ∷ (b'c' ∷ []) ∷ (b'a' ∷ []) ∷ []))
unfolding answer
refused = refl

answer-Explains_example :
    (answer code_name lower true (ok 5) decrypt_with_key decrypt_with_private_key refusing
      ≡ inl (denied ((b'b' ∷ []) ∷ (b'c' ∷ []) ∷ (b'a' ∷ []) ∷ [])))
    ↔ Explains code_name lower true
        (ok 5)
        decrypt_with_key
        decrypt_with_private_key
        (get_required_obligation_fqns lower refusing)
        (first_result (upgrade_rewrap_response_v1 refusing).responses)
        (inl (denied ((b'b' ∷ []) ∷ (b'c' ∷ []) ∷ (b'a' ∷ []) ∷ [])))
answer-Explains_example =
    answer-Explains code_name lower true (ok 5) decrypt_with_key decrypt_with_private_key refusing
      (inl (denied ((b'b' ∷ []) ∷ (b'c' ∷ []) ∷ (b'a' ∷ []) ∷ [])))
