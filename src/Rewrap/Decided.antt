-- ===== src/Rewrap/Decided.antt =====
-- What each way in which tryKasRewrap of lib/tdf3/src/tdf.ts ends says of the response.
use web_sdk.Base.{
  ℕ, ◌≡◌, ◌↔◌, refl, sym, subst, Bool, List, Option, none, some, Result, ok, err, ◌⊎◌, inl, inr,
  Bool-cases,
}
use web_sdk.Kas.{Table}
use web_sdk.Rewrap.{
  Value, Outcome, kas_wrapped_key, error, missing, KeyAccessRewrapResult, RewrapResponse,
  get_required_obligation_fqns, upgrade_rewrap_response_v1,
}
use web_sdk.Rewrap.Answer.{
  Code, permission_denied, invalid_argument, unauthenticated, RewrapError, invalid_file,
  unauthenticated_error, service, network, decrypt, denied, thrown, RewrapResponseData, has_text,
  is_service_error, handle_rpc_rewrap_error_string, first_result, unwrapped, data_of, outcome_of,
  answer_with, answer,
}
use web_sdk.Rewrap.Text.{
  Contains, has_text-Contains, Contains-has_text, lacks, lacks-has_text, service_codes, HasOne,
  is_service_error-HasOne, HasOne-is_service_error, lacks-is_service_error,
}
use web_sdk.Rewrap.Obligations.{get_required_obligation_fqns-upgrade}

module _ {Key : Type 0} (code_name : Code → List ℕ) (to_lower_case : List ℕ → List ℕ)
    (elliptic : Bool) (derive_key : Result Key)
    (decrypt_with_key : List ℕ → Key → List ℕ → Result (List ℕ))
    (decrypt_with_private_key : List ℕ → Result (List ℕ)) where
  abbrev unwrap : List ℕ → Result (List ℕ)
  unwrap =
      unwrapped code_name to_lower_case elliptic derive_key decrypt_with_key
        decrypt_with_private_key

  -- The name of the code stands in the text.
  abbrev pub Coded : Code → List ℕ → Type 0
  Coded code e = Contains (code_name code) e

  -- What an answer tells of the outcome of a request, with the metadata and the obligations at hand.
  abbrev pub Told :
      Table Value → List (List ℕ) → Outcome → RewrapError ⊎ RewrapResponseData → Type 0
  Told metadata names outcome (inr made) =
      (wrapped : List ℕ) × (outcome ≡ kas_wrapped_key wrapped)
      × (unwrap wrapped ≡ ok made.key)
      × (made.metadata ≡ metadata)
      × (made.required_obligations ≡ names)
  Told metadata names outcome (inl (thrown x)) =
      (wrapped : List ℕ) × (outcome ≡ kas_wrapped_key wrapped) × (unwrap wrapped ≡ err x)
  Told metadata names outcome (inl decrypt) = outcome ≡ missing
  Told metadata names outcome (inl invalid_file) =
      (e : List ℕ) × (outcome ≡ error e) × Coded invalid_argument e
  Told metadata names outcome (inl (denied others)) =
      (e : List ℕ) × (outcome ≡ error e)
      × (¬ Coded invalid_argument e)
      × Coded permission_denied e
      × (others ≡ names)
  Told metadata names outcome (inl unauthenticated_error) =
      (e : List ℕ) × (outcome ≡ error e)
      × (¬ Coded invalid_argument e)
      × (¬ Coded permission_denied e)
      × Coded unauthenticated e
  Told metadata names outcome (inl service) =
      (e : List ℕ) × (outcome ≡ error e)
      × (¬ Coded invalid_argument e)
      × (¬ Coded permission_denied e)
      × (¬ Coded unauthenticated e)
      × HasOne code_name service_codes e
  Told metadata names outcome (inl network) =
      (e : List ℕ) × (outcome ≡ error e)
      × (¬ Coded invalid_argument e)
      × (¬ Coded permission_denied e)
      × (¬ Coded unauthenticated e)
      × (¬ HasOne code_name service_codes e)

  abbrev pub Explains :
      List (List ℕ) → Option KeyAccessRewrapResult → RewrapError ⊎ RewrapResponseData → Type 0
  Explains names none told = told ≡ inl decrypt
  Explains names (some result) told = Told result.metadata names result.result told

  handle-Told :
      (metadata : Table Value) (names : List (List ℕ)) (e : List ℕ)
      → Told metadata names (error e) (inl (handle_rpc_rewrap_error_string code_name e names))
  unfolding handle_rpc_rewrap_error_string
  handle-Told metadata names e = elim (Bool-cases (has_text (code_name invalid_argument) e)) [
    | inl bad ↦ rw bad (e, refl, has_text-Contains _ e bad)
    | inr valid ↦ rw valid (elim (Bool-cases (has_text (code_name permission_denied) e)) [
      | inl refused ↦ rw refused (e, refl, lacks _ e valid, has_text-Contains _ e refused, refl)
      | inr permitted ↦ rw permitted (elim (Bool-cases (has_text (code_name unauthenticated) e)) [
        | inl unknown ↦
            rw unknown
              (e, refl, lacks _ e valid, lacks _ e permitted, has_text-Contains _ e unknown)
        | inr known ↦ rw known (elim (Bool-cases (is_service_error code_name e)) [
          | inl failed ↦ rw failed (
            e,
            refl,
            lacks _ e valid,
            lacks _ e permitted,
            lacks _ e known,
            is_service_error-HasOne code_name e failed,
          )
          | inr other ↦ rw other (
            e,
            refl,
            lacks _ e valid,
            lacks _ e permitted,
            lacks _ e known,
            λ one. let bad = HasOne-is_service_error code_name e one in cc,
          )
        ])
      ])
    ])
  ]

  abbrev given : Table Value → List (List ℕ) → Result (List ℕ) → RewrapError ⊎ RewrapResponseData
  given =
      data_of code_name to_lower_case elliptic derive_key decrypt_with_key decrypt_with_private_key

  abbrev outcome_told : Table Value → List (List ℕ) → Outcome → RewrapError ⊎ RewrapResponseData
  outcome_told =
      outcome_of code_name to_lower_case elliptic derive_key decrypt_with_key
        decrypt_with_private_key

  data_of-Told :
      (metadata : Table Value) (names : List (List ℕ)) (wrapped : List ℕ) (r : Result (List ℕ))
      → unwrap wrapped ≡ r
      → Told metadata names (kas_wrapped_key wrapped) (given metadata names r)
  unfolding data_of
  data_of-Told metadata names wrapped (err x) h = (wrapped, refl, h)
  data_of-Told metadata names wrapped (ok key) h = (wrapped, refl, h, refl, refl)

  outcome_of-Told :
      (metadata : Table Value) (names : List (List ℕ)) (outcome : Outcome)
      → Told metadata names outcome (outcome_told metadata names outcome)
  unfolding outcome_of
  outcome_of-Told metadata names (kas_wrapped_key wrapped) =
      data_of-Told metadata names wrapped (unwrap wrapped) refl
  outcome_of-Told metadata names (error e) = handle-Told metadata names e
  outcome_of-Told metadata names missing = refl

  -- No other answer would be told.
  Told-outcome_of :
      (metadata : Table Value) (names : List (List ℕ)) (outcome : Outcome)
      (told : RewrapError ⊎ RewrapResponseData)
      → Told metadata names outcome told
      → outcome_told metadata names outcome ≡ told
  unfolding outcome_of data_of handle_rpc_rewrap_error_string
  Told-outcome_of metadata names outcome (inr made) (wrapped, e, u, m, n) = rw (e, u, ← m, ← n) refl
  Told-outcome_of metadata names outcome (inl (thrown x)) (wrapped, e, u) = rw (e, u) refl
  Told-outcome_of metadata names outcome (inl decrypt) e = rw e refl
  Told-outcome_of metadata names outcome (inl invalid_file) (e, o, bad) =
      rw (o, Contains-has_text _ e bad) refl
  Told-outcome_of metadata names outcome (inl (denied others)) (e, o, valid, refused, n) =
      rw (o, lacks-has_text _ e valid, Contains-has_text _ e refused, n) refl
  Told-outcome_of metadata names outcome (inl unauthenticated_error)
        (e, o, valid, permitted, unknown) =
      rw (o, lacks-has_text _ e valid, lacks-has_text _ e permitted, Contains-has_text _ e unknown)
        refl
  Told-outcome_of metadata names outcome (inl service) (e, o, valid, permitted, known, failed) =
      rw
        (
          o,
          lacks-has_text _ e valid,
          lacks-has_text _ e permitted,
          lacks-has_text _ e known,
          HasOne-is_service_error code_name e failed,
        )
        refl
  Told-outcome_of metadata names outcome (inl network) (e, o, valid, permitted, known, works) =
      rw
        (
          o,
          lacks-has_text _ e valid,
          lacks-has_text _ e permitted,
          lacks-has_text _ e known,
          lacks-is_service_error code_name e works,
        )
        refl

  answer_with-Explains :
      (names : List (List ℕ)) (found : Option KeyAccessRewrapResult)
      (told : RewrapError ⊎ RewrapResponseData)
      → (answer_with code_name to_lower_case elliptic derive_key decrypt_with_key
            decrypt_with_private_key names found
          ≡ told)
        ↔ Explains names found told
  unfolding answer_with
  answer_with-Explains names none told = (λ e. sym e, λ e. sym e)
  answer_with-Explains names (some result) told = (
    λ e.
        subst (Told result.metadata names result.result) e
          (outcome_of-Told result.metadata names result.result),
    λ t. Told-outcome_of result.metadata names result.result told t,
  )

  -- What tryKasRewrap answers or throws, in terms of the first result of the response, once upgraded. It is a key just
  -- when that result has a wrapped key that unwraps to it, with the metadata of the result and the obligations
  -- that the response requires, and a thrown error just when that fails. For an error it goes by the codes in its
  -- text: a bad request if it has that code; else a refusal, with the obligations that the response requires; else
  -- a failed authentication; else a service error if it has one of the service's codes, and a network error
  -- if it has none. A result that is neither a key nor an error, or no result, is a decryption error.
  pub answer-Explains :
      (response : RewrapResponse) (told : RewrapError ⊎ RewrapResponseData)
      → (answer code_name to_lower_case elliptic derive_key decrypt_with_key
            decrypt_with_private_key response
          ≡ told)
        ↔ Explains
            (get_required_obligation_fqns to_lower_case response)
            (first_result (upgrade_rewrap_response_v1 response).responses)
            told
  unfolding answer
  answer-Explains response told =
      let upgraded = upgrade_rewrap_response_v1 response in
      let found = first_result upgraded.responses in
      subst
        (λ names.
          (answer code_name to_lower_case elliptic derive_key decrypt_with_key
              decrypt_with_private_key response
            ≡ told)
          ↔ Explains names found told)
        (get_required_obligation_fqns-upgrade to_lower_case response)
        (answer_with-Explains (get_required_obligation_fqns to_lower_case upgraded) found told)
