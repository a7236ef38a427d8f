-- ===== src/Rewrap/Obligations.antt =====
-- What getRequiredObligationFQNs of lib/src/utils.ts collects of a rewrap response, before and after
-- upgradeRewrapResponseV1.
use mathlib.Core.List.{Memᴰ}
use mathlib.Core.List.Memᴰ
use web_sdk.Base.{
  ℕ, ◌≡◌, ◌↔◌, ◌⊎◌, inl, inr, refl, sym, ap, ◌∙◌, subst, List, [], ◌∷◌, Option, none, some,
}
use web_sdk.Kas.{find_key}
use web_sdk.Rewrap.{
  Value, Values, string_value, list_value, other_value, end, entry, KeyAccessRewrapResult,
  PolicyRewrapResult, RewrapResponse, required_obligations_metadata_key, add, add_obligations,
  add_value, add_results, add_responses, get_required_obligation_fqns, upgraded, upgrade_responses,
  upgrade_rewrap_response_v1,
}
use web_sdk.Rewrap.Added.{Distinct, Adds, Adds-none, Adds-then, same-Adds, add-Adds}

pub data Entry (v : Value) : Values → Type 0 where
  first : {w : Value} {values : Values} → v ≡ w → Entry v (entry w values)
  later : {w : Value} {values : Values} → Entry v values → Entry v (entry w values)

module _ (to_lower_case : List ℕ → List ℕ) where
  -- What a list of values names: its strings, in lower case.
  abbrev pub Listed : Values → List ℕ → Type 0
  Listed values name = (s : List ℕ) × Entry (string_value s) values × (to_lower_case s ≡ name)

  -- What a result requires: the strings of the list that its metadata have under the key.
  abbrev pub Requires : KeyAccessRewrapResult → List ℕ → Type 0
  Requires result name =
      (values : Values) × (find_key required_obligations_metadata_key result.metadata
        ≡ some (list_value values))
      × Listed values name

  -- What a response requires: what one of the results of one of its policies requires.
  abbrev pub RequiresAny : List PolicyRewrapResult → List ℕ → Type 0
  RequiresAny responses name =
      (response : PolicyRewrapResult) × (result : KeyAccessRewrapResult) × Memᴰ response responses
      × Memᴰ result response.results
      × Requires result name

  skipped :
      (v : Value) (values : Values) (name : List ℕ)
      → ((s : List ℕ) → ¬ (string_value s ≡ v))
      → Listed (entry v values) name
      → Listed values name
  skipped v values name differs (s, first e, low) = absurd (differs s e)
  skipped v values name differs (s, later m, low) = (s, m, low)

  Listed-string :
      (s : List ℕ) (values : Values) (name : List ℕ)
      → Listed (entry (string_value s) values) name
      → (name ≡ to_lower_case s) ⊎ Listed values name
  Listed-string s values name (t, first e, low) =
      let same : t ≡ s = ap text e in inl (sym low ∙ ap to_lower_case same)
    where
      text : Value → List ℕ
      text (string_value u) = u
      text (list_value vs) = []
      text other_value = []
  Listed-string s values name (t, later m, low) = inr (t, m, low)

  add_obligations-Adds :
      (values : Values) → Adds (Listed values) (add_obligations to_lower_case values)
  unfolding add_obligations
  add_obligations-Adds end = Adds-none (Listed end) (λ name (s, m, low). elim m [ ])
  add_obligations-Adds (entry (string_value s) values) =
      Adds-then (λ name. name ≡ to_lower_case s) (Listed values)
        (Listed (entry (string_value s) values)) (add (to_lower_case s))
        (add_obligations to_lower_case values) (add-Adds (to_lower_case s))
        (add_obligations-Adds values)
        (λ name. (
          Listed-string s values name,
          λ m. elim m [
            | inl same ↦ (s, first refl, sym same)
            | inr (t, rest, low) ↦ (t, later rest, low)
          ],
        ))
  add_obligations-Adds (entry (list_value vs) values) =
      same-Adds (Listed values) (Listed (entry (list_value vs) values)) _
        (add_obligations-Adds values)
        (λ name.
          (λ (s, m, low). (s, later m, low), skipped (list_value vs) values name (λ s e. cc)))
  add_obligations-Adds (entry other_value values) =
      same-Adds (Listed values) (Listed (entry other_value values)) _ (add_obligations-Adds values)
        (λ name. (λ (s, m, low). (s, later m, low), skipped other_value values name (λ s e. cc)))

  add_value-Adds :
      (result : KeyAccessRewrapResult) (found : Option Value)
      → find_key required_obligations_metadata_key result.metadata ≡ found
      → Adds (Requires result) (add_value to_lower_case found)
  unfolding add_value
  add_value-Adds result none e = Adds-none (Requires result) (λ name (values, f, m). cc)
  add_value-Adds result (some (string_value s)) e =
      Adds-none (Requires result) (λ name (values, f, m). cc)
  add_value-Adds result (some other_value) e =
      Adds-none (Requires result) (λ name (values, f, m). cc)
  add_value-Adds result (some (list_value vs)) e =
      same-Adds (Listed vs) (Requires result) _ (add_obligations-Adds vs) (λ name. (
        λ m. (vs, e, m),
        λ (values, f, m).
            let same : values ≡ vs = ap list_of (some_list (sym f ∙ e)) in
            subst (λ v. Listed v name) same m,
      ))
    where
      list_of : Value → Values
      list_of (list_value values) = values
      list_of (string_value s) = end
      list_of other_value = end

      value_of : Option Value → Value
      value_of none = other_value
      value_of (some v) = v

      some_list : {v w : Value} → some v ≡ some w → v ≡ w
      some_list f = ap value_of f

  add_results-Adds :
      (results : List KeyAccessRewrapResult)
      → Adds
          (λ name. (result : KeyAccessRewrapResult) × Memᴰ result results × Requires result name)
          (add_results to_lower_case results)
  unfolding add_results
  add_results-Adds [] = Adds-none _ (λ name (result, m, needs). Memᴰ.not-nil m)
  add_results-Adds (result ∷ results) =
      Adds-then (Requires result) _ _
        (add_value to_lower_case (find_key required_obligations_metadata_key result.metadata))
        (add_results to_lower_case results) (add_value-Adds result _ refl)
        (add_results-Adds results)
        (λ name. (
          λ (other, m, needs). elim (Memᴰ.cases_cons m) [
            | inl same ↦ inl (subst (λ r. Requires r name) same needs)
            | inr rest ↦ inr (other, rest, needs)
          ],
          λ m. elim m [
            | inl needs ↦ (result, Memᴰ.head refl, needs)
            | inr (other, rest, needs) ↦ (other, Memᴰ.tail rest, needs)
          ],
        ))

  add_responses-Adds :
      (responses : List PolicyRewrapResult)
      → Adds (RequiresAny responses) (add_responses to_lower_case responses)
  unfolding add_responses
  add_responses-Adds [] = Adds-none _ (λ name (response, result, m, n, needs). Memᴰ.not-nil m)
  add_responses-Adds (response ∷ responses) =
      Adds-then
        (λ name.
          (result : KeyAccessRewrapResult) × Memᴰ result response.results × Requires result name)
        (RequiresAny responses) _ (add_results to_lower_case response.results)
        (add_responses to_lower_case responses) (add_results-Adds response.results)
        (add_responses-Adds responses)
        (λ name. (
          λ (other, result, m, n, needs). elim (Memᴰ.cases_cons m) [
            | inl same ↦ inl (result, subst (λ r. Memᴰ result r.results) same n, needs)
            | inr rest ↦ inr (other, result, rest, n, needs)
          ],
          λ m. elim m [
            | inl (result, n, needs) ↦ (response, result, Memᴰ.head refl, n, needs)
            | inr (other, result, rest, n, needs) ↦ (other, result, Memᴰ.tail rest, n, needs)
          ],
        ))

  -- The obligations of a rewrap response are the strings, in lower case, of the lists that the metadata of its
  -- results have under the key of the required obligations, and no others, each once.
  pub get_required_obligation_fqns_iff :
      (response : RewrapResponse)
      → ((name : List ℕ)
          → Memᴰ name (get_required_obligation_fqns to_lower_case response)
            ↔ RequiresAny response.responses name)
        × Distinct (get_required_obligation_fqns to_lower_case response)
  unfolding get_required_obligation_fqns
  get_required_obligation_fqns_iff response =
      let a = add_responses-Adds response.responses in
      (
        λ name. (
          λ m. elim ((a.members [] name).0 m) [
            | inl old ↦ absurd (Memᴰ.not-nil old)
            | inr new ↦ new
          ],
          λ needs. (a.members [] name).1 (inr needs),
        ),
        a.keeps [] tt,
      )

  upgrade-none_added :
      (key : List ℕ) (responses : List PolicyRewrapResult)
      → add_responses to_lower_case (upgrade_responses key responses) []
        ≡ add_responses to_lower_case responses []
  unfolding add_responses upgrade_responses upgraded add_results add_value find_key
  upgrade-none_added key (r ∷ responses) = refl
  upgrade-none_added [] [] = refl
  upgrade-none_added (byte ∷ key) [] = refl

  -- A response of the first version has no metadata, and requires nothing.
  pub get_required_obligation_fqns-upgrade :
      (response : RewrapResponse)
      → get_required_obligation_fqns to_lower_case (upgrade_rewrap_response_v1 response)
        ≡ get_required_obligation_fqns to_lower_case response
  unfolding get_required_obligation_fqns upgrade_rewrap_response_v1
  get_required_obligation_fqns-upgrade response =
      upgrade-none_added response.entity_wrapped_key response.responses
