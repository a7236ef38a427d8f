-- ===== src/Discovery/Tests.antt =====
-- Requests about attributes, at short names, and the theorems at them.
use web_sdk.Base.{
  ℕ, ◌≡◌, refl, true, false, Bool, List, [], ◌∷◌, ◌++◌, Option, some, Result, ok, err, Error, arith,
  ◌↔◌, ◌⊎◌, leb, length, All, Returns, if◌then◌else◌,
}
use web_sdk.Discovery.{
  http, slashes, slash_attr, slash_value, is_attribute_fqn, is_attribute_value_fqn, list_attributes,
  validate_attributes, attribute_exists, attribute_value_exists, not_found,
  fetch_key_access_servers, kas_of,
}
use web_sdk.Discovery.Pages.{page, list_attributes-all}
use web_sdk.Discovery.Servers.{fetch_key_access_servers-allows}
use web_sdk.Kas.{OriginAllowList, allows}
use web_sdk.Discovery.Validate.{Known, validate_attributes_iff}

abbrev attribute_name : List ℕ
attribute_name = http ++ (slashes ++ (b'n' ∷ slash_attr ++ (b'a' ∷ [])))

abbrev value_name : List ℕ
value_name = attribute_name ++ (slash_value ++ (b'1' ∷ []))

abbrev knows_all : List (List ℕ) → Option (List ℕ → Bool)
knows_all fqns = some (λ fqn. true)

discovery_tests :
    (is_attribute_fqn attribute_name ≡ true)
    × (is_attribute_fqn value_name ≡ false)
    × (is_attribute_value_fqn value_name ≡ true)
    × (is_attribute_value_fqn (b'H' ∷ value_name) ≡ false)
    × (validate_attributes true knows_all (value_name ∷ []) ≡ ok tt)
    × (validate_attributes true (λ fqns. some (λ fqn. false)) (value_name ∷ [])
        ≡ err Error.attribute_not_found)
    × (attribute_exists true (λ fqn. not_found) attribute_name ≡ ok false)
    × (attribute_value_exists true knows_all attribute_name ≡ err Error.configuration)
unfolding validate_attributes attribute_exists attribute_value_exists is_attribute_fqn
    is_attribute_value_fqn
discovery_tests = (refl, refl, refl, refl, refl, refl, refl, refl)

validate_attributes_iff_example :
    (validate_attributes true knows_all (value_name ∷ []) ≡ ok tt)
    ↔ ((value_name ∷ [] ≡ []) ⊎ Known true knows_all (value_name ∷ []))
validate_attributes_iff_example = validate_attributes_iff true knows_all (value_name ∷ [])

abbrev three : List ℕ
three = 7 ∷ 8 ∷ 9 ∷ []

list_attributes-all_example :
    list_attributes true (λ offset limit. some (page three limit offset)) ≡ (
      if true
      then (if leb (length three) 10_000 then ok three else err Error.configuration)
      else err Error.configuration)
list_attributes-all_example =
    list_attributes-all three (λ offset limit. some (page three limit offset))
      (λ offset limit. refl) true

abbrev servers : List (List ℕ)
servers = (b'a' ∷ []) ∷ (b'b' ∷ []) ∷ (b'c' ∷ []) ∷ []

fetch_key_access_servers-allows_example :
    (r : Result OriginAllowList) × (fetch_key_access_servers
        (λ url. ok url)
        4
        (λ offset. some (page servers 2 offset))
        (b'p' ∷ [])
      ≡ some r)
    × Returns
        (λ l. All (λ url. allows (λ u. ok u) l url ≡ ok true) (kas_of (b'p' ∷ []) ∷ servers))
        r
fetch_key_access_servers-allows_example =
    fetch_key_access_servers-allows (λ url. ok url) servers 2 4 (b'p' ∷ [])
      (λ offset. some (page servers 2 offset)) (omega arith) (λ offset. refl) (omega arith)
