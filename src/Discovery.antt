-- ===== src/Discovery.antt =====
-- lib/src/policy/discovery.ts, and fetchKeyAccessServers of lib/src/access/access-rpc.ts. The platform's replies are
-- parameters: `none` is a request that fails. What validateSecureUrl of lib/src/utils.ts says of the URL is an argument.
pub mod Pages
pub mod Names
pub mod Validate
pub mod Servers
mod Tests
use web_sdk.Base.{
  ℕ, zero, suc, ◌+◌, ◌*◌, Bool, true, false, not, ◌&&◌, ◌||◌, List, [], ◌∷◌, ◌++◌, Option, none,
  some, Result, ok, err, Error, leb, ltb, ◌==◌, if◌then◌else◌, length, map, ◌>>=◌,
}
use web_sdk.Kas.{OriginAllowList, origin_allow_list, includes}
use web_sdk.Zip.Reader.{same_units}

abbrev pub max_list_attributes_pages : ℕ
max_list_attributes_pages = 10

abbrev pub list_attributes_page_size : ℕ
list_attributes_page_size = 1000

abbrev pub max_validate_fqns : ℕ
max_validate_fqns = 250

-- A page of a listing; an offset of 0, or none, ends it.
pub record Page {ℓ} (A : Type ℓ) : Type ℓ where
  pub items : List A
  pub next_offset : ℕ

unfoldable pub check {ℓ} : {A : Type ℓ} → Bool → Error → A → Result A
check true e a = ok a
check false e a = err e

unfoldable pub replied {ℓ} : {A : Type ℓ} → Option A → Result A
replied none = err Error.network
replied (some a) = ok a

module _ {ℓ} {A : Type ℓ} where
  -- The loop of listAttributes on the pages left.
  unfoldable pub pages_loop : (ℕ → ℕ → Option (Page A)) → ℕ → ℕ → List A → Result (List A)
  unfolding replied
  pages_loop list zero next_offset result = err Error.configuration
  pages_loop list (suc pages) next_offset result = do
    resp ← replied (list next_offset list_attributes_page_size)
    let rest = pages_loop list pages resp.next_offset (result ++ resp.items)
    if resp.next_offset == 0 then ok (result ++ resp.items) else rest

  unfoldable pub list_attributes : Bool → (ℕ → ℕ → Option (Page A)) → Result (List A)
  unfolding check pages_loop
  list_attributes secure list = do
    _ ← check {A = Unit {0}} secure Error.configuration tt
    pages_loop list max_list_attributes_pages 0 []

  -- The loop of fetchKeyAccessServers, on fuel: `none` means that it ran out.
  unfoldable pub servers_loop : (ℕ → Option (Page A)) → ℕ → ℕ → List A → Option (Result (List A))
  servers_loop list zero next_offset all_servers = none
  servers_loop list (suc fuel) next_offset all_servers = elim (list next_offset) [
    | none ↦ some (err Error.network)
    | some response ↦
        let rest = servers_loop list fuel response.next_offset (all_servers ++ response.items) in
        if ltb 0 response.next_offset then rest else some (ok (all_servers ++ response.items))
  ]

-- The servers' addresses, and that of the platform's own server.
unfoldable pub with_base_kas : List (List ℕ) → List ℕ → List (List ℕ)
unfolding includes same_units
with_base_kas server_urls base =
    if includes same_units base server_urls then server_urls else server_urls ++ base ∷ []

abbrev pub kas_of : List ℕ → List ℕ
kas_of platform_url = platform_url ++ b'/' ∷ b'k' ∷ b'a' ∷ b's' ∷ []

unfoldable pub fetch_key_access_servers :
    (List ℕ → Result (List ℕ))
    → ℕ
    → (ℕ → Option (Page (List ℕ)))
    → List ℕ
    → Option (Result OriginAllowList)
unfolding servers_loop with_base_kas origin_allow_list
fetch_key_access_servers origin fuel list platform_url = elim (servers_loop list fuel 0 []) [
  | none ↦ none
  | some (err e) ↦ some (err e)
  | some (ok urls) ↦
      some (origin_allow_list origin (with_base_kas urls (kas_of platform_url)) false)
]

-- The text of a character class `[a-zA-Z0-9._~%-]`.
unfoldable pub is_name_char : ℕ → Bool
is_name_char c =
    (leb b'a' c && leb c b'z')
    || (leb b'A' c && leb c b'Z')
    || (leb b'0' c && leb c b'9')
    || c == b'.'
    || c == b'_'
    || c == b'~'
    || c == b'%'
    || c == b'-'

-- Case is ignored, as the flag `i` has it.
unfoldable pub lower_char : ℕ → ℕ
lower_char c = if leb b'A' c && leb c b'Z' then c + 32 else c

-- What is left of a text after a literal.
unfoldable pub literal : List ℕ → List ℕ → Option (List ℕ)
unfolding lower_char
literal [] text = some text
literal (l ∷ lit) [] = none
literal (l ∷ lit) (c ∷ text) =
    let rest = literal lit text in if lower_char c == l then rest else none

-- What is left after as many characters of the class as there are. None of the literals that may follow
-- starts with such a character, so that no shorter match succeeds where this one fails.
unfoldable pub names : List ℕ → List ℕ
unfolding is_name_char
names [] = []
names (c ∷ text) = let rest = names text in if is_name_char c then rest else c ∷ text

-- At least one character of the class.
unfoldable pub name : List ℕ → Option (List ℕ)
unfolding names is_name_char
name [] = none
name (c ∷ text) = if is_name_char c then some (names text) else none

abbrev pub then_match : Option (List ℕ) → (List ℕ → Option (List ℕ)) → Option (List ℕ)
then_match none next = none
then_match (some rest) next = next rest

-- `s?`
unfoldable pub optional_s : List ℕ → List ℕ
unfolding lower_char
optional_s [] = []
optional_s (c ∷ text) = if lower_char c == b's' then text else c ∷ text

unfoldable pub at_end : Option (List ℕ) → Bool
at_end none = false
at_end (some []) = true
at_end (some (c ∷ text)) = false

abbrev pub http : List ℕ
http = b'h' ∷ b't' ∷ b't' ∷ b'p' ∷ []

abbrev pub slashes : List ℕ
slashes = b':' ∷ b'/' ∷ b'/' ∷ []

abbrev pub slash_attr : List ℕ
slash_attr = b'/' ∷ b'a' ∷ b't' ∷ b't' ∷ b'r' ∷ b'/' ∷ []

abbrev pub slash_value : List ℕ
slash_value = b'/' ∷ b'v' ∷ b'a' ∷ b'l' ∷ b'u' ∷ b'e' ∷ b'/' ∷ []

-- The part that the two expressions share.
unfoldable pub attribute_part : List ℕ → Option (List ℕ)
unfolding literal optional_s name
attribute_part fqn = then_match (literal http fqn) (λ a.
    then_match (literal slashes (optional_s a))
      (λ b. then_match (name b) (λ c. then_match (literal slash_attr c) (λ d. name d))))

-- ATTRIBUTE_FQN_RE
unfoldable pub is_attribute_fqn : List ℕ → Bool
unfolding attribute_part at_end
is_attribute_fqn fqn = at_end (attribute_part fqn)

-- ATTRIBUTE_VALUE_FQN_RE
unfoldable pub is_attribute_value_fqn : List ℕ → Bool
unfolding attribute_part at_end
is_attribute_value_fqn fqn =
    at_end (then_match (attribute_part fqn) (λ a. then_match (literal slash_value a) (λ b. name b)))

unfoldable pub all_valid : List (List ℕ) → Bool
all_valid [] = true
all_valid (fqn ∷ fqns) = is_attribute_value_fqn fqn && all_valid fqns

unfoldable pub all_found : (List ℕ → Bool) → List (List ℕ) → Bool
all_found found [] = true
all_found found (fqn ∷ fqns) = found fqn && all_found found fqns

-- `get` is getAttributeValuesByFqns: the reply says which names are among its members.
module _ (secure : Bool) (get : List (List ℕ) → Option (List ℕ → Bool)) where
  unfoldable pub validate_attributes : List (List ℕ) → Result {0} Unit
  unfolding check replied all_valid all_found
  validate_attributes [] = ok tt
  validate_attributes (fqn ∷ fqns) = do
    _ ← check {A = Unit {0}} secure Error.configuration tt
    _ ← check {A = Unit {0}} (leb (length (fqn ∷ fqns)) max_validate_fqns) Error.configuration tt
    _ ← check {A = Unit {0}} (all_valid (fqn ∷ fqns)) Error.configuration tt
    found ← replied (get (fqn ∷ fqns))
    check (all_found found (fqn ∷ fqns)) Error.attribute_not_found tt

  unfoldable pub attribute_value_exists : List ℕ → Result Bool
  unfolding check replied is_attribute_value_fqn
  attribute_value_exists value_fqn = do
    _ ← check {A = Unit {0}} secure Error.configuration tt
    _ ← check {A = Unit {0}} (is_attribute_value_fqn value_fqn) Error.configuration tt
    found ← replied (get (value_fqn ∷ []))
    ok (found value_fqn)

-- The reply to getAttribute.
pub data Looked : Type 0 where
  found not_found failed : Looked

unfoldable pub exists_of : Looked → Result Bool
exists_of found = ok true
exists_of not_found = ok false
exists_of failed = err Error.network

unfoldable pub attribute_exists : Bool → (List ℕ → Looked) → List ℕ → Result Bool
unfolding check exists_of is_attribute_fqn
attribute_exists secure get attribute_fqn = do
  _ ← check {A = Unit {0}} secure Error.configuration tt
  _ ← check {A = Unit {0}} (is_attribute_fqn attribute_fqn) Error.configuration tt
  exists_of (get attribute_fqn)
