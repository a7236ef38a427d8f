-- ===== src/Kas.antt =====
-- The servers that hold the shares of a key: OriginAllowList and tryPromisesUntilFirstSuccess of
-- lib/src/access.ts, splitLookupTableFactory of lib/tdf3/src/tdf.ts, and the helpers for their addresses of
-- lib/src/utils.ts. A string is the list of its code units; `origin` is the origin of a URL as the
-- platform's parser has it. The keys of a record are those that the code puts there: no URL is the name
-- of a member of `Object.prototype`.
pub mod Strip
pub mod Unwrap
pub mod Shares
pub mod Reconstruct
mod UnwrapTests
mod Tests
use web_sdk.Base.{
  ℕ, zero, suc, ◌-◌, Bool, true, false, not, ◌||◌, List, [], ◌∷◌, ◌++◌, Option, none, some, Result,
  ok, err, Error, ltb, if◌then◌else◌, length, take, drop, ◌>>=◌,
}
use web_sdk.Zip.Reader.{same_units, traverse}

pub record KeyAccess : Type 0 where
  pub sid : Option (List ℕ)
  pub url : List ℕ

-- `undefined` and each string are members of their own.
unfoldable pub same_sid : Option (List ℕ) → Option (List ℕ) → Bool
unfolding same_units
same_sid none none = true
same_sid none (some t) = false
same_sid (some s) none = false
same_sid (some s) (some t) = same_units s t

unfoldable pub includes {ℓ} : {A : Type ℓ} → (A → A → Bool) → A → List A → Bool
includes same x [] = false
includes same x (y ∷ ys) = same x y || includes same x ys

-- The members of a `Set` in the order of their first occurrences.
unfoldable pub distinct_from {ℓ} : {A : Type ℓ} → (A → A → Bool) → List A → List A → List A
unfolding includes
distinct_from same seen [] = []
distinct_from same seen (x ∷ xs) =
    let new = distinct_from same (x ∷ seen) xs in
    let old = distinct_from same seen xs in if includes same x seen then old else x ∷ new

unfoldable pub sid_or_empty : KeyAccess → List ℕ
sid_or_empty kao = empty kao.sid
  where
    empty : Option (List ℕ) → List ℕ
    empty none = []
    empty (some s) = s

-- The constructor validates the URLs only to warn of them.
pub record OriginAllowList : Type 0 where
  pub origins : List (List ℕ)
  pub allow_all : Bool

-- A record whose keys are strings, in the order of their insertion.
abbrev pub Table {ℓ} : Type ℓ → Type ℓ
Table V = List (List ℕ × V)

unfoldable pub find_key {ℓ} : {V : Type ℓ} → List ℕ → Table V → Option V
unfolding same_units
find_key k [] = none
find_key k ((key, v) ∷ table) =
    let rest = find_key k table in if same_units key k then some v else rest

unfoldable pub add_at :
    List ℕ → List ℕ → KeyAccess → Table (Table KeyAccess) → Table (Table KeyAccess)
unfolding same_units
add_at sid url kao [] = []
add_at sid url kao ((key, disjunction) ∷ table) =
    let rest = add_at sid url kao table in
    if same_units key sid
    then (key, disjunction ++ (url, kao) ∷ []) ∷ table
    else (key, disjunction) ∷ rest

module _ (origin : List ℕ → Result (List ℕ)) where
  unfoldable pub origin_allow_list : List (List ℕ) → Bool → Result OriginAllowList
  unfolding traverse
  origin_allow_list urls allow_all = do
    origins ← traverse origin urls
    ok (record { origins = origins; allow_all = allow_all })

  unfoldable pub allows : OriginAllowList → List ℕ → Result Bool
  unfolding includes same_units
  allows list url =
      if list.allow_all
      then ok true
      else (origin url >>= λ o. ok (includes same_units o list.origins))

  module _ (allowed_kases : OriginAllowList) where
    -- `keyAccess.filter(allowed)`
    unfoldable pub accessible : List KeyAccess → Result (List KeyAccess)
    unfolding allows
    accessible [] = ok []
    accessible (kao ∷ key_access) = do
      allowed ← allows allowed_kases kao.url
      rest ← accessible key_access
      ok (if allowed then kao ∷ rest else rest)

    -- One round of the last loop of `splitLookupTableFactory`. Every split has an entry when it starts.
    unfoldable pub fill_potential :
        Table (Table KeyAccess) → KeyAccess → Result (Table (Table KeyAccess))
    unfolding find_key add_at allows sid_or_empty
    fill_potential potentials kao = added (find_key (sid_or_empty kao) potentials)
      where
        unless_known : Option KeyAccess → Result (Table (Table KeyAccess))
        unless_known (some other) = err Error.invalid_file
        unless_known none = do
          allowed ← allows allowed_kases kao.url
          ok (if allowed then add_at (sid_or_empty kao) kao.url kao potentials else potentials)

        added : Option (Table KeyAccess) → Result (Table (Table KeyAccess))
        added none = err Error.generic
        added (some disjunction) = unless_known (find_key kao.url disjunction)

    unfoldable pub fill_potentials :
        Table (Table KeyAccess) → List KeyAccess → Result (Table (Table KeyAccess))
    unfolding fill_potential
    fill_potentials potentials [] = ok potentials
    fill_potentials potentials (kao ∷ key_access) =
        fill_potential potentials kao >>= λ filled. fill_potentials filled key_access

    unfoldable pub split_lookup_table_factory : List KeyAccess → Result (Table (Table KeyAccess))
    unfolding accessible fill_potentials distinct_from sid_or_empty same_sid
    split_lookup_table_factory key_access = do
      let split_ids = distinct_from same_units [] (sids key_access)
      accessible_access ← accessible key_access
      let accessible_splits = distinct_from same_sid [] (raw_sids accessible_access)
      if ltb (length accessible_splits) (length split_ids)
          then err Error.unsafe_url
          else fill_potentials (empty_tables split_ids) key_access
      where
        sids : List KeyAccess → List (List ℕ)
        sids [] = []
        sids (kao ∷ kaos) = sid_or_empty kao ∷ sids kaos

        raw_sids : List KeyAccess → List (Option (List ℕ))
        raw_sids [] = []
        raw_sids (kao ∷ kaos) = kao.sid ∷ raw_sids kaos

        empty_tables : List (List ℕ) → Table (Table KeyAccess)
        empty_tables [] = []
        empty_tables (s ∷ ids) = (s, []) ∷ empty_tables ids

-- The functions are run in order; each is its outcome.
unfoldable pub try_promises_until_first_success {ℓ} : {A : Type ℓ} → Result A → Result A → Result A
try_promises_until_first_success (ok a) second = ok a
try_promises_until_first_success (err e) second = second

unfoldable pub ends_with : List ℕ → List ℕ → Bool
unfolding same_units
ends_with text suffix = same_units (drop (length text - length suffix) text) suffix

unfoldable pub pad_slash_to_url : List ℕ → List ℕ
unfolding ends_with
pad_slash_to_url u = if ends_with u (b'/' ∷ []) then u else u ++ b'/' ∷ []

-- The loop of `rstrip` on fuel: a round takes one code unit at least.
unfoldable pub rstrip_loop : ℕ → List ℕ → List ℕ → List ℕ
unfolding ends_with
rstrip_loop zero suffix str = str
rstrip_loop (suc fuel) suffix str =
    let rest = rstrip_loop fuel suffix (take (length str - length suffix) str) in
    if ltb 0 (length str)
    then (if ltb 0 (length suffix) then (if ends_with str suffix then rest else str) else str)
    else str

unfoldable pub rstrip : List ℕ → List ℕ → List ℕ
unfolding rstrip_loop
rstrip str suffix = rstrip_loop (length str) suffix str

abbrev pub rewrap_path : List ℕ
rewrap_path = b'/' ∷ b'v' ∷ b'2' ∷ b'/' ∷ b'r' ∷ b'e' ∷ b'w' ∷ b'r' ∷ b'a' ∷ b'p' ∷ []

abbrev pub kas_path : List ℕ
kas_path = b'/' ∷ b'k' ∷ b'a' ∷ b's' ∷ []

unfoldable pub get_platform_url_from_kas_endpoint : List ℕ → List ℕ
unfolding rstrip ends_with
get_platform_url_from_kas_endpoint endpoint =
    let result = if ends_with endpoint (b'/' ∷ []) then rstrip endpoint (b'/' ∷ []) else endpoint in
    let result =
      if ends_with result rewrap_path then take (length result - 10) result else result in
    if ends_with result kas_path then take (length result - 4) result else result

-- The loop of `addNewLines` on fuel: a round takes one code unit at least.
unfoldable pub lines_loop : ℕ → List ℕ → List ℕ
lines_loop zero input = []
lines_loop (suc fuel) [] = []
lines_loop (suc fuel) (c ∷ input) =
    take 64 (c ∷ input) ++ (13 ∷ 10 ∷ lines_loop fuel (drop 64 (c ∷ input)))

unfoldable pub add_new_lines : List ℕ → List ℕ
unfolding lines_loop
add_new_lines str = lines_loop (length str) str
