-- ===== src/Kas/Tests.antt =====
-- The functions on the key servers run on short addresses.
use web_sdk.Base.{◌≡◌, refl, false, [], ◌∷◌, ok, err, Error, some, none}
use web_sdk.Kas.{
  KeyAccess, OriginAllowList, split_lookup_table_factory, get_platform_url_from_kas_endpoint,
  pad_slash_to_url,
}

abbrev own : KeyAccess
own = record { sid = none; url = b'a' ∷ [] }

abbrev own_empty : KeyAccess
own_empty = record { sid = some []; url = b'b' ∷ [] }

abbrev foreign : KeyAccess
foreign = record { sid = some (b's' ∷ []); url = b'x' ∷ [] }

abbrev allow_list : OriginAllowList
allow_list = record { origins = (b'a' ∷ []) ∷ (b'b' ∷ []) ∷ []; allow_all = false }

-- Every URL is its own origin. The split s has no server that is allowed: it is refused beside one
-- other, but not beside two that only a missing and an empty split id tell apart.
split_tests :
    (split_lookup_table_factory (λ url. ok url) allow_list (own ∷ foreign ∷ [])
      ≡ err Error.unsafe_url)
    × (split_lookup_table_factory (λ url. ok url) allow_list (own ∷ own_empty ∷ foreign ∷ [])
        ≡ ok (([], (b'a' ∷ [], own) ∷ (b'b' ∷ [], own_empty) ∷ []) ∷ (b's' ∷ [], []) ∷ []))
    × (split_lookup_table_factory (λ url. ok url) allow_list (own ∷ own ∷ [])
        ≡ err Error.invalid_file)
unfolding split_lookup_table_factory
split_tests = (refl, refl, refl)

address_tests :
    (get_platform_url_from_kas_endpoint (b'h' ∷ b'/' ∷ b'k' ∷ b'a' ∷ b's' ∷ b'/' ∷ b'/' ∷ [])
      ≡ b'h' ∷ [])
    × (pad_slash_to_url (b'h' ∷ []) ≡ b'h' ∷ b'/' ∷ [])
unfolding get_platform_url_from_kas_endpoint pad_slash_to_url
address_tests = (refl, refl)
