-- ===== src/Discovery/Servers.antt =====
-- The servers that fetchKeyAccessServers of lib/src/access/access-rpc.ts allows.
use web_sdk.Base.{
  ℕ, ◌<◌, ◌≡◌, refl, sym, ap, subst, ◌∙◌, true, false, List, [], ◌∷◌, ◌++◌, Option, some, Result,
  ok, >>=-eq-ok, length, arith, Bool-cases, inl, inr, All, Returns, Returns-bind, append_assoc,
  append-nil,
}
use web_sdk.Granter.Records.{same_units_refl, same_units_eq}
use web_sdk.Kas.{OriginAllowList, origin_allow_list, allows, includes}
use web_sdk.Discovery.{Page, with_base_kas, kas_of, fetch_key_access_servers}
use web_sdk.Discovery.Pages.{page, servers_loop-all}
use web_sdk.Zip.Reader.{same_units, traverse}

-- Membership as the code tests it.
abbrev In : List (List ℕ) → List ℕ → Type 0
In urls url = includes same_units url urls ≡ true

includes-middle : (before after : List (List ℕ)) (url : List ℕ) → In (before ++ url ∷ after) url
unfolding includes
includes-middle [] after url = rw (same_units_refl url) refl
includes-middle (x ∷ before) after url = rw (includes-middle before after url) (ground arith)

All-middle : (before urls after : List (List ℕ)) → All (In (before ++ (urls ++ after))) urls
All-middle before [] after = tt
All-middle before (x ∷ urls) after = (
  includes-middle before (urls ++ after) x,
  subst (λ r. All (In r) urls) (append_assoc before (x ∷ []) (urls ++ after))
      (All-middle (before ++ x ∷ []) urls after),
)

with_base_kas-In :
    (urls : List (List ℕ)) (base : List ℕ) → All (In (with_base_kas urls base)) (base ∷ urls)
unfolding with_base_kas
with_base_kas-In urls base = elim (Bool-cases (includes same_units base urls)) [
  | inl there ↦
      let e : with_base_kas urls base ≡ urls = rw there refl in
      subst (λ r. All (In r) (base ∷ urls)) (sym e)
        (there, subst (λ r. All (In r) urls) (append-nil urls) (All-middle [] urls []))
  | inr missing ↦
      let e : with_base_kas urls base ≡ urls ++ base ∷ [] = rw missing refl in
      subst (λ r. All (In r) (base ∷ urls)) (sym e)
        (includes-middle urls [] base, All-middle [] urls (base ∷ []))
]

module _ (origin : List ℕ → Result (List ℕ)) where
  traverse-In :
      (urls origins : List (List ℕ)) (url : List ℕ)
      → traverse origin urls ≡ ok origins
      → In urls url
      → (o : List ℕ) × (origin url ≡ ok o) × In origins o
  unfolding traverse includes
  traverse-In [] origins url e h = cc
  traverse-In (x ∷ urls) origins url e h =
      let (first, f, g) = >>=-eq-ok (origin x) _ e in
      let (rest, i, j) = >>=-eq-ok (traverse origin urls) _ g in
      let whole : first ∷ rest ≡ origins = cc in
      elim (Bool-cases (same_units url x)) [
        | inl same ↦ (
          first,
          ap origin (same_units_eq url x same) ∙ f,
          subst (λ r. In r first) whole (includes-middle [] rest first),
        )
        | inr other ↦
            let (o, k, l) = traverse-In urls rest url i (rw other at h) in
            (o, k, subst (λ r. In r o) whole (rw l (ground arith)))
      ]

  allows-In :
      (urls origins : List (List ℕ)) (url : List ℕ)
      → traverse origin urls ≡ ok origins
      → In urls url
      → allows origin (record { origins = origins; allow_all = false }) url ≡ ok true
  unfolding allows
  allows-In urls origins url e h =
      let (o, f, g) = traverse-In urls origins url e h in rw (f, g) refl

  allows-All :
      (urls origins those : List (List ℕ))
      → traverse origin urls ≡ ok origins
      → All (In urls) those
      → All
          (λ url. allows origin (record { origins = origins; allow_all = false }) url ≡ ok true)
          those
  allows-All urls origins [] e h = tt
  allows-All urls origins (url ∷ those) e (h, more) =
      (allows-In urls origins url e h, allows-All urls origins those e more)

  -- Over a server that answers with the pages of a listing, each of a positive length, `fetchKeyAccessServers` ends,
  -- and the list that it returns, if every address is one, allows every server of the listing and the
  -- platform's own. As much fuel as there are entries, and one, is enough.
  pub fetch_key_access_servers-allows :
      (urls : List (List ℕ)) (limit fuel : ℕ) (platform_url : List ℕ)
      (list : ℕ → Option (Page (List ℕ)))
      → 0 < limit
      → ((offset : ℕ) → list offset ≡ some (page urls limit offset))
      → length urls < fuel
      → (r : Result OriginAllowList) × (fetch_key_access_servers origin fuel list platform_url
          ≡ some r)
        × Returns (λ l. All (λ url. allows origin l url ≡ ok true) (kas_of platform_url ∷ urls)) r
  unfolding fetch_key_access_servers origin_allow_list
  fetch_key_access_servers-allows urls limit fuel platform_url list positive lists enough =
      let all = with_base_kas urls (kas_of platform_url) in
      (
        origin_allow_list origin all false,
        rw
            (
              servers_loop-all urls limit positive list lists fuel 0 [] refl (omega arith)
                  (omega arith),
              fetch_key_access_servers,
            )
            refl,
        Returns-bind (λ l. All (λ url. allows origin l url ≡ ok true) (kas_of platform_url ∷ urls))
            (traverse origin all) _
            (λ origins e.
              allows-All all origins (kas_of platform_url ∷ urls) e
                (with_base_kas-In urls (kas_of platform_url))),
      )
