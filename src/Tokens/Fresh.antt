-- ===== src/Tokens/Fresh.antt =====
-- When a token provider of lib/src/auth/token-providers.ts answers from its cache.
use web_sdk.Base.{
  ℕ, ◌+◌, ◌<◌, ◌≡◌, refl, sym, ap, ◌∙◌, true, not, ◌&&◌, List, [], ◌∷◌, Option, none, some, arith,
  if◌then◌else◌, ◌↔◌, lt→leb,
}
use web_sdk.Tokens.{
  TokenResponse, Grant, Provider, State, cached, is_set, is_token_expired, usable, call_with, call,
  resolve_token_expiry,
}
use web_sdk.Tokens.Runs.{Run, Reach, run-Inv, access_of, expiry_of}

call_with-cached :
    (provider : Provider) (found : Option (List ℕ)) (in_flight : Option Grant) (s : State)
    (token : List ℕ)
    → (call_with provider found in_flight s).1 ≡ cached token
    → found ≡ some token
unfolding call_with
call_with-cached provider none none s token e = cc
call_with-cached provider none (some g) s token e = cc
call_with-cached provider (some t) in_flight s token e = cc

-- The cached token may be returned.
abbrev Usable : ℕ → Option (List ℕ) → Option ℕ → List ℕ → Type 0
Usable now cached_token cached_expiry token =
    (expiry : ℕ) × (cached_token ≡ some token)
    × (is_set (some token) ≡ true)
    × (cached_expiry ≡ some expiry)
    × (now + 30 < expiry)

found-Usable :
    (now : ℕ) (cached_token : Option (List ℕ)) (cached_expiry : Option ℕ) (token : List ℕ)
    → (if is_set cached_token && not (is_token_expired now cached_expiry 30)
        then cached_token
        else none)
      ≡ some token
    → Usable now cached_token cached_expiry token
unfolding is_set is_token_expired
found-Usable now none cached_expiry token e = cc
found-Usable now (some []) cached_expiry token e = cc
found-Usable now (some (c ∷ text)) none token e = cc
found-Usable now (some (c ∷ text)) (some expiry) [] e = ground arith
found-Usable now (some (c ∷ text)) (some expiry) (d ∷ token) e =
    (expiry, ground arith, refl, refl, ground arith)

Usable-found :
    (now : ℕ) (cached_token : Option (List ℕ)) (cached_expiry : Option ℕ) (token : List ℕ)
    → Usable now cached_token cached_expiry token
    → (if is_set cached_token && not (is_token_expired now cached_expiry 30)
        then cached_token
        else none)
      ≡ some token
unfolding is_token_expired
Usable-found now cached_token cached_expiry token (expiry, p, q, r, h) =
    rw (p, q, r, lt→leb expiry (now + 30) h) refl

module _ (atob : List ℕ → Option (List ℕ)) (exp_of : List ℕ → Option ℕ) (provider : Provider) where
  -- The last response holds the token, which is not empty, and it expires more than 30 seconds from now.
  abbrev pub LastAndFresh : ℕ → List (ℕ × TokenResponse) → List ℕ → Type 0
  LastAndFresh now received token =
      (time expiry : ℕ) × (r : TokenResponse) × (earlier : List (ℕ × TokenResponse)) × (received
        ≡ (time, r) ∷ earlier)
      × (r.access_token ≡ token)
      × (is_set (some token) ≡ true)
      × (resolve_token_expiry atob exp_of time token r.expires_in ≡ some expiry)
      × (now + 30 < expiry)

  Usable-LastAndFresh :
      (received : List (ℕ × TokenResponse)) (s : State) (now : ℕ) (token : List ℕ)
      → s.cached_token ≡ access_of received
      → s.cached_expiry ≡ expiry_of atob exp_of provider received
      → Usable now s.cached_token s.cached_expiry token
      → LastAndFresh now received token
  Usable-LastAndFresh [] s now token p q (expiry, e, f, g, h) = cc
  Usable-LastAndFresh ((time, r) ∷ earlier) s now token p q (expiry, e, f, g, h) =
      let both : some r.access_token ≡ some token = sym p ∙ e in
      let same : r.access_token ≡ token = cc in
      (
        time,
        expiry,
        r,
        earlier,
        refl,
        same,
        f,
        ap (λ t. resolve_token_expiry atob exp_of time t r.expires_in) (sym same) ∙ sym q ∙ g,
        h,
      )

  LastAndFresh-Usable :
      (received : List (ℕ × TokenResponse)) (s : State) (now : ℕ) (token : List ℕ)
      → s.cached_token ≡ access_of received
      → s.cached_expiry ≡ expiry_of atob exp_of provider received
      → LastAndFresh now received token
      → Usable now s.cached_token s.cached_expiry token
  LastAndFresh-Usable received s now token p q (time, expiry, r, earlier, e, f, g, h, i) = (
    expiry,
    p ∙ ap access_of e ∙ ap some f,
    g,
    q
        ∙ ap (expiry_of atob exp_of provider) e
        ∙ ap (λ t. resolve_token_expiry atob exp_of time t r.expires_in) f
        ∙ h,
    i,
  )

  -- At whatever point of its life, a provider answers a call from its cache with a token exactly when the last
  -- response held that token, which is not empty, with an expiry more than 30 seconds ahead.
  pub call-cached_iff :
      (credential : List ℕ) {w : Run} (now : ℕ) (token : List ℕ)
      → Reach atob exp_of provider credential w
      → ((call provider now w.state).1 ≡ cached token) ↔ LastAndFresh now w.received token
  unfolding call call_with usable
  call-cached_iff credential {w} now token reached =
      let inv = run-Inv atob exp_of provider credential reached in
      let s = w.state in
      (
        λ e. Usable-LastAndFresh w.received s now token inv.holds_token inv.holds_expiry (
            found-Usable now s.cached_token s.cached_expiry token
              (call_with-cached provider _ s.in_flight s token e)),
        λ last.
            rw
              (Usable-found now s.cached_token s.cached_expiry token
                (LastAndFresh-Usable w.received s now token inv.holds_token inv.holds_expiry last))
              refl,
      )
