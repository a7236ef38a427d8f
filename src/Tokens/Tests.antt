-- ===== src/Tokens/Tests.antt =====
-- A refreshing token provider that is called, gets a response with a new refresh token and is called again.
use web_sdk.Base.{◌≡◌, refl, ℕ, List, [], ◌∷◌, Option, none, some, ok, err, Error, ◌↔◌}
use web_sdk.Tokens.{
  TokenResponse, refreshes, refreshing, client, cached, awaits, call, make, settle,
}
use web_sdk.Tokens.Runs.{
  Run, Inv, Reach, here, next, calls, ends, start, after_call, after_end, run-Inv,
}
use web_sdk.Tokens.Fresh.{LastAndFresh, call-cached_iff}

abbrev no_text : List ℕ → Option (List ℕ)
no_text text = none

abbrev no_exp : List ℕ → Option ℕ
no_exp text = none

abbrev response : TokenResponse
response = record {
  access_token = b'a' ∷ [];
  refresh_token = some (b'n' ∷ []);
  expires_in = some 300;
}

abbrev waiting : Run
waiting = after_call no_text no_exp refreshing 0 (start no_text no_exp refreshing (b'o' ∷ []))

abbrev served : Run
served = after_end no_text no_exp refreshing 5 (ok response) waiting

served-Reach : Reach no_text no_exp refreshing (b'o' ∷ []) served
unfolding call
served-Reach = next (next here (calls 0)) (ends 5 (ok response) (refreshes (b'o' ∷ [])) refl)

-- The second request shows the new refresh token, and a call asks for it from 30 seconds before the expiry on.
provider_tests :
    (waiting.sent ≡ refreshes (b'o' ∷ []) ∷ [])
    × ((call refreshing 274 served.state).1 ≡ cached (b'a' ∷ []))
    × ((call refreshing 275 served.state).1 ≡ awaits)
    × ((call refreshing 275 served.state).0.in_flight ≡ some (refreshes (b'n' ∷ [])))
    × (make (λ text. text) client (b'c' ∷ []) [] (b'h' ∷ []) [] ≡ err Error.configuration)
unfolding call settle make
provider_tests = (refl, refl, refl, refl, refl)

run-Inv_example : Inv no_text no_exp refreshing (b'o' ∷ []) served
run-Inv_example = run-Inv no_text no_exp refreshing (b'o' ∷ []) served-Reach

call-cached_iff_example :
    ((call refreshing 100 served.state).1 ≡ cached (b'a' ∷ []))
    ↔ LastAndFresh no_text no_exp refreshing 100 served.received (b'a' ∷ [])
call-cached_iff_example =
    call-cached_iff no_text no_exp refreshing (b'o' ∷ []) 100 (b'a' ∷ []) served-Reach
