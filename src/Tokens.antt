-- ===== src/Tokens.antt =====
-- The token providers of lib/src/auth/token-providers.ts, with lib/src/auth/tokenExpiry.ts. Times are whole seconds
-- and arguments of the calls. The responses to the requests, `atob`, the `exp` of a JSON text and `trim` are
-- parameters. A text that is missing or empty counts as not set.
pub mod Runs
pub mod Fresh
mod Tests
use web_sdk.Base.{
  ℕ, ◌+◌, ◌-◌, ◌%◌, Bool, true, false, not, ◌&&◌, List, [], ◌∷◌, ◌++◌, Option, none, some, Result,
  ok, err, Error, leb, if◌then◌else◌, length, replicate, ◌>>=◌,
}
use web_sdk.Jwt.{replace_all, split}
use web_sdk.Kas.{rstrip}

pub record TokenResponse : Type 0 where
  pub access_token : List ℕ
  pub refresh_token : Option (List ℕ)
  pub expires_in : Option ℕ

-- The body of a request.
pub data Grant : Type 0 where
  client_credentials token_exchange : Grant
  refreshes : List ℕ → Grant

-- The three providers.
pub data Provider : Type 0 where
  client refreshing external : Provider

-- The variables that a provider's function closes over; `in_flight` is what the pending request asks for.
pub record State : Type 0 where
  pub cached_token : Option (List ℕ)
  pub cached_expiry : Option ℕ
  pub current_refresh_token : Option (List ℕ)
  pub initial_exchange_done : Bool
  pub in_flight : Option Grant

pub data Reply : Type 0 where
  cached : List ℕ → Reply
  awaits : Reply

unfoldable pub is_set : Option (List ℕ) → Bool
is_set none = false
is_set (some []) = false
is_set (some (c ∷ text)) = true

module _ (trim : List ℕ → List ℕ) where
  unfoldable pub endpoint_of_origin : List ℕ → Result (List ℕ)
  unfolding rstrip
  endpoint_of_origin [] = err Error.configuration
  endpoint_of_origin (c ∷ base) = ok (
      rstrip (c ∷ base) (b'/' ∷ [])
      ++ b'/' ∷ b'p' ∷ b'r' ∷ b'o' ∷ b't' ∷ b'o' ∷ b'c' ∷ b'o' ∷ b'l' ∷ b'/' ∷ b'o' ∷ b'p' ∷ b'e'
        ∷ b'n' ∷ b'i' ∷ b'd' ∷ b'-' ∷ b'c' ∷ b'o' ∷ b'n' ∷ b'n' ∷ b'e' ∷ b'c' ∷ b't' ∷ b'/' ∷ b't'
        ∷ b'o' ∷ b'k' ∷ b'e' ∷ b'n' ∷ [])

  unfoldable pub resolve_token_endpoint : List ℕ → List ℕ → Result (List ℕ)
  unfolding is_set endpoint_of_origin
  resolve_token_endpoint oidc_origin override =
      if is_set (some (trim override)) then ok override else endpoint_of_origin (trim oidc_origin)

-- `now >= expiry - buffer`, where the difference may be negative.
unfoldable pub is_token_expired : ℕ → Option ℕ → ℕ → Bool
is_token_expired now none buffer_seconds = true
is_token_expired now (some expiry) buffer_seconds = leb expiry (now + buffer_seconds)

-- What a request asks for.
unfoldable pub grant : Provider → State → Grant
unfolding is_set
grant client s = client_credentials
grant refreshing s = elim s.current_refresh_token [ none ↦ refreshes [] | some t ↦ refreshes t ]
grant external s =
    if not s.initial_exchange_done then token_exchange else elim s.current_refresh_token [
      | none ↦ token_exchange
      | some t ↦ if is_set (some t) then refreshes t else token_exchange
    ]

-- The cached token, if it may be returned.
unfoldable pub usable : ℕ → State → Option (List ℕ)
unfolding is_set is_token_expired
usable now s =
    if is_set s.cached_token && not (is_token_expired now s.cached_expiry 30)
    then s.cached_token
    else none

-- A call returns the cached token, or awaits the pending request, which it starts if there is none.
unfoldable pub call_with : Provider → Option (List ℕ) → Option Grant → State → State × Reply
unfolding grant
call_with provider (some token) in_flight s = (s, cached token)
call_with provider none (some g) s = (s, awaits)
call_with provider none none s = (record s { in_flight = some (grant provider s) }, awaits)

unfoldable pub call : Provider → ℕ → State → State × Reply
unfolding usable call_with
call provider now s = call_with provider (usable now s) s.in_flight s

unfoldable pub keeps_refresh : Provider → Bool
keeps_refresh client = false
keeps_refresh refreshing = true
keeps_refresh external = true

unfoldable pub exchanged : Provider → Bool → Bool
exchanged external done = true
exchanged client done = done
exchanged refreshing done = done

module _ (atob : List ℕ → Option (List ℕ)) (exp_of : List ℕ → Option ℕ) where
  unfoldable pub padded_payload : List ℕ → List ℕ
  padded_payload part =
      let payload = replace_all b'_' b'/' (replace_all b'-' b'+' part) in
      payload ++ replicate ((4 - length payload % 4) % 4) b'='

  unfoldable pub expiry_of_text : Option (List ℕ) → Option ℕ
  expiry_of_text none = none
  expiry_of_text (some decoded) = exp_of decoded

  unfoldable pub expiry_of_parts : List (List ℕ) → Option ℕ
  unfolding padded_payload expiry_of_text
  expiry_of_parts (header ∷ payload ∷ signature ∷ []) =
      expiry_of_text (atob (padded_payload payload))
  expiry_of_parts parts = none

  unfoldable pub get_jwt_expiration : List ℕ → Option ℕ
  unfolding expiry_of_parts split
  get_jwt_expiration token = expiry_of_parts (split b'.' token)

  unfoldable pub resolve_token_expiry : ℕ → List ℕ → Option ℕ → Option ℕ
  unfolding get_jwt_expiration
  resolve_token_expiry now access_token (some expires_in) = some (now + expires_in)
  resolve_token_expiry now access_token none = get_jwt_expiration access_token

  -- What the pending request makes of the variables when it ends: `finally` clears it in both cases.
  unfoldable pub settle : Provider → ℕ → Result TokenResponse → State → State × Result (List ℕ)
  unfolding resolve_token_expiry is_set keeps_refresh exchanged
  settle provider now (err e) s = (record s { in_flight = none }, err e)
  settle provider now (ok resp) s = (
    record {
      cached_token = some resp.access_token;
      cached_expiry = resolve_token_expiry now resp.access_token resp.expires_in;
      current_refresh_token =
          if keeps_refresh provider && is_set resp.refresh_token
          then resp.refresh_token
          else s.current_refresh_token;
      initial_exchange_done = exchanged provider s.initial_exchange_done;
      in_flight = none;
    },
    ok resp.access_token,
  )

-- The variables of a provider that is made, with the token that a refreshing one is given.
abbrev pub fresh : Option (List ℕ) → State
fresh refresh_token = record {
  cached_token = none;
  cached_expiry = none;
  current_refresh_token = refresh_token;
  initial_exchange_done = false;
  in_flight = none;
}

abbrev refresh_of : Provider → List ℕ → Option (List ℕ)
refresh_of refreshing credential = some credential
refresh_of client credential = none
refresh_of external credential = none

unfoldable check_set : Bool → Result {0} Unit
check_set true = ok tt
check_set false = err Error.configuration

-- `credential` is the client's secret, its refresh token or the external JWT.
unfoldable pub make :
    (List ℕ → List ℕ) → Provider → List ℕ → List ℕ → List ℕ → List ℕ → Result (List ℕ × State)
unfolding is_set check_set resolve_token_endpoint
make trim provider client_id credential oidc_origin override = do
  _ ← check_set (is_set (some client_id) && is_set (some credential))
  token_endpoint ← resolve_token_endpoint trim oidc_origin override
  ok (token_endpoint, fresh (refresh_of provider credential))
