-- ===== src/Tokens/Runs.antt =====
-- Calls of a token provider and ends of its requests, in any order (lib/src/auth/token-providers.ts).
use web_sdk.Base.{
  ℕ, suc, ◌+◌, ◌≡◌, refl, sym, ap, subst, ◌∙◌, Bool, true, false, List, [], ◌∷◌, Option, none, some,
  Result, ok, err, length, arith, Bool-cases, inl, inr, if◌then◌else◌,
}
use web_sdk.Tokens.{
  TokenResponse, Grant, client_credentials, token_exchange, refreshes, Provider, client, refreshing,
  external, State, Reply, cached, awaits, is_set, grant, usable, call_with, call, keeps_refresh,
  exchanged, settle, fresh, resolve_token_expiry, refresh_of,
}

-- A provider, the callers that await its pending request, the requests that it has sent, those that have
-- ended, and the responses with the times at which they came, the last ones first.
pub record Run : Type 0 where
  pub state : State
  pub waiting : ℕ
  pub sent : List Grant
  pub ended : ℕ
  pub received : List (ℕ × TokenResponse)

-- The refresh token that the provider was given last.
pub latest : Option (List ℕ) → List (ℕ × TokenResponse) → Option (List ℕ)
latest given [] = given
latest given ((now, r) ∷ rs) = if is_set r.refresh_token then r.refresh_token else latest given rs

-- What a request asks for, from what was received before it: a refreshing provider always shows its newest
-- refresh token, and an external one does after its first exchange, if it has one.
abbrev pub expected : Provider → Option (List ℕ) → List (ℕ × TokenResponse) → Grant
expected client given received = client_credentials
expected refreshing given received = elim (latest given received) [
  | none ↦ refreshes []
  | some t ↦ refreshes t
]
expected external given [] = token_exchange
expected external given (r ∷ rs) = elim (latest given (r ∷ rs)) [
  | none ↦ token_exchange
  | some t ↦ if is_set (some t) then refreshes t else token_exchange
]

abbrev pub pending : Option Grant → ℕ
pending none = 0
pending (some g) = 1

-- The request that a call has started.
abbrev started : Option Grant → Option Grant → List Grant → List Grant
started none (some g) sent = g ∷ sent
started none none sent = sent
started (some g) after sent = sent

abbrev waits : Reply → ℕ → ℕ
waits (cached token) n = n
waits awaits n = suc n

abbrev pub access_of : List (ℕ × TokenResponse) → Option (List ℕ)
access_of [] = none
access_of ((now, r) ∷ rs) = some r.access_token

abbrev any : List (ℕ × TokenResponse) → Bool
any [] = false
any (r ∷ rs) = true

grant_of :
    (p : Provider) (received : List (ℕ × TokenResponse)) (s : State) (given : Option (List ℕ))
    → (keeps_refresh p ≡ true → s.current_refresh_token ≡ latest given received)
    → (p ≡ external → s.initial_exchange_done ≡ any received)
    → grant p s ≡ expected p given received
unfolding grant keeps_refresh
grant_of client received s given h k = refl
grant_of refreshing received s given h k = let same = h refl in rw same refl
grant_of external [] s given h k = let first = k refl in rw first refl
grant_of external (r ∷ rs) s given h k =
    let later = k refl in let same = h refl in rw later (rw same refl)

module _ (atob : List ℕ → Option (List ℕ)) (exp_of : List ℕ → Option ℕ) (provider : Provider) where
  abbrev pub after_call : ℕ → Run → Run
  after_call now w =
      let (s, reply) = call provider now w.state in
      record w {
        state = s;
        waiting = waits reply w.waiting;
        sent = started w.state.in_flight s.in_flight w.sent;
      }

  abbrev receive : ℕ → Result TokenResponse → List (ℕ × TokenResponse) → List (ℕ × TokenResponse)
  receive now (ok r) received = (now, r) ∷ received
  receive now (err e) received = received

  -- All that await a request get its outcome.
  abbrev pub after_end : ℕ → Result TokenResponse → Run → Run
  after_end now outcome w = record {
    state = (settle atob exp_of provider now outcome w.state).0;
    waiting = 0;
    sent = w.sent;
    ended = suc w.ended;
    received = receive now outcome w.received;
  }

  pub data Step : Run → Run → Type 0 where
    calls : (now : ℕ) {w : Run} → Step w (after_call now w)
    ends :
        (now : ℕ) (outcome : Result TokenResponse) {w : Run} (g : Grant)
        → w.state.in_flight ≡ some g
        → Step w (after_end now outcome w)

  abbrev pub start : List ℕ → Run
  start credential = record {
    state = fresh (refresh_of provider credential);
    waiting = 0;
    sent = [];
    ended = 0;
    received = [];
  }

  pub data Reach (credential : List ℕ) : Run → Type 0 where
    here : Reach credential (start credential)
    next : {w u : Run} → Reach credential w → Step w u → Reach credential u

  abbrev pub expiry_of : List (ℕ × TokenResponse) → Option ℕ
  expiry_of [] = none
  expiry_of ((now, r) ∷ rs) = resolve_token_expiry atob exp_of now r.access_token r.expires_in

  -- Callers wait only for a pending request, at most one request is pending, and it asks for what the responses so far
  -- call for; the variables hold the last response and the last refresh token.
  pub record Inv (credential : List ℕ) (w : Run) : Type 0 where
    pub awaited : w.state.in_flight ≡ none → w.waiting ≡ 0
    pub one_pending : length w.sent ≡ w.ended + pending w.state.in_flight
    pub asks :
        (g : Grant)
        → w.state.in_flight ≡ some g
        → g ≡ expected provider (refresh_of provider credential) w.received
    pub holds_token : w.state.cached_token ≡ access_of w.received
    pub holds_expiry : w.state.cached_expiry ≡ expiry_of w.received
    pub holds_refresh :
        keeps_refresh provider ≡ true
        → w.state.current_refresh_token ≡ latest (refresh_of provider credential) w.received
    pub holds_done : provider ≡ external → w.state.initial_exchange_done ≡ any w.received

  grant-expected :
      (received : List (ℕ × TokenResponse)) (s : State) (given : Option (List ℕ))
      → (keeps_refresh provider ≡ true → s.current_refresh_token ≡ latest given received)
      → (provider ≡ external → s.initial_exchange_done ≡ any received)
      → grant provider s ≡ expected provider given received
  grant-expected received s given h k = grant_of provider received s given h k

  -- What a call leaves, for the cached token that may be returned and the pending request.
  call_with-Inv :
      (credential : List ℕ) (w : Run) (found : Option (List ℕ)) (in_flight : Option Grant)
      → w.state.in_flight ≡ in_flight
      → Inv credential w
      → let (s, reply) = call_with provider found in_flight w.state in
        Inv credential (record w {
          state = s;
          waiting = waits reply w.waiting;
          sent = started in_flight s.in_flight w.sent;
        })
  unfolding call_with
  call_with-Inv credential w (some token) none e inv =
      subst (λ r. Inv credential (record w { sent = started none r w.sent })) (sym e) inv
  call_with-Inv credential w (some token) (some g) e inv = inv
  call_with-Inv credential w none (some g) e inv = record {
    awaited = λ n. cc;
    one_pending = inv.one_pending;
    asks = inv.asks;
    holds_token = inv.holds_token;
    holds_expiry = inv.holds_expiry;
    holds_refresh = inv.holds_refresh;
    holds_done = inv.holds_done;
  }
  call_with-Inv credential w none none e inv =
      let requested =
        grant-expected w.received w.state (refresh_of provider credential) inv.holds_refresh
          inv.holds_done in
      let before : length w.sent ≡ w.ended + 0 =
        inv.one_pending ∙ ap (λ r. w.ended + pending r) e in
      record {
        awaited = λ n. cc;
        one_pending = omega (arith, before);
        asks = λ g asked. cc;
        holds_token = inv.holds_token;
        holds_expiry = inv.holds_expiry;
        holds_refresh = inv.holds_refresh;
        holds_done = inv.holds_done;
      }

  settle-Inv :
      (credential : List ℕ) (w : Run) (now : ℕ) (outcome : Result TokenResponse) (g : Grant)
      → w.state.in_flight ≡ some g
      → Inv credential w
      → Inv credential (after_end now outcome w)
  unfolding settle latest
  settle-Inv credential w now (err e) g f inv =
      let before : length w.sent ≡ w.ended + 1 =
        inv.one_pending ∙ ap (λ r. w.ended + pending r) f in
      record {
        awaited = λ n. refl;
        one_pending = omega (arith, before);
        asks = λ h asked. cc;
        holds_token = inv.holds_token;
        holds_expiry = inv.holds_expiry;
        holds_refresh = inv.holds_refresh;
        holds_done = inv.holds_done;
      }
  settle-Inv credential w now (ok r) g f inv =
      let before : length w.sent ≡ w.ended + 1 =
        inv.one_pending ∙ ap (λ r. w.ended + pending r) f in
      record {
        awaited = λ n. refl;
        one_pending = omega (arith, before);
        asks = λ h asked. cc;
        holds_token = refl;
        holds_expiry = refl;
        holds_refresh = λ keeps. elim (Bool-cases (is_set r.refresh_token)) [
          | inl given ↦ rw (keeps, given) refl
          | inr missing ↦ rw (keeps, missing) (inv.holds_refresh keeps)
        ];
        holds_done = λ same. ap (λ p. exchanged p w.state.initial_exchange_done) same;
      }

  Step-Inv : (credential : List ℕ) {w u : Run} → Step w u → Inv credential w → Inv credential u
  unfolding call
  Step-Inv credential (calls now {w}) inv =
      call_with-Inv credential w (usable now w.state) w.state.in_flight refl inv
  Step-Inv credential (ends now outcome {w} g f) inv = settle-Inv credential w now outcome g f inv

  -- Whatever calls a provider has had, and however its requests have ended: callers wait only while a request is
  -- pending, and never is more than one pending; it asks for what the responses so far call for, with the
  -- newest refresh token; the cached token is that of the last response, with the expiry that was found for it when
  -- it came.
  pub run-Inv : (credential : List ℕ) {w : Run} → Reach credential w → Inv credential w
  unfolding latest
  run-Inv credential here = record {
    awaited = λ n. refl;
    one_pending = refl;
    asks = λ g asked. cc;
    holds_token = refl;
    holds_expiry = refl;
    holds_refresh = λ keeps. refl;
    holds_done = λ same. refl;
  }
  run-Inv credential (next reached step) = Step-Inv credential step (run-Inv credential reached)
