-- ===== src/Seekable/Remote.antt =====
-- The attempts of getRemoteChunk of lib/src/seekable.ts.
use web_sdk.Base.{
  ℕ, zero, suc, ◌+◌, ◌*◌, ◌^◌, ◌<◌, ◌≤◌, ◌≡◌, ◌≢◌, refl, sym, ap, subst, ◌∙◌, List, [], ◌∷◌, ◌++◌,
  Error, length, arith, append_assoc, append-nil, ◌⊎◌, inl, inr, ok, err,
}
use web_sdk.Seekable.{
  Fetched, failed, responded, Answer, bytes, thrown, aggregate, Attempt, answers, retries, attempt,
  answer_of, remote_loop, get_remote_chunk,
}

-- What is tried again: a request that fails, and a response of a status that is not a success, 416 or 404.
abbrev pub Fails : Fetched → Type 0
Fails (failed e) = Unit
Fails (responded status body) = ((status < 200) ⊎ (300 ≤ status)) × (status ≢ 416) × (status ≢ 404)

-- The error of what is tried again.
abbrev pub error_of : Fetched → Error
error_of (failed e) = e
error_of (responded status body) = Error.network

-- What is not tried again, and the answer: the body of a success, or what reading it throws, and an invalid file for
-- 416 and 404.
abbrev pub Ends : Fetched → Answer → Type 0
Ends (failed e) answer = ⊥
Ends (responded status (ok body)) answer =
    ((200 ≤ status) × (status < 300) × (answer ≡ bytes body))
    ⊎ (((status ≡ 416) ⊎ (status ≡ 404)) × (answer ≡ thrown Error.invalid_file))
Ends (responded status (err e)) answer =
    ((200 ≤ status) × (status < 300) × (answer ≡ thrown e))
    ⊎ (((status ≡ 416) ⊎ (status ≡ 404)) × (answer ≡ thrown Error.invalid_file))

-- The delays after the attempts from `i` on, which double.
abbrev pub delays : ℕ → ℕ → List ℕ
delays i zero = []
delays i (suc n) = (2 ^ i * 1000) ∷ delays (suc i) n

abbrev Judged : Fetched → Attempt → Type 0
Judged f (answers answer) = Ends f answer
Judged f (retries e) = Fails f × (e ≡ error_of f)

attempt-Judged : (f : Fetched) → Judged f (attempt f)
unfolding attempt answer_of
attempt-Judged (failed e) = (tt, refl)
attempt-Judged (responded status (ok body)) = ground arith
attempt-Judged (responded status (err e)) = ground arith

module _ (fetch : ℕ → Fetched) where
  -- The errors of the attempts from `i` on.
  abbrev pub errors_from : ℕ → ℕ → List Error
  errors_from i zero = []
  errors_from i (suc n) = error_of (fetch i) ∷ errors_from (suc i) n

  -- The number of failures that were slept on, which all attempts before the last word were, the delays, and
  -- the last word: the next attempt's answer, or all the errors that were noted.
  abbrev pub Decided : ℕ → ℕ → List Error → Answer × List ℕ → Type 0
  Decided rounds i errors (answer, slept) =
      ((j : ℕ) → j < length slept → Fails (fetch (i + j)))
      × (slept ≡ delays i (length slept))
      × (((length slept < rounds) × Ends (fetch (i + length slept)) answer)
          ⊎ ((length slept ≡ rounds) × (answer ≡ aggregate (errors ++ errors_from i rounds))))

  earlier :
      (i n : ℕ)
      → Fails (fetch i)
      → ((j : ℕ) → j < n → Fails (fetch (suc i + j)))
      → (j : ℕ) → j < suc n
      → Fails (fetch (i + j))
  earlier i n first later zero h =
      let same : i ≡ i + 0 = omega arith in subst (λ r. Fails (fetch r)) same first
  earlier i n first later (suc j) h =
      let same : suc i + j ≡ i + suc j = omega arith in
      subst (λ r. Fails (fetch r)) same (later j (omega arith))

  by_attempt :
      (rounds i : ℕ) (errors : List Error) (a : Attempt)
      → Judged (fetch i) a
      → ((e : Error)
          → Decided rounds
              (suc i)
              (errors ++ e ∷ [])
              (remote_loop fetch rounds (suc i) (errors ++ e ∷ [])))
      → Decided (suc rounds) i errors (elim a [
        | answers answer ↦ (answer, [])
        | retries e ↦
            let (answer, slept) = remote_loop fetch rounds (suc i) (errors ++ e ∷ []) in
            (answer, (2 ^ i * 1000) ∷ slept)
      ])
  by_attempt rounds i errors (answers answer) ends rest =
      let same : i ≡ i + 0 = omega arith in
      (
        λ j h. absurd (omega arith),
        refl,
        inl (omega arith, subst (λ r. Ends (fetch r) answer) same ends),
      )
  by_attempt rounds i errors (retries e) (fails, note) rest =
      let (answer, slept) = remote_loop fetch rounds (suc i) (errors ++ e ∷ []) in
      let (before, slept_as, last) = rest e in
      (
        earlier i (length slept) fails before,
        ap (λ r. (2 ^ i * 1000) ∷ r) slept_as,
        elim last [
          | inl (short, ends) ↦
              let same : suc i + length slept ≡ i + suc (length slept) = omega arith in
              inl (omega arith, subst (λ r. Ends (fetch r) answer) same ends)
          | inr (all, said) ↦ inr (
            omega arith,
            said
                ∙ ap aggregate (
                    append_assoc errors (e ∷ []) (errors_from (suc i) rounds)
                    ∙ ap (λ r. errors ++ r ∷ errors_from (suc i) rounds) note),
          )
        ],
      )

  remote_loop-Decided :
      (rounds i : ℕ) (errors : List Error)
      → Decided rounds i errors (remote_loop fetch rounds i errors)
  unfolding remote_loop
  remote_loop-Decided zero i errors =
      (λ j h. absurd (omega arith), refl, inr (refl, ap aggregate (sym (append-nil errors))))
  remote_loop-Decided (suc rounds) i errors =
      by_attempt rounds i errors (attempt (fetch i)) (attempt-Judged (fetch i))
        (λ e. remote_loop-Decided rounds (suc i) (errors ++ e ∷ []))

  -- `getRemoteChunk` makes three attempts at most. It sleeps after each that fails, for one second and then twice as
  -- long each time, and its result is what the first attempt that does not fail returns or throws, or an
  -- AggregateError with the errors of all three attempts in order.
  pub get_remote_chunk-Decided : Decided 3 0 [] (get_remote_chunk fetch)
  unfolding get_remote_chunk
  get_remote_chunk-Decided = remote_loop-Decided 3 0 []
