-- ===== src/Pool.antt =====
-- lib/src/concurrency.ts. A job is the outcome that its promise has; which promise of the pool settles
-- first is not the code's to say, so `picks k` is the position of the winner of race `k`. Jobs are in the
-- order of `Object.entries`, and a pool in that of `Object.values`; labels only name the pool's entries.
pub mod AllLaws
pub mod AnyLaws
mod Tests
use web_sdk.Base.{
  ℕ, zero, suc, ◌+◌, List, [], ◌∷◌, ◌++◌, Option, none, some, Result, ok, err, Error, ◌⊎◌, inl, inr,
  leb, if◌then◌else◌, length,
}

module _ {ℓ} {A : Type ℓ} where
  -- The promise that wins a race, with the others. A position past the end stands for the last.
  unfoldable pub race : ℕ → List A → Option (A × List A)
  race k [] = none
  race k (x ∷ []) = some (x, [])
  race zero (x ∷ y ∷ xs) = some (x, y ∷ xs)
  race (suc k) (x ∷ y ∷ xs) = keep (race k (y ∷ xs))
    where
      keep : Option (A × List A) → Option (A × List A)
      keep none = none
      keep (some (z, rest)) = some (z, x ∷ rest)

module _ {ℓ} {A : Type ℓ} where
  unfoldable pub fulfilled : List (Result A) → List A
  fulfilled [] = []
  fulfilled (ok v ∷ pool) = v ∷ fulfilled pool
  fulfilled (err e ∷ pool) = fulfilled pool

  unfoldable pub rejections : List (Result A) → List Error
  rejections [] = []
  rejections (ok v ∷ pool) = rejections pool
  rejections (err e ∷ pool) = e ∷ rejections pool

  -- `Promise.all` of the pool: the first rejection, or all the values.
  unfoldable pub all_of : ℕ → List A → List (Result A) → Result (List A)
  unfolding race fulfilled rejections
  all_of pick resolved pool = elim (race pick (rejections pool)) [
    | none ↦ ok (resolved ++ fulfilled pool)
    | some (e, rest) ↦ err e
  ]

  module _ (n : ℕ) (picks : ℕ → ℕ) where
    unfoldable pub all_loop : ℕ → List (Result A) → List A → List (Result A) → Result (List A)
    unfolding race all_of
    all_loop k pool resolved [] = all_of (picks k) resolved pool
    all_loop k pool resolved (job ∷ jobs) =
        let filled = pool ++ job ∷ [] in
        let waiting = all_loop k filled resolved jobs in
        let raced = race (picks k) filled in
        if leb n (length filled)
        then elim raced [
          | none ↦ waiting
          | some (ok v, rest) ↦ all_loop (k + 1) rest (resolved ++ v ∷ []) jobs
          | some (err e, rest) ↦ err e
        ]
        else waiting

    unfoldable pub all_pool : List (Result A) → Result (List A)
    unfolding all_loop
    all_pool jobs = all_loop 0 [] [] jobs

    -- `Promise.any` of the pool, or the rejections of an `AggregateError`.
    unfoldable pub any_of : ℕ → List Error → List (Result A) → A ⊎ List Error
    unfolding race fulfilled rejections
    any_of pick rejected pool = elim (race pick (fulfilled pool)) [
      | none ↦ inr (rejected ++ rejections pool)
      | some (v, rest) ↦ inl v
    ]

    unfoldable pub any_loop : ℕ → List (Result A) → List Error → List (Result A) → A ⊎ List Error
    unfolding race any_of
    any_loop k pool rejected [] = any_of (picks k) rejected pool
    any_loop k pool rejected (job ∷ jobs) =
        let filled = pool ++ job ∷ [] in
        let waiting = any_loop k filled rejected jobs in
        let raced = race (picks k) filled in
        if leb n (length filled)
        then elim raced [
          | none ↦ waiting
          | some (ok v, rest) ↦ inl v
          | some (err e, rest) ↦ any_loop (k + 1) rest (rejected ++ e ∷ []) jobs
        ]
        else waiting

    unfoldable pub any_pool : List (Result A) → A ⊎ List Error
    unfolding any_loop
    any_pool jobs = any_loop 0 [] [] jobs
