-- ===== src/Pool/Tests.antt =====
-- The pools run on a few jobs, and their theorems at them.
use web_sdk.Base.{ℕ, ◌≡◌, refl, List, [], ◌∷◌, Result, ok, err, Error, inl, inr}
use web_sdk.Pool.{all_pool, any_pool}
use web_sdk.Pool.AllLaws.{AllSays, all_pool-says}
use web_sdk.Pool.AnyLaws.{AnySays, any_pool-says}

abbrev good_jobs : List (Result ℕ)
good_jobs = ok 1 ∷ ok 2 ∷ ok 3 ∷ []

abbrev bad_jobs : List (Result ℕ)
bad_jobs = err Error.network ∷ ok 2 ∷ err Error.decrypt ∷ []

-- The second promise wins every race.
abbrev second : ℕ → ℕ
second k = 1

pool_tests :
    (all_pool 2 second good_jobs ≡ ok (2 ∷ 3 ∷ 1 ∷ []))
    × (all_pool 2 second bad_jobs ≡ err Error.decrypt)
    × (any_pool 2 second bad_jobs ≡ inl 2)
    × (any_pool {A = ℕ} 1 second (err Error.network ∷ err Error.decrypt ∷ [])
        ≡ inr (Error.network ∷ Error.decrypt ∷ []))
unfolding all_pool any_pool
pool_tests = (refl, refl, refl, refl)

all_pool-says_example : AllSays bad_jobs (all_pool 2 second bad_jobs)
all_pool-says_example = all_pool-says bad_jobs 2 second

any_pool-says_example : AnySays bad_jobs (any_pool 2 second bad_jobs)
any_pool-says_example = any_pool-says bad_jobs 2 second
