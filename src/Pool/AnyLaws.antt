-- ===== src/Pool/AnyLaws.antt =====
-- anyPool of lib/src/concurrency.ts.
use mathlib.Core.List.{Permᴰ}
use mathlib.Core.List.Permᴰ
use web_sdk.Base.{
  ℕ, ◌+◌, ◌≡◌, refl, sym, subst, List, [], ◌∷◌, ◌++◌, Option-cases, Result, ok, err, Error, ◌⊎◌,
  inl, inr, leb, length, map, Bool-cases, append_assoc, append-nil,
}
use web_sdk.Pool.{race, fulfilled, rejections, any_of, any_loop, any_pool}
use web_sdk.Pool.AllLaws.{
  race-none, race-Permᴰ, map-Permᴰ, map-append, partition-Permᴰ, raced-Permᴰ,
}

module _ {ℓ} {A : Type ℓ} where
  partition_swapped :
      (pool : List (Result A)) → Permᴰ pool (map err (rejections pool) ++ map ok (fulfilled pool))
  partition_swapped pool =
      Permᴰ.trans (partition-Permᴰ pool)
        (Permᴰ.append_comm (map ok (fulfilled pool)) (map err (rejections pool)))

  -- What `anyPool` may return for its jobs: the value of one of them, and otherwise the errors of all,
  -- in some order, when every job fails.
  abbrev pub AnySays : List (Result A) → A ⊎ List Error → Type ℓ
  AnySays jobs (inl value) = (others : List (Result A)) × Permᴰ jobs (ok value ∷ others)
  AnySays jobs (inr errors) = Permᴰ jobs (map err errors)

  any_of-says :
      (n : ℕ) (picks : ℕ → ℕ) (jobs : List (Result A)) (pick : ℕ) (rejected : List Error)
      (pool : List (Result A))
      → Permᴰ jobs (map err rejected ++ pool)
      → AnySays jobs (any_of n picks pick rejected pool)
  unfolding any_of
  any_of-says n picks jobs pick rejected pool p = elim (Option-cases (race pick (fulfilled pool))) [
    | inl e ↦
        let none_left : fulfilled pool ≡ [] = race-none pick (fulfilled pool) e in
        let returned : any_of n picks pick rejected pool ≡ inr (rejected ++ rejections pool) =
          rw (e, any_of) refl in
        subst (AnySays jobs) (sym returned) (
          subst (λ r. Permᴰ jobs r) (sym (map-append err rejected (rejections pool)))
            (Permᴰ.trans p (
              Permᴰ.append_left (map err rejected) (
                subst (λ r. Permᴰ pool r) (append-nil (map err (rejections pool)))
                  (subst (λ r. Permᴰ pool (map err (rejections pool) ++ map ok r)) none_left
                    (partition_swapped pool))))))
    | inr ((x, rest), e) ↦
        let returned : any_of n picks pick rejected pool ≡ inl x = rw (e, any_of) refl in
        let front : List (Result A) = map err rejected ++ map err (rejections pool) in
        subst (AnySays jobs) (sym returned) (
          front ++ map ok rest,
          Permᴰ.trans p (
              Permᴰ.trans (Permᴰ.append_left (map err rejected) (partition_swapped pool)) (
                subst (λ r. Permᴰ r (ok x ∷ (front ++ map ok rest)))
                  (append_assoc (map err rejected) (map err (rejections pool))
                    (map ok (fulfilled pool)))
                  (Permᴰ.trans
                    (Permᴰ.append_left front
                      (map-Permᴰ ok (race-Permᴰ pick (fulfilled pool) x rest e)))
                    (Permᴰ.middle (ok x) front (map ok rest))))),
        )
  ]

  module _ (jobs : List (Result A)) (n : ℕ) (picks : ℕ → ℕ) where
    any_loop-says :
        (k : ℕ) (pool : List (Result A)) (rejected : List Error) (later : List (Result A))
        → Permᴰ jobs (map err rejected ++ (pool ++ later))
        → AnySays jobs (any_loop n picks k pool rejected later)
    unfolding any_loop
    any_loop-says k pool rejected [] p =
        any_of-says n picks jobs (picks k) rejected pool
          (subst (λ r. Permᴰ jobs (map err rejected ++ r)) (append-nil pool) p)
    any_loop-says k pool rejected (job ∷ later) p =
        let filled : List (Result A) = pool ++ job ∷ [] in
        let waiting : AnySays jobs (any_loop n picks k filled rejected later) =
          any_loop-says k filled rejected later (
            subst (λ r. Permᴰ jobs (map err rejected ++ r))
              (sym (append_assoc pool (job ∷ []) later)) p) in
        elim (Bool-cases (leb n (length filled))) [
          | inr small ↦
              let same : any_loop n picks k pool rejected (job ∷ later)
                  ≡ any_loop n picks k filled rejected later =
                rw small refl in
              subst (AnySays jobs) (sym same) waiting
          | inl full ↦ elim (Option-cases (race (picks k) filled)) [
            | inl e ↦
                let same : any_loop n picks k pool rejected (job ∷ later)
                    ≡ any_loop n picks k filled rejected later =
                  rw (full, e) refl in
                subst (AnySays jobs) (sym same) waiting
            | inr ((err x, rest), e) ↦
                let same : any_loop n picks k pool rejected (job ∷ later)
                    ≡ any_loop n picks (k + 1) rest (rejected ++ x ∷ []) later =
                  rw (full, e) refl in
                subst (AnySays jobs) (sym same) (
                  any_loop-says (k + 1) rest (rejected ++ x ∷ []) later (
                    reject x rejected (rest ++ later) (
                      Permᴰ.trans p
                        (raced-Permᴰ (map err rejected) pool later rest job (err x) (picks k) e))))
            | inr ((ok v, rest), e) ↦
                let same : any_loop n picks k pool rejected (job ∷ later) ≡ inl v =
                  rw (full, e) refl in
                subst (AnySays jobs) (sym same) (
                  map err rejected ++ (rest ++ later),
                  Permᴰ.trans p
                      (raced-Permᴰ (map err rejected) pool later rest job (ok v) (picks k) e),
                )
          ]
        ]
      where
        reject :
            (x : Error) (rejected : List Error) (others : List (Result A))
            → Permᴰ jobs (err x ∷ (map err rejected ++ others))
            → Permᴰ jobs (map err (rejected ++ x ∷ []) ++ others)
        reject x rejected others q =
            subst (λ r. Permᴰ jobs (r ++ others)) (sym (map-append err rejected (x ∷ [])))
              (subst (λ r. Permᴰ jobs r) (sym (append_assoc (map err rejected) (err x ∷ []) others))
                (Permᴰ.trans q (Permᴰ.symm (Permᴰ.middle (err x) (map err rejected) others))))

    -- However the races go and whatever the size of the pool, `anyPool` returns the value of one of the
    -- jobs, or throws the errors of all of them, in some order: it throws only if all fail.
    pub any_pool-says : AnySays jobs (any_pool n picks jobs)
    unfolding any_pool
    any_pool-says = any_loop-says 0 [] [] jobs (Permᴰ.refl jobs)
