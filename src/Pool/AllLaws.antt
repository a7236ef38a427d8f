-- ===== src/Pool/AllLaws.antt =====
-- allPool of lib/src/concurrency.ts, with what it shares with anyPool.
use mathlib.Core.List.{Permᴰ}
use mathlib.Core.List.Permᴰ
use web_sdk.Base.{
  ℕ, zero, suc, ◌+◌, ◌≡◌, refl, sym, ap, subst, List, [], ◌∷◌, ◌++◌, none, some, Option-cases,
  Result, ok, err, inl, inr, leb, length, map, Bool-cases, append_assoc, append-nil,
}
use web_sdk.Pool.{race, fulfilled, rejections, all_of, all_loop, all_pool}

abbrev pub race_step {ℓ} : {A : Type ℓ} → A → A × List A → A × List A
race_step y (w, others) = (w, y ∷ others)

module _ {ℓ} {A : Type ℓ} where
  -- A race takes one promise from the pool.
  pub race-Permᴰ :
      (k : ℕ) (xs : List A) (x : A) (rest : List A)
      → race k xs ≡ some (x, rest)
      → Permᴰ xs (x ∷ rest)
  unfolding race
  race-Permᴰ k [] x rest h = cc
  race-Permᴰ k (y ∷ []) x rest h =
      let p : y ≡ x = cc in
      let q : [] ≡ rest = cc in subst (λ r. Permᴰ (y ∷ []) (x ∷ r)) q (Permᴰ.cons p Permᴰ.nil)
  race-Permᴰ zero (y ∷ z ∷ xs) x rest h =
      let p : y ≡ x = cc in
      let q : z ∷ xs ≡ rest = cc in
      subst (λ r. Permᴰ (y ∷ z ∷ xs) (x ∷ r)) q (Permᴰ.cons p (Permᴰ.refl (z ∷ xs)))
  race-Permᴰ (suc k) (y ∷ z ∷ xs) x rest h = elim (Option-cases (race k (z ∷ xs))) [
    | inl e ↦ let bad : none ≡ some (x, rest) = rw e at h in cc
    | inr ((w, others), e) ↦
        let found : some (w, y ∷ others) ≡ some (x, rest) = rw e at h in
        let p : w ≡ x = cc in
        let q : y ∷ others ≡ rest = cc in
        subst (λ r. Permᴰ (y ∷ z ∷ xs) (x ∷ r)) q
          (Permᴰ.trans (Permᴰ.cons refl (race-Permᴰ k (z ∷ xs) w others e))
            (Permᴰ.trans (Permᴰ.swap refl refl) (Permᴰ.cons p (Permᴰ.refl (y ∷ others)))))
  ]

  pub race-none : (k : ℕ) (xs : List A) → race k xs ≡ none → xs ≡ []
  unfolding race
  race-none k [] h = refl
  race-none k (y ∷ []) h = cc
  race-none zero (y ∷ z ∷ xs) h = cc
  race-none (suc k) (y ∷ z ∷ xs) h = elim (Option-cases (race k (z ∷ xs))) [
    | inl e ↦ let bad : z ∷ xs ≡ [] = race-none k (z ∷ xs) e in cc
    | inr ((w, others), e) ↦ let bad : some (w, y ∷ others) ≡ none = rw e at h in cc
  ]

module _ {ℓ κ} {A : Type ℓ} {B : Type κ} (f : A → B) where
  pub map-Permᴰ : {xs ys : List A} → Permᴰ xs ys → Permᴰ (map f xs) (map f ys)
  map-Permᴰ Permᴰ.nil = Permᴰ.nil
  map-Permᴰ (Permᴰ.cons e p) = Permᴰ.cons (ap f e) (map-Permᴰ p)
  map-Permᴰ (Permᴰ.swap e d) = Permᴰ.swap (ap f e) (ap f d)
  map-Permᴰ (Permᴰ.trans p q) = Permᴰ.trans (map-Permᴰ p) (map-Permᴰ q)

  pub map-append : (xs ys : List A) → map f (xs ++ ys) ≡ map f xs ++ map f ys
  map-append [] ys = refl
  map-append (x ∷ xs) ys = ap (λ r. f x ∷ r) (map-append xs ys)

module _ {ℓ} {A : Type ℓ} where
  -- A pool is its values and its rejections.
  pub partition-Permᴰ :
      (pool : List (Result A)) → Permᴰ pool (map ok (fulfilled pool) ++ map err (rejections pool))
  unfolding fulfilled rejections
  partition-Permᴰ [] = Permᴰ.nil
  partition-Permᴰ (ok v ∷ pool) = Permᴰ.cons refl (partition-Permᴰ pool)
  partition-Permᴰ (err e ∷ pool) =
      Permᴰ.trans (Permᴰ.cons refl (partition-Permᴰ pool))
        (Permᴰ.symm (Permᴰ.middle (err e) (map ok (fulfilled pool)) (map err (rejections pool))))

  -- What `allPool` may return for its jobs: all their values, in some order, when every job succeeds,
  -- and otherwise the error of one of them.
  abbrev pub AllSays : List (Result A) → Result (List A) → Type ℓ
  AllSays jobs (ok values) = Permᴰ jobs (map ok values)
  AllSays jobs (err e) = (others : List (Result A)) × Permᴰ jobs (err e ∷ others)

  all_of-says :
      (jobs : List (Result A)) (pick : ℕ) (resolved : List A) (pool : List (Result A))
      → Permᴰ jobs (map ok resolved ++ pool)
      → AllSays jobs (all_of pick resolved pool)
  unfolding all_of
  all_of-says jobs pick resolved pool p = elim (Option-cases (race pick (rejections pool))) [
    | inl e ↦
        let none_left : rejections pool ≡ [] = race-none pick (rejections pool) e in
        let returned : all_of pick resolved pool ≡ ok (resolved ++ fulfilled pool) =
          rw (e, all_of) refl in
        subst (AllSays jobs) (sym returned) (
          subst (λ r. Permᴰ jobs r) (sym (map-append ok resolved (fulfilled pool)))
            (Permᴰ.trans p (
              Permᴰ.append_left (map ok resolved) (
                subst (λ r. Permᴰ pool r) (append-nil (map ok (fulfilled pool)))
                  (subst (λ r. Permᴰ pool (map ok (fulfilled pool) ++ map err r)) none_left
                    (partition-Permᴰ pool))))))
    | inr ((x, rest), e) ↦
        let returned : all_of pick resolved pool ≡ err x = rw (e, all_of) refl in
        let front : List (Result A) = map ok resolved ++ map ok (fulfilled pool) in
        subst (AllSays jobs) (sym returned) (
          front ++ map err rest,
          Permᴰ.trans p (
              Permᴰ.trans (Permᴰ.append_left (map ok resolved) (partition-Permᴰ pool)) (
                subst (λ r. Permᴰ r (err x ∷ (front ++ map err rest)))
                  (append_assoc (map ok resolved) (map ok (fulfilled pool))
                    (map err (rejections pool)))
                  (Permᴰ.trans
                    (Permᴰ.append_left front
                      (map-Permᴰ err (race-Permᴰ pick (rejections pool) x rest e)))
                    (Permᴰ.middle (err x) front (map err rest))))),
        )
  ]

  -- A full pool loses the winner of its race.
  pub raced-Permᴰ :
      (front pool later rest : List (Result A)) (job x : Result A) (k : ℕ)
      → race k (pool ++ job ∷ []) ≡ some (x, rest)
      → Permᴰ (front ++ (pool ++ job ∷ later)) (x ∷ (front ++ (rest ++ later)))
  raced-Permᴰ front pool later rest job x k h =
      subst (λ r. Permᴰ (front ++ r) (x ∷ (front ++ (rest ++ later))))
        (append_assoc pool (job ∷ []) later)
        (Permᴰ.trans
          (Permᴰ.append_left front
            (Permᴰ.append_right later (race-Permᴰ k (pool ++ job ∷ []) x rest h)))
          (Permᴰ.middle x front (rest ++ later)))

  module _ (jobs : List (Result A)) (n : ℕ) (picks : ℕ → ℕ) where
    all_loop-says :
        (k : ℕ) (pool : List (Result A)) (resolved : List A) (later : List (Result A))
        → Permᴰ jobs (map ok resolved ++ (pool ++ later))
        → AllSays jobs (all_loop n picks k pool resolved later)
    unfolding all_loop
    all_loop-says k pool resolved [] p =
        all_of-says jobs (picks k) resolved pool
          (subst (λ r. Permᴰ jobs (map ok resolved ++ r)) (append-nil pool) p)
    all_loop-says k pool resolved (job ∷ later) p =
        let filled : List (Result A) = pool ++ job ∷ [] in
        let waiting : AllSays jobs (all_loop n picks k filled resolved later) =
          all_loop-says k filled resolved later (
            subst (λ r. Permᴰ jobs (map ok resolved ++ r))
              (sym (append_assoc pool (job ∷ []) later)) p) in
        elim (Bool-cases (leb n (length filled))) [
          | inr small ↦
              let same : all_loop n picks k pool resolved (job ∷ later)
                  ≡ all_loop n picks k filled resolved later =
                rw small refl in
              subst (AllSays jobs) (sym same) waiting
          | inl full ↦ elim (Option-cases (race (picks k) filled)) [
            | inl e ↦
                let same : all_loop n picks k pool resolved (job ∷ later)
                    ≡ all_loop n picks k filled resolved later =
                  rw (full, e) refl in
                subst (AllSays jobs) (sym same) waiting
            | inr ((ok v, rest), e) ↦
                let same : all_loop n picks k pool resolved (job ∷ later)
                    ≡ all_loop n picks (k + 1) rest (resolved ++ v ∷ []) later =
                  rw (full, e) refl in
                subst (AllSays jobs) (sym same) (
                  all_loop-says (k + 1) rest (resolved ++ v ∷ []) later (
                    resolve v resolved (rest ++ later) (
                      Permᴰ.trans p
                        (raced-Permᴰ (map ok resolved) pool later rest job (ok v) (picks k) e))))
            | inr ((err x, rest), e) ↦
                let same : all_loop n picks k pool resolved (job ∷ later) ≡ err x =
                  rw (full, e) refl in
                subst (AllSays jobs) (sym same) (
                  map ok resolved ++ (rest ++ later),
                  Permᴰ.trans p
                      (raced-Permᴰ (map ok resolved) pool later rest job (err x) (picks k) e),
                )
          ]
        ]
      where
        resolve :
            (v : A) (resolved : List A) (others : List (Result A))
            → Permᴰ jobs (ok v ∷ (map ok resolved ++ others))
            → Permᴰ jobs (map ok (resolved ++ v ∷ []) ++ others)
        resolve v resolved others q =
            subst (λ r. Permᴰ jobs (r ++ others)) (sym (map-append ok resolved (v ∷ [])))
              (subst (λ r. Permᴰ jobs r) (sym (append_assoc (map ok resolved) (ok v ∷ []) others))
                (Permᴰ.trans q (Permᴰ.symm (Permᴰ.middle (ok v) (map ok resolved) others))))

    -- However the races go and whatever the size of the pool, `allPool` returns the values of all the
    -- jobs, in some order, or throws the error of one of them: it returns only if all succeed.
    pub all_pool-says : AllSays jobs (all_pool n picks jobs)
    unfolding all_pool
    all_pool-says = all_loop-says 0 [] [] jobs (Permᴰ.refl jobs)
