-- ===== src/Kas/Reconstruct.antt =====
-- The key that unwrapKey of lib/tdf3/src/tdf.ts reconstructs.
use mathlib.Core.List.{Permᴰ}
use mathlib.Core.List.Permᴰ
use web_sdk.Base.{
  ℕ, suc, ◌≡◌, sym, ap, ◌∙◌, subst, List, [], ◌∷◌, Result, ok, length, map, inl, inr, ◌⊎◌, Error,
  >>=-eq-ok, All, Returns, Returns-bind,
}
use web_sdk.Kas.{KeyAccess, Table}
use web_sdk.KeySplit.{key_merge}
use web_sdk.KeySplit.Merge.{HaveSize, key_merge-Perm}
use web_sdk.Pool.{all_pool, any_pool, fulfilled}
use web_sdk.Pool.AllLaws.{AllSays, all_pool-says}
use web_sdk.Pool.AnyLaws.{AnySays, any_pool-says}
use web_sdk.Kas.Shares.{values-Permᴰ, All-Permᴰ}
use web_sdk.Kas.Unwrap.{
  RewrapResponseData, Unwrapped, any_outcome, check_potentials, split_outcomes, merge_responses,
  unwrap_potentials,
}

module _ (lower : List ℕ → List ℕ) (try_kas : KeyAccess → Result RewrapResponseData) (n : ℕ)
    (picks : ℕ → ℕ → ℕ) (all_picks : ℕ → ℕ) where
  -- A response for each split, from one of its servers.
  pub data Chosen : Table (Table KeyAccess) → List RewrapResponseData → Type 0 where
    none_left : Chosen [] []
    chosen :
        {sid : List ℕ} {table : Table KeyAccess} {potentials : Table (Table KeyAccess)}
        {response : RewrapResponseData} {responses : List RewrapResponseData}
        → (others : List (Result RewrapResponseData))
        → Permᴰ (map (λ p. try_kas p.1) table) (ok response ∷ others)
        → Chosen potentials responses
        → Chosen ((sid, table) ∷ potentials) (response ∷ responses)

  any_outcome-says :
      (jobs : List (Result RewrapResponseData)) (r : RewrapResponseData ⊎ List Error)
      (response : RewrapResponseData)
      → AnySays jobs r
      → any_outcome r ≡ ok response
      → (others : List (Result RewrapResponseData)) × Permᴰ jobs (ok response ∷ others)
  unfolding any_outcome
  any_outcome-says jobs (inl value) response (others, p) e =
      (others, subst (λ r. Permᴰ jobs (r ∷ others)) e p)
  any_outcome-says jobs (inr errors) response p e = cc

  split_outcomes-Chosen :
      (i : ℕ) (potentials : Table (Table KeyAccess)) (responses : List RewrapResponseData)
      → split_outcomes lower try_kas n picks all_picks i potentials ≡ map ok responses
      → Chosen potentials responses
  unfolding split_outcomes
  split_outcomes-Chosen i [] [] e = none_left
  split_outcomes-Chosen i [] (r ∷ responses) e = cc
  split_outcomes-Chosen i ((sid, table) ∷ potentials) [] e = cc
  split_outcomes-Chosen i ((sid, table) ∷ potentials) (response ∷ responses) e =
      let jobs = map (λ p. try_kas p.1) table in
      let first : any_outcome (any_pool n (picks i) jobs) ≡ ok response = cc in
      let rest : split_outcomes lower try_kas n picks all_picks (suc i) potentials
          ≡ map ok responses =
        cc in
      let (others, p) =
        any_outcome-says jobs (any_pool n (picks i) jobs) response (any_pool-says jobs n (picks i))
          first in
      chosen others p (split_outcomes-Chosen (suc i) potentials responses rest)

  -- The key is merged from one share of each split, which a server of that split returned.
  abbrev pub Reconstructed : Table (Table KeyAccess) → Unwrapped → Type 0
  Reconstructed potentials unwrapped =
      (responses : List RewrapResponseData) × Chosen potentials responses
      × (key_merge (map (λ r. r.key) responses) ≡ ok unwrapped.reconstructed_key)

  check_potentials-eq :
      (potentials checked : Table (Table KeyAccess))
      → check_potentials potentials ≡ ok checked
      → potentials ≡ checked
  unfolding check_potentials
  check_potentials-eq [] checked e = cc
  check_potentials-eq ((sid, []) ∷ potentials) checked e = cc
  check_potentials-eq ((sid, kas ∷ table) ∷ potentials) checked e =
      let (rest, f, g) = >>=-eq-ok (check_potentials potentials) _ e in
      let same = check_potentials-eq potentials rest f in
      let whole : (sid, kas ∷ table) ∷ rest ≡ checked = cc in
      ap (λ r. (sid, kas ∷ table) ∷ r) same ∙ whole

  module _ (m : ℕ) (sized : (kas : KeyAccess) → Returns (λ r. length r.key ≡ m) (try_kas kas)) where
    abbrev Sized : Result RewrapResponseData → Type 0
    Sized r = Returns (λ r. length r.key ≡ m) r

    asked-Sized : (table : Table KeyAccess) → All Sized (map (λ p. try_kas p.1) table)
    asked-Sized [] = tt
    asked-Sized ((url, kas) ∷ table) = (sized kas, asked-Sized table)

    Chosen-HaveSize :
        {potentials : Table (Table KeyAccess)} {responses : List RewrapResponseData}
        → Chosen potentials responses
        → HaveSize m (map (λ r. r.key) responses)
    Chosen-HaveSize none_left = tt
    Chosen-HaveSize (chosen {table = table} others p more) =
        ((All-Permᴰ Sized p (asked-Sized table)).0, Chosen-HaveSize more)

    -- However the races go: the key that `unwrapKey` returns, if it returns one, is what `keyMerge` makes of
    -- one share of each split, in the order of the splits, and each share is one that a server of its split
    -- returned. The shares that servers return have one size.
    pub unwrap_potentials-Reconstructed :
        (split_potentials : Table (Table KeyAccess))
        → Returns
            (Reconstructed split_potentials)
            (unwrap_potentials lower try_kas n picks all_picks split_potentials)
    unfolding unwrap_potentials merge_responses
    unwrap_potentials-Reconstructed split_potentials =
        Returns-bind (Reconstructed split_potentials) (check_potentials split_potentials) _
          (λ potentials e.
            let jobs = split_outcomes lower try_kas n picks all_picks 0 potentials in
            Returns-bind (Reconstructed split_potentials) (all_pool n all_picks jobs) _
              (λ responses f.
                let says = subst (AllSays jobs) f (all_pool-says jobs n all_picks) in
                let (values, order) = values-Permᴰ jobs responses says in
                let picked = split_outcomes-Chosen 0 potentials (fulfilled jobs) values in
                let same_key =
                  key_merge-Perm m (map (λ r. r.key) (fulfilled jobs)) (map (λ r. r.key) responses)
                    ∣ Permᴰ.map (λ r. r.key) order ∣₁ (Chosen-HaveSize picked) in
                Returns-bind (Reconstructed split_potentials)
                  (key_merge (map (λ r. r.key) responses)) _
                  (λ key g. (
                    fulfilled jobs,
                    subst (λ r. Chosen r (fulfilled jobs))
                        (sym (check_potentials-eq split_potentials potentials e)) picked,
                    same_key ∙ g,
                  ))))
