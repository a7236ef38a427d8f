-- ===== src/Granter/Splits.antt =====
-- The splits and steps that simplify of lib/src/policy/granter.ts makes of the clauses.
use mathlib.Core.List.{flatten, Memᴰ}
use mathlib.Core.List.Memᴰ
use web_sdk.Base.{
  ℕ, zero, suc, ◌<◌, ◌≡◌, refl, sym, ap, ◌∙◌, subst, List, [], ◌∷◌, some, length, map, Option-cases,
  inl, inr,
}
use web_sdk.Kas.{Table, find_key}
use web_sdk.Granter.Model.{KeyHolder, ComplexBooleanClause, KeySplitStep}
use web_sdk.Granter.Plan.{put_clauses, step_for, number_splits, split_steps, splits, simplify}
use web_sdk.Granter.Records.{find_key-member, find_key-All}
use web_sdk.Granter.Last.{IsLast, put_clauses-IsLast}
use web_sdk.Granter.Conjunction.{groups, key, IsGroup, put_clauses-Sound, put_clauses-Complete}

-- The numbers from `i` on, `n` of them.
abbrev pub numbers_from : ℕ → ℕ → List ℕ
numbers_from i zero = []
numbers_from i (suc n) = i ∷ numbers_from (suc i) n

abbrev pub Splits : Type 0
Splits = List (ℕ × List KeyHolder)

module _ (sort_by_locale sort : List (List ℕ) → List (List ℕ)) where
  number_splits-HasKey :
      (i : ℕ) (k : List ℕ) (keys : List (List ℕ)) (v : List KeyHolder)
      (conjunction : Table (List KeyHolder))
      → find_key k conjunction ≡ some v
      → Memᴰ k keys
      → (sid : ℕ) × Memᴰ (sid, v) (number_splits sort_by_locale sort i keys conjunction)
  unfolding number_splits
  number_splits-HasKey i k [] v conjunction e m = absurd (Memᴰ.not-nil m)
  number_splits-HasKey i k (first ∷ keys) v conjunction e m = elim (Memᴰ.cases_cons m) [
    | inl h ↦
        let found : find_key first conjunction ≡ some v =
          subst (λ r. find_key r conjunction ≡ some v) h e in
        rw found (suc i, Memᴰ.head refl)
    | inr rest ↦ elim (Option-cases (find_key first conjunction)) [
      | inl lost ↦ rw lost (number_splits-HasKey i k keys v conjunction e rest)
      | inr (w, found) ↦ rw found (
          let (sid, n) = number_splits-HasKey (suc i) k keys v conjunction e rest in
          (sid, Memᴰ.tail n))
    ]
  ]

  -- What a split is made of.
  number_splits-found :
      (i sid : ℕ) (keys : List (List ℕ)) (v : List KeyHolder) (conjunction : Table (List KeyHolder))
      → Memᴰ (sid, v) (number_splits sort_by_locale sort i keys conjunction)
      → (k : List ℕ) × (find_key k conjunction ≡ some v)
  unfolding number_splits
  number_splits-found i sid [] v conjunction m = absurd (Memᴰ.not-nil m)
  number_splits-found i sid (first ∷ keys) v conjunction m =
      elim (Option-cases (find_key first conjunction)) [
        | inl lost ↦ number_splits-found i sid keys v conjunction (rw lost at m)
        | inr (w, found) ↦ elim (Memᴰ.cases_cons (rw found at m)) [
          | inl e ↦ (first, found ∙ ap (λ r. some (r.1)) (sym e))
          | inr rest ↦ number_splits-found (suc i) sid keys v conjunction rest
        ]
      ]

  number_splits-ids :
      (i : ℕ) (keys : List (List ℕ)) (conjunction : Table (List KeyHolder))
      → map (λ s. s.0) (number_splits sort_by_locale sort i keys conjunction)
        ≡ numbers_from (suc i) (length (number_splits sort_by_locale sort i keys conjunction))
  unfolding number_splits
  number_splits-ids i [] conjunction = refl
  number_splits-ids i (first ∷ keys) conjunction =
      elim (Option-cases (find_key first conjunction)) [
        | inl lost ↦ rw lost (number_splits-ids i keys conjunction)
        | inr (w, found) ↦
            rw found (ap (λ r. suc i ∷ r) (number_splits-ids (suc i) keys conjunction))
      ]

  -- The ids of the splits are the numbers from 1 on, in order: no two splits have one id.
  pub splits-ids :
      (clauses : List ComplexBooleanClause)
      → map (λ s. s.0) (splits sort_by_locale sort clauses)
        ≡ numbers_from 1 (length (splits sort_by_locale sort clauses))
  unfolding splits
  splits-ids clauses =
      number_splits-ids 0 (sort (map (λ p. p.0) (put_clauses sort_by_locale sort clauses [])))
        (put_clauses sort_by_locale sort clauses [])

  -- No split is made of anything but a value of a clause that is not 'anyOf', or of an 'anyOf' clause as a
  -- whole, and none is empty.
  pub splits-groups :
      (clauses : List ComplexBooleanClause) (sid : ℕ) (v : List KeyHolder)
      → Memᴰ (sid, v) (splits sort_by_locale sort clauses)
      → Memᴰ v (groups clauses) × (0 < length v)
  unfolding splits
  splits-groups clauses sid v m =
      let conjunction = put_clauses sort_by_locale sort clauses [] in
      let (k, e) = number_splits-found 0 sid (sort (map (λ p. p.0) conjunction)) v conjunction m in
      let (_, group, filled) =
        find_key-All (IsGroup sort_by_locale sort (groups clauses)) k conjunction v
          (put_clauses-Sound sort_by_locale sort (groups clauses) clauses [] (λ c h. h) tt) e in
      (group, filled)

  step-member :
      (all : Splits) (sid : ℕ) (v : List KeyHolder) (h : KeyHolder) (s : KeySplitStep)
      → Memᴰ (sid, v) all
      → Memᴰ h v
      → Memᴰ s (step_for sort_by_locale sort sid h)
      → Memᴰ s (split_steps sort_by_locale sort all)
  unfolding split_steps flatten
  step-member [] sid v h s m n o = absurd (Memᴰ.not-nil m)
  step-member ((i, w) ∷ rest) sid v h s m n o = elim (Memᴰ.cases_cons m) [
    | inr later ↦
        Memᴰ.append_right (flatten (map (step_for sort_by_locale sort i) w))
          (step-member rest sid v h s later n o)
    | inl e ↦ Memᴰ.append_left (split_steps sort_by_locale sort rest) (
        subst (λ r. Memᴰ s (flatten (map (step_for sort_by_locale sort r.0) r.1))) e
          (holder_steps v n))
  ]
    where
      holder_steps :
          (v : List KeyHolder)
          → Memᴰ h v
          → Memᴰ s (flatten (map (step_for sort_by_locale sort sid) v))
      holder_steps [] m = absurd (Memᴰ.not-nil m)
      holder_steps (x ∷ xs) m = elim (Memᴰ.cases_cons m) [
        | inl e ↦
            Memᴰ.append_left (flatten (map (step_for sort_by_locale sort sid) xs))
              (subst (λ r. Memᴰ s (step_for sort_by_locale sort sid r)) e o)
        | inr later ↦ Memᴰ.append_right (step_for sort_by_locale sort sid x) (holder_steps xs later)
      ]

  abbrev pub made : List ComplexBooleanClause → Splits
  made clauses = splits sort_by_locale sort clauses

  -- What a group of granters has in the plan: a split, of the last group with the same key, and in the steps all
  -- those of its holders with its id.
  abbrev pub HasSplit : List ComplexBooleanClause → List KeyHolder → Type 0
  HasSplit clauses granters =
      (sid : ℕ) × (v : List KeyHolder) × Memᴰ (sid, v) (made clauses)
      × Memᴰ v (groups clauses)
      × IsLast sort_by_locale sort (key sort_by_locale sort granters) v (groups clauses)
      × ((h : KeyHolder) (s : KeySplitStep)
          → Memᴰ h v
          → Memᴰ s (step_for sort_by_locale sort sid h)
          → Memᴰ s (simplify sort_by_locale sort clauses))

  module _ (sorts : (k : List ℕ) (keys : List (List ℕ)) → Memᴰ k keys → Memᴰ k (sort keys)) where
    -- Every value of a clause that is not 'anyOf', and every 'anyOf' clause as a whole, that has a granter has
    -- a split under its key, which is the text of its servers and key ids, sorted and joined: a split that is made
    -- of the last such group with the same text, though it may have other servers, and the steps of each granter
    -- of that group are in the plan under the split's id. Sorting the keys keeps them all.
    pub simplify-HasSplit :
        (clauses : List ComplexBooleanClause) (g : KeyHolder) (gs : List KeyHolder)
        → Memᴰ (g ∷ gs) (groups clauses)
        → HasSplit clauses (g ∷ gs)
    unfolding simplify splits
    simplify-HasSplit clauses g gs m =
        let conjunction = put_clauses sort_by_locale sort clauses [] in
        let (v, e) = put_clauses-Complete sort_by_locale sort clauses [] g gs m in
        let (same, group, _) =
          find_key-All (IsGroup sort_by_locale sort (groups clauses))
            (key sort_by_locale sort (g ∷ gs)) conjunction v
            (put_clauses-Sound sort_by_locale sort (groups clauses) clauses [] (λ c h. h) tt) e in
        let (sid, n) =
          number_splits-HasKey 0 (key sort_by_locale sort (g ∷ gs)) _ v conjunction e
            (sorts _ _ (find_key-member (key sort_by_locale sort (g ∷ gs)) conjunction v e)) in
        (
          sid,
          v,
          n,
          group,
          put_clauses-IsLast sort_by_locale sort (key sort_by_locale sort (g ∷ gs)) v clauses e,
          λ h s o p. step-member (splits sort_by_locale sort clauses) sid v h s n o p,
        )
