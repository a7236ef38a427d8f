-- ===== src/Granter/Records.antt =====
-- Reads and writes of a record whose keys are strings (lib/src/policy/granter.ts).
use mathlib.Core.List.{Memᴰ}
use web_sdk.Base.{
  ℕ, ◌≡◌, refl, sym, ap₂, subst, true, false, List, [], ◌∷◌, some, ◌==◌, Bool-cases, inl, inr,
  eq→==, arith, map, All,
}
use web_sdk.Kas.{Table, find_key}
use web_sdk.Zip.Reader.{same_units}
use web_sdk.Granter.Model.{put}

pub same_units_refl : (xs : List ℕ) → same_units xs xs ≡ true
unfolding same_units
same_units_refl [] = refl
same_units_refl (x ∷ xs) = rw (eq→== x x refl) (same_units_refl xs)

pub same_units_eq : (xs ys : List ℕ) → same_units xs ys ≡ true → xs ≡ ys
unfolding same_units
same_units_eq [] [] e = refl
same_units_eq [] (y ∷ ys) e = cc
same_units_eq (x ∷ xs) [] e = cc
same_units_eq (x ∷ xs) (y ∷ ys) e = elim (Bool-cases (x == y)) [
  | inl h ↦
      let k : x ≡ y = ground arith in
      let rest : same_units xs ys ≡ true = rw h at e in
      ap₂ (λ a b. a ∷ b) k (same_units_eq xs ys rest)
  | inr h ↦ let bad : false ≡ true = rw h at e in cc
]

module _ {ℓ} {V : Type ℓ} (k : List ℕ) (v : V) where
  -- A key that is written is found.
  pub find_key-put : (table : Table V) → find_key k (put k v table) ≡ some v
  unfolding find_key put
  find_key-put [] = rw (same_units_refl k) refl
  find_key-put ((key, old) ∷ table) = elim (Bool-cases (same_units key k)) [
    | inl e ↦ rw (e, e) refl
    | inr e ↦ rw (e, e) (find_key-put table)
  ]

  -- A write loses no key.
  pub find_key-put_other :
      (other : List ℕ) (table : Table V) (old : V)
      → find_key other table ≡ some old
      → (new : V) × (find_key other (put k v table) ≡ some new)
  unfolding find_key put
  find_key-put_other other [] old e = cc
  find_key-put_other other ((key, w) ∷ table) old e = elim (Bool-cases (same_units key k)) [
    | inl h ↦ rw h (elim (Bool-cases (same_units key other)) [
      | inl m ↦ rw m (v, refl)
      | inr m ↦ rw m (old, rw m at e)
    ])
    | inr h ↦ rw h (elim (Bool-cases (same_units key other)) [
      | inl m ↦ rw m (w, refl)
      | inr m ↦ rw m (find_key-put_other other table old (rw m at e))
    ])
  ]

module _ {ℓ} {V : Type ℓ} where
  pub find_key-member :
      (k : List ℕ) (table : Table V) (v : V)
      → find_key k table ≡ some v
      → Memᴰ k (map (λ p. p.0) table)
  unfolding find_key
  find_key-member k [] v e = cc
  find_key-member k ((key, w) ∷ table) v e = elim (Bool-cases (same_units key k)) [
    | inl h ↦ Memᴰ.head (sym (same_units_eq key k h))
    | inr h ↦ Memᴰ.tail (find_key-member k table v (rw h at e))
  ]

module _ {ℓ κ} {V : Type ℓ} where
  -- A property of every entry holds of one that is found, and survives a write that has it.
  pub find_key-All :
      (P : List ℕ → V → Type κ) (k : List ℕ) (table : Table V) (v : V)
      → All (λ p. P p.0 p.1) table
      → find_key k table ≡ some v
      → P k v
  unfolding find_key
  find_key-All P k [] v h e = cc
  find_key-All P k ((key, w) ∷ table) v (h, hs) e = elim (Bool-cases (same_units key k)) [
    | inl m ↦
        let same : some w ≡ some v = rw m at e in
        let value : w ≡ v = cc in subst (λ r. P r v) (same_units_eq key k m) (subst (P key) value h)
    | inr m ↦ find_key-All P k table v hs (rw m at e)
  ]

  pub put-All :
      (P : List ℕ → V → Type κ) (k : List ℕ) (v : V) (table : Table V)
      → P k v
      → All (λ p. P p.0 p.1) table
      → All (λ p. P p.0 p.1) (put k v table)
  unfolding put
  put-All P k v [] h hs = (h, tt)
  put-All P k v ((key, w) ∷ table) h (h2, hs) = elim (Bool-cases (same_units key k)) [
    | inl m ↦ rw m (subst (λ r. P r v) (sym (same_units_eq key k m)) h, hs)
    | inr m ↦ rw m (h2, put-All P k v table h hs)
  ]
