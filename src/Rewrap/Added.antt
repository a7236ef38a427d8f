-- ===== src/Rewrap/Added.antt =====
-- A Set of strings to which steps add names, each once, as getRequiredObligationFQNs of lib/src/utils.ts does.
use mathlib.Core.List.{Memᴰ}
use mathlib.Core.List.Memᴰ
use web_sdk.Base.{
  ℕ, ◌≡◌, ◌↔◌, ◌⊎◌, inl, inr, sym, subst, true, false, List, [], ◌∷◌, ◌++◌, Bool-cases,
}
use web_sdk.Granter.Records.{same_units_refl, same_units_eq}
use web_sdk.Kas.{includes}
use web_sdk.Zip.Reader.{same_units}
use web_sdk.Rewrap.{add}

-- That no member of a list occurs again in it.
abbrev pub Distinct : List (List ℕ) → Type 0
Distinct [] = Unit
Distinct (name ∷ names) = (¬ Memᴰ name names) × Distinct names

Distinct-snoc :
    (names : List (List ℕ)) (name : List ℕ)
    → ¬ Memᴰ name names
    → Distinct names
    → Distinct (names ++ name ∷ [])
Distinct-snoc [] name new d = (λ m. Memᴰ.not-nil m, tt)
Distinct-snoc (x ∷ names) name new (apart, d) = (
  λ m. elim (Memᴰ.append_cases names m) [
    | inl old ↦ apart old
    | inr last ↦ new (Memᴰ.head (sym (Memᴰ.eq_of_singleton last)))
  ],
  Distinct-snoc names name (λ m. new (Memᴰ.tail m)) d,
)

includes-Mem :
    (name : List ℕ) (names : List (List ℕ))
    → includes same_units name names ≡ true
    → Memᴰ name names
unfolding includes
includes-Mem name [] e = cc
includes-Mem name (x ∷ names) e = elim (Bool-cases (same_units name x)) [
  | inl same ↦ Memᴰ.head (same_units_eq name x same)
  | inr differs ↦ Memᴰ.tail (includes-Mem name names (rw differs at e))
]

not-Mem :
    (name : List ℕ) (names : List (List ℕ))
    → includes same_units name names ≡ false
    → ¬ Memᴰ name names
unfolding includes
not-Mem name [] e m = Memᴰ.not-nil m
not-Mem name (x ∷ names) e m = elim (Bool-cases (same_units name x)) [
  | inl same ↦ let bad : true ≡ false = rw same at e in cc
  | inr differs ↦ elim (Memᴰ.cases_cons m) [
    | inl first ↦
        let same : same_units name x ≡ true =
          subst (λ y. same_units name y ≡ true) first (same_units_refl name) in
        cc
    | inr rest ↦ not-Mem name names (rw differs at e) rest
  ]
]

-- A step that adds the names of `New`, each once.
pub record Adds (New : List ℕ → Type 0) (step : List (List ℕ) → List (List ℕ)) : Type 0 where
  pub members :
      (names : List (List ℕ)) (name : List ℕ)
      → Memᴰ name (step names) ↔ (Memᴰ name names ⊎ New name)
  pub keeps : (names : List (List ℕ)) → Distinct names → Distinct (step names)

pub Adds-none : (New : List ℕ → Type 0) → ((name : List ℕ) → ¬ New name) → Adds New (λ names. names)
Adds-none New nothing = record {
  members = λ names name.
      (λ m. inl m, λ m. elim m [ inl old ↦ old | inr new ↦ absurd (nothing name new) ]);
  keeps = λ names d. d;
}

pub Adds-then :
    (First Rest New : List ℕ → Type 0) (first rest : List (List ℕ) → List (List ℕ))
    → Adds First first
    → Adds Rest rest
    → ((name : List ℕ) → New name ↔ (First name ⊎ Rest name))
    → Adds New (λ names. rest (first names))
Adds-then First Rest New first rest a b splits = record {
  members = λ names name. (
    λ m. elim ((b.members (first names) name).0 m) [
      | inl early ↦ elim ((a.members names name).0 early) [
        | inl old ↦ inl old
        | inr new ↦ inr ((splits name).1 (inl new))
      ]
      | inr new ↦ inr ((splits name).1 (inr new))
    ],
    λ m. elim m [
      | inl old ↦ (b.members (first names) name).1 (inl ((a.members names name).1 (inl old)))
      | inr new ↦ elim ((splits name).0 new) [
        | inl early ↦ (b.members (first names) name).1 (inl ((a.members names name).1 (inr early)))
        | inr late ↦ (b.members (first names) name).1 (inr late)
      ]
    ],
  );
  keeps = λ names d. b.keeps (first names) (a.keeps names d);
}

-- Steps that add the same names.
pub same-Adds :
    (Old New : List ℕ → Type 0) (step : List (List ℕ) → List (List ℕ))
    → Adds Old step
    → ((name : List ℕ) → Old name ↔ New name)
    → Adds New step
same-Adds Old New step a same = record {
  members = λ names name. (
    λ m. elim ((a.members names name).0 m) [
      | inl old ↦ inl old
      | inr new ↦ inr ((same name).0 new)
    ],
    λ m. elim m [
      | inl old ↦ (a.members names name).1 (inl old)
      | inr new ↦ (a.members names name).1 (inr ((same name).1 new))
    ],
  );
  keeps = a.keeps;
}

pub add-Adds : (name : List ℕ) → Adds (λ other. other ≡ name) (add name)
unfolding add
add-Adds name = record {
  members = λ names other. elim (Bool-cases (includes same_units name names)) [
    | inl there ↦ rw there (
      λ m. inl m,
      λ m. elim m [ inl old ↦ old | inr same ↦ Memᴰ.cast same (includes-Mem name names there) ],
    )
    | inr missing ↦ rw missing (
      λ m. elim (Memᴰ.append_cases names m) [
        | inl old ↦ inl old
        | inr last ↦ inr (Memᴰ.eq_of_singleton last)
      ],
      λ m. elim m [
        | inl old ↦ Memᴰ.append_left (name ∷ []) old
        | inr same ↦ Memᴰ.append_right names (Memᴰ.head same)
      ],
    )
  ];
  keeps = λ names d. elim (Bool-cases (includes same_units name names)) [
    | inl there ↦ rw there d
    | inr missing ↦ rw missing (Distinct-snoc names name (not-Mem name names missing) d)
  ];
}
