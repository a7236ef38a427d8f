-- ===== src/Discovery/Names.antt =====
-- The names that the expressions of lib/src/policy/discovery.ts match.
use web_sdk.Base.{
  ℕ, ◌≡◌, refl, ap, ◌∙◌, true, false, List, [], ◌∷◌, ◌++◌, Option, none, some, ◌==◌, arith,
  Bool-cases, inl, inr, ◌⊎◌, ◌↔◌, All, append-nil, eq→==,
}
use mathlib.Core.List.{map}
use web_sdk.Discovery.{
  is_name_char, lower_char, literal, names, name, then_match, optional_s, at_end, http, slashes,
  slash_attr, slash_value, attribute_part, is_attribute_value_fqn,
}

-- A text of one or more characters of the class.
abbrev pub Name : List ℕ → Type 0
Name [] = ⊥
Name (c ∷ text) = All (λ d. is_name_char d ≡ true) (c ∷ text)

-- A text that is a literal but for the case.
abbrev pub Spells : List ℕ → List ℕ → Type 0
Spells lit text = map lower_char text ≡ lit

some_inj : {a b : List ℕ} → some a ≡ some b → a ≡ b
some_inj e = cc

literal-Spells :
    (lit text : List ℕ) {rest : List ℕ}
    → literal lit text ≡ some rest
    → (head : List ℕ) × Spells lit head × (text ≡ head ++ rest)
unfolding literal
literal-Spells [] text e = ([], refl, cc)
literal-Spells (l ∷ lit) [] e = cc
literal-Spells (l ∷ lit) (c ∷ text) e = elim (Bool-cases (lower_char c == l)) [
  | inr other ↦ let bad = rw other at e in cc
  | inl same ↦
      let (head, spelled, split) = literal-Spells lit text (rw same at e) in
      let first : lower_char c ≡ l = ground arith in (c ∷ head, cc, ap (λ r. c ∷ r) split)
]

names-All :
    (text : List ℕ)
    → (head : List ℕ) × All (λ d. is_name_char d ≡ true) head × (text ≡ head ++ names text)
unfolding names
names-All [] = ([], tt, refl)
names-All (c ∷ text) = elim (Bool-cases (is_name_char c)) [
  | inr other ↦ ([], tt, rw other refl)
  | inl member ↦
      let (head, members, split) = names-All text in
      (c ∷ head, (member, members), rw member (ap (λ r. c ∷ r) split))
]

name-Name :
    (text : List ℕ) {rest : List ℕ}
    → name text ≡ some rest
    → (head : List ℕ) × Name head × (text ≡ head ++ rest)
unfolding name
name-Name [] e = cc
name-Name (c ∷ text) {rest = rest} e = elim (Bool-cases (is_name_char c)) [
  | inr other ↦ let bad = rw other at e in cc
  | inl member ↦
      let (head, members, split) = names-All text in
      let left : names text ≡ rest = some_inj (rw member at e) in
      (c ∷ head, (member, members), ap (λ r. c ∷ r) (split ∙ ap (λ r. head ++ r) left))
]

then_match-some :
    (m : Option (List ℕ)) (next : List ℕ → Option (List ℕ)) {rest : List ℕ}
    → then_match m next ≡ some rest
    → (a : List ℕ) × (m ≡ some a) × (next a ≡ some rest)
then_match-some none next e = cc
then_match-some (some a) next e = (a, refl, e)

at_end-eq : (m : Option (List ℕ)) → at_end m ≡ true → m ≡ some []
unfolding at_end
at_end-eq none e = cc
at_end-eq (some []) e = refl
at_end-eq (some (c ∷ text)) e = cc

-- One letter s, or none.
abbrev pub Letter : List ℕ → Type 0
Letter letter = (letter ≡ []) ⊎ Spells (b's' ∷ []) letter

optional_s-Letter :
    (text : List ℕ) → (letter : List ℕ) × Letter letter × (text ≡ letter ++ optional_s text)
unfolding optional_s
optional_s-Letter [] = ([], inl refl, refl)
optional_s-Letter (c ∷ text) = elim (Bool-cases (lower_char c == b's')) [
  | inr other ↦ ([], inl refl, rw other refl)
  | inl same ↦
      let first : lower_char c ≡ b's' = ground arith in
      (c ∷ [], inr (ap (λ r. r ∷ []) first), rw same refl)
]

-- `https://<namespace>/attr/<name>/value/<value>`, with or without the s, in any case.
pub record IsValueFqn (fqn : List ℕ) : Type 0 where
  pub scheme : List ℕ
  pub letter : List ℕ
  pub colon : List ℕ
  pub namespace : List ℕ
  pub attr : List ℕ
  pub attribute : List ℕ
  pub value_word : List ℕ
  pub value : List ℕ
  pub is_scheme : Spells http scheme
  pub is_letter : Letter letter
  pub is_colon : Spells slashes colon
  pub is_namespace : Name namespace
  pub is_attr : Spells slash_attr attr
  pub is_attribute : Name attribute
  pub is_value_word : Spells slash_value value_word
  pub is_value : Name value
  pub whole :
      fqn
      ≡ scheme
        ++ (letter ++ (colon ++ (namespace ++ (attr ++ (attribute ++ (value_word ++ value))))))

matches-IsValueFqn : (fqn : List ℕ) → is_attribute_value_fqn fqn ≡ true → IsValueFqn fqn
unfolding is_attribute_value_fqn attribute_part
matches-IsValueFqn fqn e =
    let (a7, m6, e7) = then_match-some (attribute_part fqn) _ (at_end-eq _ e) in
    let (a1, e1, n1) = then_match-some (literal http fqn) _ m6 in
    let (a2, e2, n2) = then_match-some (literal slashes (optional_s a1)) _ n1 in
    let (a3, e3, n3) = then_match-some (name a2) _ n2 in
    let (a4, e4, n4) = then_match-some (literal slash_attr a3) _ n3 in
    let (a6, e6, n6) = then_match-some (literal slash_value a7) _ e7 in
    let (scheme, p1, q1) = literal-Spells http fqn e1 in
    let (letter, p2, q2) = optional_s-Letter a1 in
    let (colon, p3, q3) = literal-Spells slashes (optional_s a1) e2 in
    let (namespace, p4, q4) = name-Name a2 e3 in
    let (attr, p5, q5) = literal-Spells slash_attr a3 e4 in
    let (attribute, p6, q6) = name-Name a4 n4 in
    let (value_word, p7, q7) = literal-Spells slash_value a7 e6 in
    let (value, p8, q8) = name-Name a6 n6 in
    record {
      scheme = scheme;
      letter = letter;
      colon = colon;
      namespace = namespace;
      attr = attr;
      attribute = attribute;
      value_word = value_word;
      value = value;
      is_scheme = p1;
      is_letter = p2;
      is_colon = p3;
      is_namespace = p4;
      is_attr = p5;
      is_attribute = p6;
      is_value_word = p7;
      is_value = p8;
      whole =
          q1
          ∙ ap (λ r. scheme ++ r)
              (q2
                ∙ ap (λ r. letter ++ r)
                    (q3
                      ∙ ap (λ r. colon ++ r)
                          (q4
                            ∙ ap (λ r. namespace ++ r)
                                (q5
                                  ∙ ap (λ r. attr ++ r)
                                      (q6
                                        ∙ ap (λ r. attribute ++ r)
                                            (q7
                                              ∙ ap (λ r. value_word ++ r)
                                                  (q8 ∙ append-nil value)))))));
    }

literal-head : (lit head rest : List ℕ) → Spells lit head → literal lit (head ++ rest) ≡ some rest
unfolding literal
literal-head [] [] rest e = refl
literal-head [] (c ∷ head) rest e = cc
literal-head (l ∷ lit) [] rest e = cc
literal-head (l ∷ lit) (c ∷ head) rest e =
    let first : lower_char c ≡ l = cc in
    let more : Spells lit head = cc in
    rw (eq→== (lower_char c) l first) (literal-head lit head rest more)

-- That a text does not go on with a character of the class.
abbrev Stops : List ℕ → Type 0
Stops [] = Unit
Stops (c ∷ text) = is_name_char c ≡ false

names-Stops : (rest : List ℕ) → Stops rest → names rest ≡ rest
unfolding names
names-Stops [] h = refl
names-Stops (c ∷ rest) h = rw h refl

names-head :
    (head rest : List ℕ)
    → All (λ d. is_name_char d ≡ true) head
    → Stops rest
    → names (head ++ rest) ≡ rest
unfolding names
names-head [] rest h stops = names-Stops rest stops
names-head (c ∷ head) rest (h, more) stops = rw h (names-head head rest more stops)

name-head : (head rest : List ℕ) → Name head → Stops rest → name (head ++ rest) ≡ some rest
unfolding name
name-head [] rest h stops = absurd h
name-head (c ∷ head) rest (h, more) stops = rw h (ap some (names-head head rest more stops))

slash-Stops : (lit head rest : List ℕ) → Spells (b'/' ∷ lit) head → Stops (head ++ rest)
unfolding is_name_char lower_char
slash-Stops lit [] rest e = cc
slash-Stops lit (c ∷ head) rest e =
    let first : lower_char c ≡ b'/' = cc in let same : c ≡ b'/' = ground arith in rw same refl

optional_s-head :
    (letter colon rest : List ℕ)
    → Letter letter
    → Spells slashes colon
    → optional_s (letter ++ (colon ++ rest)) ≡ colon ++ rest
unfolding optional_s
optional_s-head [] [] rest h e = cc
optional_s-head [] (c ∷ colon) rest h e = let first : lower_char c ≡ b':' = cc in rw first refl
optional_s-head (c ∷ []) colon rest h e = elim h [
  | inl bad ↦ cc
  | inr spelled ↦ let first : lower_char c ≡ b's' = cc in rw first refl
]
optional_s-head (c ∷ d ∷ letter) colon rest h e = elim h [ inl bad ↦ cc | inr spelled ↦ cc ]

IsValueFqn-matches : (fqn : List ℕ) → IsValueFqn fqn → is_attribute_value_fqn fqn ≡ true
unfolding is_attribute_value_fqn attribute_part
IsValueFqn-matches fqn x = rw x.whole (
    rw (literal-head http x.scheme _ x.is_scheme) (
      rw (optional_s-head x.letter x.colon _ x.is_letter x.is_colon) (
        rw (literal-head slashes x.colon _ x.is_colon) (
          rw (name-head x.namespace _ x.is_namespace (slash-Stops _ x.attr _ x.is_attr)) (
            rw (literal-head slash_attr x.attr _ x.is_attr) (
              rw
                (name-head x.attribute _ x.is_attribute
                  (slash-Stops _ x.value_word _ x.is_value_word))
                (rw (literal-head slash_value x.value_word x.value x.is_value_word)
                  (rw (← append-nil x.value) (rw (name-head x.value [] x.is_value tt) refl)))))))))

-- The expression for attribute values matches exactly the names of the documented form.
pub matches_iff : (fqn : List ℕ) → (is_attribute_value_fqn fqn ≡ true) ↔ IsValueFqn fqn
matches_iff fqn = (matches-IsValueFqn fqn, IsValueFqn-matches fqn)
