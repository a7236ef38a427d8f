-- ===== src/Encodings/Base64/Padded.antt =====
-- encodeArrayBuffer of lib/src/encodings/base64.ts, its padding written where it stands.
use web_sdk.Base.{
  ℕ, zero, suc, ◌+◌, ◌-◌, ◌*◌, ◌/◌, ◌%◌, ◌<◌, ◌≤◌, ◌≡◌, refl, ap, ◌∙◌, Bool, List, [], ◌∷◌, ◌++◌,
  if◌then◌else◌, length, take, arith, ◌==◌, Bool-cases, inl, inr,
}
use web_sdk.Encodings.Base64.{char_at, padding, encode_loop, encode_array_buffer}

-- The characters of three bytes, before the rest.
abbrev pub four : Bool → ℕ → ℕ → ℕ → List ℕ → List ℕ
four u b0 b1 b2 rest =
    char_at u (b0 / 4)
    ∷ char_at u (b0 % 4 * 16 + b1 / 16)
    ∷ char_at u (b1 % 16 * 4 + b2 / 64)
    ∷ char_at u (b2 % 64)
    ∷ rest

-- The characters of each three bytes, and those of the one or two that are left.
unfoldable pub padded : Bool → List ℕ → List ℕ
padded u [] = []
padded u (b0 ∷ []) =
    char_at u (b0 / 4) ∷ char_at u (b0 % 4 * 16) ∷ (if u then [] else padding ∷ padding ∷ [])
padded u (b0 ∷ b1 ∷ []) =
    char_at u (b0 / 4)
    ∷ char_at u (b0 % 4 * 16 + b1 / 16)
    ∷ char_at u (b1 % 16 * 4)
    ∷ (if u then [] else padding ∷ [])
padded u (b0 ∷ b1 ∷ b2 ∷ bytes) = four u b0 b1 b2 (padded u bytes)

-- What is left of the loop's characters.
abbrev trimmed : ℕ → List ℕ → List ℕ
trimmed n xs = take (length xs - n) xs

length-encode_loop :
    (u : Bool) (bytes : List ℕ) → 0 < length bytes → 4 ≤ length (encode_loop u bytes)
unfolding encode_loop
length-encode_loop u [] h = absurd (omega arith)
length-encode_loop u (b0 ∷ []) h = omega arith
length-encode_loop u (b0 ∷ b1 ∷ []) h = omega arith
length-encode_loop u (b0 ∷ b1 ∷ b2 ∷ bytes) h = omega arith

encode_loop-padded_0 :
    (u : Bool) (bytes : List ℕ) → length bytes % 3 ≡ 0 → encode_loop u bytes ≡ padded u bytes
unfolding encode_loop padded
encode_loop-padded_0 u [] h = refl
encode_loop-padded_0 u (b0 ∷ []) h = absurd (omega arith)
encode_loop-padded_0 u (b0 ∷ b1 ∷ []) h = absurd (omega arith)
encode_loop-padded_0 u (b0 ∷ b1 ∷ b2 ∷ bytes) h =
    ap (four u b0 b1 b2) (encode_loop-padded_0 u bytes (omega arith))

trimmed-four :
    (n a b c d : ℕ) (xs : List ℕ)
    → n ≤ length xs
    → trimmed n (a ∷ b ∷ c ∷ d ∷ xs) ≡ a ∷ b ∷ c ∷ d ∷ trimmed n xs
trimmed-four n a b c d xs h =
    let e : suc (suc (suc (suc (length xs)))) - n ≡ suc (suc (suc (suc (length xs - n)))) =
      omega arith in
    ap (λ r. take r (a ∷ b ∷ c ∷ d ∷ xs)) e

module _ (u : Bool) where
  abbrev pads : ℕ → List ℕ
  pads zero = []
  pads (suc n) = padding ∷ pads n

  abbrev tail : ℕ → List ℕ
  tail n = if u then [] else pads n

  encode_loop-padded :
      (n : ℕ) (bytes : List ℕ)
      → 0 < n
      → n < 3
      → (length bytes + n) % 3 ≡ 0
      → trimmed n (encode_loop u bytes) ++ tail n ≡ padded u bytes
  unfolding encode_loop padded
  encode_loop-padded n [] p h e = absurd (omega arith)
  encode_loop-padded zero (b0 ∷ bytes) p h e = absurd (omega arith)
  encode_loop-padded (suc zero) (b0 ∷ []) p h e = absurd (omega arith)
  encode_loop-padded (suc (suc zero)) (b0 ∷ []) p h e = refl
  encode_loop-padded (suc (suc (suc n))) (b0 ∷ bytes) p h e = absurd (omega arith)
  encode_loop-padded (suc zero) (b0 ∷ b1 ∷ []) p h e = refl
  encode_loop-padded (suc (suc zero)) (b0 ∷ b1 ∷ []) p h e = absurd (omega arith)
  encode_loop-padded (suc zero) (b0 ∷ b1 ∷ b2 ∷ bytes) p h e =
      ap (λ r. r ++ tail 1)
        (trimmed-four 1 _ _ _ _ (encode_loop u bytes)
          (omega (arith, length-encode_loop u bytes (omega arith))))
      ∙ ap (four u b0 b1 b2) (encode_loop-padded 1 bytes p h (omega arith))
  encode_loop-padded (suc (suc zero)) (b0 ∷ b1 ∷ b2 ∷ bytes) p h e =
      ap (λ r. r ++ tail 2)
        (trimmed-four 2 _ _ _ _ (encode_loop u bytes)
          (omega (arith, length-encode_loop u bytes (omega arith))))
      ∙ ap (four u b0 b1 b2) (encode_loop-padded 2 bytes p h (omega arith))

  -- What `encodeArrayBuffer` makes.
  pub encode_array_buffer-padded : (bytes : List ℕ) → encode_array_buffer u bytes ≡ padded u bytes
  unfolding encode_array_buffer
  encode_array_buffer-padded bytes = elim (Bool-cases (length bytes % 3 == 2)) [
    | inl two ↦ rw two (encode_loop-padded 1 bytes (omega arith) (omega arith) (ground arith))
    | inr e ↦ rw e (elim (Bool-cases (length bytes % 3 == 1)) [
      | inl one ↦ rw one (encode_loop-padded 2 bytes (omega arith) (omega arith) (ground arith))
      | inr f ↦ rw f (encode_loop-padded_0 u bytes (ground arith))
    ])
  ]
