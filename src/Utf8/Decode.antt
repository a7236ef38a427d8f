-- ===== src/Utf8/Decode.antt =====
-- `utf8Slice` decodes what a `TextEncoder` encodes.
use web_sdk.Base.{
  ℕ, zero, suc, ◌+◌, ◌*◌, ◌/◌, ◌%◌, ◌≤◌, ◌<◌, ◌≡◌, ◌⊎◌, inl, inr, refl, ap, ◌∙◌, true, List, [],
  ◌∷◌, ◌++◌, some, leb, ltb, length, take, drop, arith, All, length-append, length-drop,
  take-append-drop, take_all, drop-append_exact, Bool-cases,
}
use web_sdk.Utf8.{
  encode_scalar, encode, units_of_scalar, utf16, bytes_per_sequence, continues, one_byte, two_bytes,
  three_bytes, four_bytes, code_point, emit, decode_round, utf8_loop, max_arguments_length,
  decode_chunks, decode_code_points_array, utf8_slice,
}

-- A scalar value: a code point that is no surrogate.
abbrev pub IsScalar : ℕ → Type 0
IsScalar c = (c < 0x110000) × ((c < 0xd800) ⊎ (0xdfff < c))

two_bytes_lem : (c : ℕ) → 0x80 ≤ c → c < 0x800 → two_bytes (c / 64 + 0xc0) (c % 64 + 0x80) ≡ some c
unfolding two_bytes continues
two_bytes_lem c l h =
    let temp : (c / 64 + 0xc0) % 32 * 64 + (c % 64 + 0x80) % 64 ≡ c = omega arith in
    rw temp (ground arith)

three_bytes_lem :
    (c : ℕ)
    → 0x800 ≤ c
    → c < 0x10000
    → (c < 0xd800) ⊎ (0xdfff < c)
    → three_bytes (c / 4096 + 0xe0) (c / 64 % 64 + 0x80) (c % 64 + 0x80) ≡ some c
unfolding three_bytes continues
three_bytes_lem c l h s =
    let temp : (c / 4096 + 0xe0) % 16 * 4096 + (c / 64 % 64 + 0x80) % 64 * 64 + (c % 64 + 0x80) % 64
        ≡ c =
      omega arith in
    rw temp (ground arith)

four_bytes_lem :
    (c : ℕ)
    → 0x10000 ≤ c
    → c < 0x110000
    → four_bytes (c / 262144 + 0xf0) (c / 4096 % 64 + 0x80) (c / 64 % 64 + 0x80) (c % 64 + 0x80)
      ≡ some c
unfolding four_bytes continues
four_bytes_lem c l h =
    let temp : (c / 262144 + 0xf0) % 16 * 262144
          + (c / 4096 % 64 + 0x80) % 64 * 4096
          + (c / 64 % 64 + 0x80) % 64 * 64
          + (c % 64 + 0x80) % 64
        ≡ c =
      omega arith in
    rw temp (ground arith)

-- The first byte announces the length.
announce_one : (c : ℕ) → c < 0x80 → bytes_per_sequence c ≡ 1
unfolding bytes_per_sequence
announce_one c h = ground arith

one_byte_lem : (c : ℕ) → c < 0x80 → one_byte c ≡ some c
unfolding one_byte
one_byte_lem c h = ground arith

announce_two : (c : ℕ) → c < 0x800 → bytes_per_sequence (c / 64 + 0xc0) ≡ 2
unfolding bytes_per_sequence
announce_two c h = ground arith

announce_three : (c : ℕ) → c < 0x10000 → bytes_per_sequence (c / 4096 + 0xe0) ≡ 3
unfolding bytes_per_sequence
announce_three c h = ground arith

announce_four : (c : ℕ) → bytes_per_sequence (c / 262144 + 0xf0) ≡ 4
unfolding bytes_per_sequence
announce_four c = ground arith

-- The bytes of a scalar value are decoded in one round, whatever follows them.
decode_round-encode :
    (c : ℕ) (buf : List ℕ)
    → IsScalar c
    → decode_round (encode_scalar c ++ buf) ≡ (units_of_scalar c, length (encode_scalar c))
unfolding decode_round encode_scalar code_point emit
decode_round-encode c buf (h, s) = elim (Bool-cases (ltb c 0x80)) [
  | inl one ↦ rw (one, announce_one c (ground arith), room1, one_byte_lem c (ground arith))
  | inr more ↦ elim (Bool-cases (ltb c 0x800)) [
    | inl two ↦
        rw (more, two, announce_two c (ground arith))
          (rw (room2, two_bytes_lem c (ground arith) (ground arith)))
    | inr more' ↦ elim (Bool-cases (ltb c 0x10000)) [
      | inl three ↦
          rw (more, more', three, announce_three c (ground arith))
            (rw (room3, three_bytes_lem c (ground arith) (ground arith) s))
      | inr four ↦
          rw (more, more', four, announce_four c) (rw (room4, four_bytes_lem c (ground arith) h))
    ]
  ]
]
  where
    room1 : leb 1 (suc (length buf)) ≡ true
    room1 = ground arith

    room2 : leb 2 (suc (suc (length buf))) ≡ true
    room2 = ground arith

    room3 : leb 3 (suc (suc (suc (length buf)))) ≡ true
    room3 = ground arith

    room4 : leb 4 (suc (suc (suc (suc (length buf))))) ≡ true
    room4 = ground arith

length-encode_scalar : (c : ℕ) → 1 ≤ length (encode_scalar c)
unfolding encode_scalar
length-encode_scalar c = ground arith

utf8_loop-suc :
    (fuel : ℕ) (buf : List ℕ)
    → 1 ≤ length buf
    → utf8_loop (suc fuel) buf
      ≡ (decode_round buf).0 ++ utf8_loop fuel (drop (decode_round buf).1 buf)
unfolding utf8_loop
utf8_loop-suc fuel [] h = absurd (omega arith)
utf8_loop-suc fuel (b ∷ buf) h = refl

encode-nil : encode [] ≡ []
unfolding encode
encode-nil = refl

encode-cons : (c : ℕ) (text : List ℕ) → encode (c ∷ text) ≡ encode_scalar c ++ encode text
unfolding encode
encode-cons c text = refl

utf8_loop-nil : (fuel : ℕ) → utf8_loop fuel [] ≡ []
unfolding utf8_loop
utf8_loop-nil zero = refl
utf8_loop-nil (suc fuel) = refl

-- The fuel is enough when it is at least the number of bytes.
pub utf8_loop-encode :
    (fuel : ℕ) (text : List ℕ)
    → All IsScalar text
    → length (encode text) ≤ fuel
    → utf8_loop fuel (encode text) ≡ utf16 text
unfolding utf16
utf8_loop-encode fuel [] h f = ap (utf8_loop fuel) encode-nil ∙ utf8_loop-nil fuel
utf8_loop-encode zero (c ∷ text) h f = absurd (
    omega (
      arith,
      ap length (encode-cons c text),
      length-encode_scalar c,
      length-append {0} (encode_scalar c) (encode text),
    ))
utf8_loop-encode (suc fuel) (c ∷ text) (h, hs) f =
    ap (utf8_loop (suc fuel)) (encode-cons c text)
    ∙ utf8_loop-suc fuel bytes some_bytes
    ∙ ap (λ r. r.0 ++ utf8_loop fuel (drop r.1 bytes)) (decode_round-encode c (encode text) h)
    ∙ ap (λ r. units_of_scalar c ++ utf8_loop fuel r)
        (drop-append_exact (length (encode_scalar c)) (encode_scalar c) (encode text) refl)
    ∙ ap (λ r. units_of_scalar c ++ r) (utf8_loop-encode fuel text hs rest_fits)
  where
    bytes : List ℕ
    bytes = encode_scalar c ++ encode text

    count : length bytes ≡ length (encode_scalar c) + length (encode text)
    count = length-append (encode_scalar c) (encode text)

    some_bytes : 1 ≤ length bytes
    some_bytes = omega (arith, count, length-encode_scalar c)

    rest_fits : length (encode text) ≤ fuel
    rest_fits = omega (arith, ap length (encode-cons c text), count, length-encode_scalar c)

decode_chunks-id :
    (fuel : ℕ) (units : List ℕ) → length units ≤ fuel → decode_chunks fuel units ≡ units
unfolding decode_chunks
decode_chunks-id zero [] h = refl
decode_chunks-id (suc fuel) [] h = refl
decode_chunks-id zero (c ∷ units) h = absurd (omega arith)
decode_chunks-id (suc fuel) (c ∷ units) h =
    ap (λ r. take max_arguments_length (c ∷ units) ++ r)
      (decode_chunks-id fuel (drop max_arguments_length (c ∷ units))
        (omega (arith, length-drop {0} max_arguments_length (c ∷ units))))
    ∙ take-append-drop max_arguments_length (c ∷ units)

-- The chunks that keep the argument lists short lose nothing.
pub decode_code_points_array-id : (units : List ℕ) → decode_code_points_array units ≡ units
unfolding decode_code_points_array
decode_code_points_array-id units = elim (Bool-cases (leb (length units) max_arguments_length)) [
  | inl few ↦ rw few
  | inr many ↦ rw many (decode_chunks-id (length units) units (omega arith))
]

-- `utf8Slice`, over all the bytes that a `TextEncoder` makes of a text of scalar values, returns the
-- text's UTF-16 code units.
pub utf8_slice-encode :
    (text : List ℕ)
    → All IsScalar text
    → utf8_slice (encode text) 0 (length (encode text)) ≡ utf16 text
unfolding utf8_slice
utf8_slice-encode text h =
    decode_code_points_array-id _
    ∙ ap (λ r. utf8_loop (length r) r) (take_all _ (encode text) (omega arith))
    ∙ utf8_loop-encode (length (encode text)) text h (omega arith)
