-- ===== src/Encodings/Hex/Digits.antt =====
-- Hexadecimal text decodes to what was encoded.
use web_sdk.Base.{
  ◌⊎◌, lt→ltb, sym, ne→==, ℕ, ◌*◌, ◌/◌, ◌%◌, ◌≤◌, ◌<◌, ◌≡◌, refl, ap, ◌∙◌, Bool, true, false, ◌&&◌,
  List, [], ◌∷◌, ◌++◌, Option, none, some, ok, err, Error, ltb, ◌==◌, if◌then◌else◌, length, ◌>>=◌,
  arith, All, Bool-cases, inl, inr, >>=-eq-ok, Returns-eq_ok,
}
use web_sdk.Base.Table.{all_below, all_below_sound}
use web_sdk.Encodings.Hex.{
  hex_digit, to_hex_string, encode_array_buffer, encode_char, encode, parse_int16, decode_pairs,
  decode, decode_array_buffer, to_bytes,
}

-- The two digits of a byte.
abbrev pub two_digits : ℕ → List ℕ
two_digits n = hex_digit (n / 16) ∷ hex_digit (n % 16) ∷ []

abbrev is_some_of : ℕ → Option ℕ → Bool
is_some_of n none = false
is_some_of n (some m) = m == n

abbrev parses_back : ℕ → Bool
parses_back n = is_some_of n (parse_int16 (hex_digit (n / 16)) (hex_digit (n % 16)))

parse_table : all_below 256 parses_back ≡ true
unfolding all_below parse_int16 hex_digit
parse_table = refl

parse_digits : (n : ℕ) → n < 256 → parse_int16 (hex_digit (n / 16)) (hex_digit (n % 16)) ≡ some n
parse_digits n h = from_test (parse_int16 _ _) (all_below_sound 256 parses_back n parse_table h)
  where
    from_test : (o : Option ℕ) → is_some_of n o ≡ true → o ≡ some n
    from_test none k = cc
    from_test (some m) k = ground arith

-- A byte prints as one digit or two.
to_hex_cases :
    (n : ℕ)
    → n < 256
    → ((to_hex_string n ≡ hex_digit n ∷ []) × (two_digits n ≡ b'0' ∷ hex_digit n ∷ []))
      ⊎ (to_hex_string n ≡ two_digits n)
unfolding to_hex_string
to_hex_cases n h = elim (Bool-cases (ltb n 16)) [
  | inl small ↦ inl (rw small, small_digits small)
  | inr large ↦ inr (rw (large, lt→ltb n 256 h))
]
  where
    small_digits : ltb n 16 ≡ true → two_digits n ≡ b'0' ∷ hex_digit n ∷ []
    small_digits small =
        let high : n / 16 ≡ 0 = ground arith in
        let low : n % 16 ≡ n = ground arith in cc (ap hex_digit high, ap hex_digit low)

padded :
    (n : ℕ)
    → n < 256
    → (if ltb (length (to_hex_string n)) 2 then b'0' ∷ to_hex_string n else to_hex_string n)
      ≡ two_digits n
padded n h = elim (to_hex_cases n h) [ inl (one, two) ↦ rw one (sym two) | inr two ↦ rw two ]

encode_array_buffer-cons :
    (n : ℕ) (bytes : List ℕ)
    → n < 256
    → encode_array_buffer (n ∷ bytes) ≡ two_digits n ++ encode_array_buffer bytes
unfolding encode_array_buffer
encode_array_buffer-cons n bytes h = ap (λ r. r ++ encode_array_buffer bytes) (padded n h)

encode_char-two_digits : (n : ℕ) → n < 256 → encode_char (to_hex_string n) ≡ ok (two_digits n)
unfolding encode_char
encode_char-two_digits n h = elim (to_hex_cases n h) [
  | inl (one, two) ↦ rw one (ap ok (sym two))
  | inr two ↦ rw two
]

encode_char-large : (n : ℕ) → 256 ≤ n → encode_char (to_hex_string n) ≡ err Error.invalid_character
unfolding encode_char to_hex_string
encode_char-large n h = ground arith

encode-cons :
    (n : ℕ) (str : List ℕ)
    → encode (n ∷ str)
      ≡ (encode_char (to_hex_string n) >>= λ s. encode str >>= λ rest. ok (s ++ rest))
unfolding encode
encode-cons n str = refl

decode_pairs-two_digits :
    (n : ℕ) (hex : List ℕ)
    → n < 256
    → decode_pairs (two_digits n ++ hex) ≡ (decode_pairs hex >>= λ rest. ok (n ∷ rest))
unfolding decode_pairs
decode_pairs-two_digits n hex h = rw (parse_digits n h)

abbrev pub Bytes : List ℕ → Type 0
Bytes = All (λ b. b < 256)

decode_pairs-encode :
    (bytes : List ℕ) → Bytes bytes → decode_pairs (encode_array_buffer bytes) ≡ ok bytes
unfolding decode_pairs encode_array_buffer
decode_pairs-encode [] h = refl
decode_pairs-encode (n ∷ bytes) (h, hs) =
    ap decode_pairs (encode_array_buffer-cons n bytes h)
    ∙ decode_pairs-two_digits n (encode_array_buffer bytes) h
    ∙ ap (λ r. r >>= λ rest. ok (n ∷ rest)) (decode_pairs-encode bytes hs)

length-encode_array_buffer :
    (bytes : List ℕ) → Bytes bytes → length (encode_array_buffer bytes) ≡ 2 * length bytes
unfolding encode_array_buffer
length-encode_array_buffer [] h = refl
length-encode_array_buffer (n ∷ bytes) (h, hs) =
    omega
      (arith, ap length (encode_array_buffer-cons n bytes h), length-encode_array_buffer bytes hs)

to_bytes-id : (bytes : List ℕ) → Bytes bytes → to_bytes bytes ≡ bytes
unfolding to_bytes
to_bytes-id [] h = refl
to_bytes-id (n ∷ bytes) (h, hs) =
    let low : n % 256 ≡ n = omega arith in cc (low, to_bytes-id bytes hs)

even_length : (bytes : List ℕ) → Bytes bytes → (length (encode_array_buffer bytes) % 2 == 1) ≡ false
even_length bytes h = ne→== _ 1 (omega (arith, length-encode_array_buffer bytes h))

-- The bytes of an `ArrayBuffer` come back from the text that `encodeArrayBuffer` makes of them.
pub decode_array_buffer-encode :
    (bytes : List ℕ) → Bytes bytes → decode_array_buffer (encode_array_buffer bytes) ≡ ok bytes
unfolding decode_array_buffer
decode_array_buffer-encode bytes h =
    rw (even_length bytes h, decode_pairs-encode bytes h) (ap ok (to_bytes-id bytes h))

encode-of_Bytes : (str : List ℕ) → Bytes str → encode str ≡ ok (encode_array_buffer str)
unfolding encode encode_array_buffer
encode-of_Bytes [] h = refl
encode-of_Bytes (n ∷ str) (h, hs) =
    encode-cons n str
    ∙ rw (encode_char-two_digits n h, encode-of_Bytes str hs)
        (ap ok (sym (encode_array_buffer-cons n str h)))

-- Whether all code units of a text are below 256.
abbrev pub is_binary : List ℕ → Bool
is_binary [] = true
is_binary (n ∷ str) = ltb n 256 && is_binary str

is_binary-Bytes : (str : List ℕ) → is_binary str ≡ true → Bytes str
is_binary-Bytes [] h = tt
is_binary-Bytes (n ∷ str) h = (ground arith, is_binary-Bytes str (ground arith))

encode-of_not_binary :
    (str : List ℕ) → is_binary str ≡ false → encode str ≡ err Error.invalid_character
encode-of_not_binary [] h = cc
encode-of_not_binary (n ∷ str) h = elim (Bool-cases (ltb n 256)) [
  | inl small ↦
      encode-cons n str
      ∙ rw (encode_char-two_digits n (ground arith), encode-of_not_binary str (ground arith))
  | inr large ↦ encode-cons n str ∙ rw (encode_char-large n (ground arith))
]

-- `encode` throws exactly on a text with a code unit of 256 or more, and `decode` gives every other
-- text back from its encoding.
pub decode-encode :
    (str : List ℕ)
    → (encode str >>= decode) ≡ (if is_binary str then ok str else err Error.invalid_character)
unfolding decode
decode-encode str = elim (Bool-cases (is_binary str)) [
  | inl binary ↦
      let h = is_binary-Bytes str binary in
      rw (binary, encode-of_Bytes str h, even_length str h) (decode_pairs-encode str h)
  | inr wide ↦ rw (wide, encode-of_not_binary str wide)
]

to_bytes-Bytes : (units : List ℕ) → Bytes (to_bytes units)
unfolding to_bytes
to_bytes-Bytes [] = tt
to_bytes-Bytes (u ∷ units) = (omega arith, to_bytes-Bytes units)

-- What is decoded into an `ArrayBuffer` is bytes.
pub decode_array_buffer-Bytes :
    (hex : List ℕ) {bytes : List ℕ} → decode_array_buffer hex ≡ ok bytes → Bytes bytes
unfolding decode_array_buffer
decode_array_buffer-Bytes hex {bytes} e = elim (Bool-cases (length hex % 2 == 1)) [
  | inl odd ↦ let bad = rw odd at e in cc
  | inr even ↦
      let (units, f, g) =
        >>=-eq-ok (decode_pairs hex) (λ units. ok (to_bytes units)) (rw even at e) in
      Returns-eq_ok Bytes (ok (to_bytes units)) (to_bytes-Bytes units) g
]
