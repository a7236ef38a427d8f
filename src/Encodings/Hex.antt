-- ===== src/Encodings/Hex.antt =====
-- lib/src/encodings/hex.ts
pub mod Digits
use web_sdk.Base.{
  ℕ, zero, suc, ◌+◌, ◌-◌, ◌*◌, ◌/◌, ◌%◌, Bool, true, false, ◌&&◌, ◌||◌, List, [], ◌∷◌, ◌++◌, Option,
  none, some, Result, ok, err, Error, leb, ltb, ◌==◌, if◌then◌else◌, length, ◌>>=◌,
}

-- A digit of `toString(16)`.
unfoldable pub hex_digit : ℕ → ℕ
hex_digit d = if ltb d 10 then d + b'0' else d - 10 + b'a'

-- `n.toString(16)` for a number below 2^16, such as a code unit.
unfoldable pub to_hex_string : ℕ → List ℕ
unfolding hex_digit
to_hex_string n =
    if ltb n 16
    then hex_digit n ∷ []
    else if ltb n 256
    then hex_digit (n / 16) ∷ hex_digit (n % 16) ∷ []
    else if ltb n 4096
    then hex_digit (n / 256) ∷ hex_digit (n / 16 % 16) ∷ hex_digit (n % 16) ∷ []
    else hex_digit (n / 4096)
      ∷ hex_digit (n / 256 % 16)
      ∷ hex_digit (n / 16 % 16)
      ∷ hex_digit (n % 16)
      ∷ []

-- The loop of `encodeArrayBuffer`.
unfoldable pub encode_array_buffer : List ℕ → List ℕ
unfolding to_hex_string
encode_array_buffer [] = []
encode_array_buffer (byte ∷ rest) =
    let next_hex_byte = to_hex_string byte in
    (if ltb (length next_hex_byte) 2 then b'0' ∷ next_hex_byte else next_hex_byte)
    ++ encode_array_buffer rest

-- One round of `encode`.
unfoldable pub encode_char : List ℕ → Result (List ℕ)
encode_char s =
    if ltb (length s) 2
    then ok (b'0' ∷ s)
    else if ltb 2 (length s)
    then err Error.invalid_character
    else ok s

-- The loop of `encode`, which throws at the first code unit above 0xff.
unfoldable pub encode : List ℕ → Result (List ℕ)
unfolding to_hex_string encode_char
encode [] = ok []
encode (unit ∷ str) = do s ← encode_char (to_hex_string unit); rest ← encode str; ok (s ++ rest)

-- The value of a hexadecimal digit, as `parseInt` reads it.
unfoldable pub digit_value : ℕ → Option ℕ
digit_value c =
    if leb b'0' c && leb c b'9'
    then some (c - b'0')
    else if leb b'a' c && leb c b'f'
    then some (c - b'a' + 10)
    else if leb b'A' c && leb c b'F'
    then some (c - b'A' + 10)
    else none

-- The white space that `parseInt` skips.
unfoldable pub is_white_space : ℕ → Bool
is_white_space c =
    (leb 9 c && leb c 13)
    || c == 0x20
    || c == 0xa0
    || c == 0x1680
    || (leb 0x2000 c && leb c 0x200a)
    || c == 0x2028
    || c == 0x2029
    || c == 0x202f
    || c == 0x205f
    || c == 0x3000
    || c == 0xfeff

-- A digit, or NaN.
negated : Option ℕ → Option ℕ
negated none = none
negated (some d) = some ((65536 - d) % 65536)

-- `parseInt` stops at the first character that is no digit: a digit before it is the result.
prefix_value : Option ℕ → Option ℕ → Option ℕ
prefix_value none second = none
prefix_value (some a) none = some a
prefix_value (some a) (some b) = some (a * 16 + b)

-- `parseInt(c1 + c2, 16)`, as a code unit: a negative result is taken modulo 2^16, as
-- `String.fromCharCode` takes it, and a store into a `Uint8Array` after that. NaN is `none`.
unfoldable pub parse_int16 : ℕ → ℕ → Option ℕ
unfolding digit_value is_white_space negated prefix_value
parse_int16 c1 c2 =
    if is_white_space c1 || c1 == b'+'
    then digit_value c2
    else if c1 == b'-'
    then negated (digit_value c2)
    else if c1 == b'0' && (c2 == b'x' || c2 == b'X')
    then none
    else prefix_value (digit_value c1) (digit_value c2)

or_invalid : Option ℕ → Result ℕ
or_invalid none = err Error.invalid_character
or_invalid (some b) = ok b

-- The loop of `decode`; `decodeArrayBuffer` has the same one, over bytes. The clause for a single
-- character is never met, since an odd length is refused before.
unfoldable pub decode_pairs : List ℕ → Result (List ℕ)
unfolding parse_int16 or_invalid
decode_pairs [] = ok []
decode_pairs (c ∷ []) = ok []
decode_pairs (c1 ∷ c2 ∷ hex) = do
  b ← or_invalid (parse_int16 c1 c2)
  rest ← decode_pairs hex
  ok (b ∷ rest)

unfoldable pub decode : List ℕ → Result (List ℕ)
unfolding decode_pairs
decode hex = if length hex % 2 == 1 then err Error.invalid_character else decode_pairs hex

to_bytes : List ℕ → List ℕ
to_bytes [] = []
to_bytes (u ∷ us) = u % 256 ∷ to_bytes us

unfoldable pub decode_array_buffer : List ℕ → Result (List ℕ)
unfolding decode_pairs to_bytes
decode_array_buffer hex =
    if length hex % 2 == 1
    then err Error.invalid_character
    else do units ← decode_pairs hex; ok (to_bytes units)
