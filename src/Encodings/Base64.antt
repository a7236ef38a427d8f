-- ===== src/Encodings/Base64.antt =====
-- lib/src/encodings/base64.ts
pub mod Letters
pub mod Padded
pub mod Shape
pub mod RoundTrip
use web_sdk.Base.{
  ℕ, ◌+◌, ◌-◌, ◌*◌, ◌/◌, ◌%◌, Bool, false, ◌&&◌, ◌||◌, List, [], ◌∷◌, ◌++◌, Option, none, some,
  Result, ok, err, Error, leb, ltb, ◌==◌, if◌then◌else◌, length, take, get_elem?, ◌>>=◌,
}
use web_sdk.Bytes.{zeros, set_all}

-- The character at an index below 64 of `charsStandard` or `charsUrlSafe`.
unfoldable pub char_at : Bool → ℕ → ℕ
char_at url_safe i =
    if ltb i 26
    then i + b'A'
    else if ltb i 52
    then i - 26 + b'a'
    else if ltb i 62
    then i - 52 + b'0'
    else if i == 62
    then (if url_safe then b'-' else b'+')
    else (if url_safe then b'_' else b'/')

abbrev pub padding : ℕ
padding = b'='

-- The loop of `encodeArrayBuffer`: a byte past the end is `undefined`, which a shift takes for 0.
unfoldable pub encode_loop : Bool → List ℕ → List ℕ
encode_loop url_safe [] = []
encode_loop url_safe (b0 ∷ []) =
    char_at url_safe (b0 / 4)
    ∷ char_at url_safe (b0 % 4 * 16)
    ∷ char_at url_safe 0
    ∷ char_at url_safe 0
    ∷ []
encode_loop url_safe (b0 ∷ b1 ∷ []) =
    char_at url_safe (b0 / 4)
    ∷ char_at url_safe (b0 % 4 * 16 + b1 / 16)
    ∷ char_at url_safe (b1 % 16 * 4)
    ∷ char_at url_safe 0
    ∷ []
encode_loop url_safe (b0 ∷ b1 ∷ b2 ∷ bytes) =
    char_at url_safe (b0 / 4)
    ∷ char_at url_safe (b0 % 4 * 16 + b1 / 16)
    ∷ char_at url_safe (b1 % 16 * 4 + b2 / 64)
    ∷ char_at url_safe (b2 % 64)
    ∷ encode_loop url_safe bytes

unfoldable pub encode_array_buffer : Bool → List ℕ → List ℕ
unfolding encode_loop
encode_array_buffer url_safe bytes =
    let len = length bytes in
    let base64 = encode_loop url_safe bytes in
    if len % 3 == 2
    then take (length base64 - 1) base64 ++ (if url_safe then [] else padding ∷ [])
    else if len % 3 == 1
    then take (length base64 - 2) base64 ++ (if url_safe then [] else padding ∷ padding ∷ [])
    else base64

-- What `lookup` returns: six bits, or -1 at the padding character.
pub data Looked : Type 0 where
  sextet : ℕ → Looked
  pad : Looked

-- `lookup(input.charCodeAt(i))`, where `none` stands for NaN, past the end.
unfoldable pub lookup : Option ℕ → Result Looked
lookup none = ok (sextet 0)
lookup (some c) =
    if leb b'A' c && leb c b'Z'
    then ok (sextet (c - b'A'))
    else if leb b'a' c && leb c b'z'
    then ok (sextet (c - b'a' + 26))
    else if leb b'0' c && leb c b'9'
    then ok (sextet (c - b'0' + 52))
    else if c == b'+' || c == b'-'
    then ok (sextet 62)
    else if c == b'/' || c == b'_'
    then ok (sextet 63)
    else if c == padding
    then ok pad
    else err Error.invalid_character

-- `(e1 << 2) | (e2 >> 4)` and its two companions, modulo 256 as a `Uint8Array` stores them:
-- -1 has all its bits set.
unfoldable pub first_byte : Looked → Looked → ℕ
first_byte (sextet a) (sextet b) = (a * 4 + b / 16) % 256
first_byte pad (sextet b) = 252 + b / 16
first_byte e1 pad = 255

unfoldable pub second_byte : Looked → Looked → ℕ
second_byte (sextet b) (sextet c) = b % 16 * 16 + c / 4
second_byte pad (sextet c) = 240 + c / 4
second_byte e2 pad = 255

unfoldable pub third_byte : Looked → Looked → ℕ
third_byte (sextet c) (sextet d) = c % 4 * 64 + d % 64
third_byte (sextet c) pad = c % 4 * 64 + 63
third_byte pad (sextet d) = 192 + d % 64
third_byte pad pad = 255

-- The three bytes of one round.
unfoldable pub decode_round : Looked → Looked → Looked → Looked → List ℕ
unfolding first_byte second_byte third_byte
decode_round e1 e2 e3 e4 = first_byte e1 e2 ∷ second_byte e2 e3 ∷ third_byte e3 e4 ∷ []

-- `base64[strLength - k]`
abbrev pub from_end : ℕ → List ℕ → Option ℕ
from_end k s = if leb k (length s) then get_elem? s (length s - k) else none

unfoldable pub is_padding : Option ℕ → Bool
is_padding none = false
is_padding (some c) = c == padding

unfoldable pub padding_length : List ℕ → ℕ
unfolding is_padding
padding_length s =
    if is_padding (from_end 2 s) then 2 else if is_padding (from_end 1 s) then 1 else 0

-- The loop of `decodeArrayBuffer` over four characters a round; writes past the end are dropped.
unfoldable pub decode_loop : ℕ → List ℕ → List ℕ → Result (List ℕ)
unfolding lookup decode_round set_all
decode_loop p [] bytes = ok bytes
decode_loop p (c1 ∷ []) bytes = do
  e1 ← lookup (some c1)
  ok (set_all bytes (decode_round e1 (sextet 0) (sextet 0) (sextet 0)) p)
decode_loop p (c1 ∷ c2 ∷ []) bytes = do
  e1 ← lookup (some c1)
  e2 ← lookup (some c2)
  ok (set_all bytes (decode_round e1 e2 (sextet 0) (sextet 0)) p)
decode_loop p (c1 ∷ c2 ∷ c3 ∷ []) bytes = do
  e1 ← lookup (some c1)
  e2 ← lookup (some c2)
  e3 ← lookup (some c3)
  ok (set_all bytes (decode_round e1 e2 e3 (sextet 0)) p)
decode_loop p (c1 ∷ c2 ∷ c3 ∷ c4 ∷ s) bytes = do
  e1 ← lookup (some c1)
  e2 ← lookup (some c2)
  e3 ← lookup (some c3)
  e4 ← lookup (some c4)
  decode_loop (p + 3) s (set_all bytes (decode_round e1 e2 e3 e4) p)

unfoldable pub decode_array_buffer : List ℕ → Result (List ℕ)
unfolding decode_loop padding_length is_padding
decode_array_buffer base64 =
    let str_length = length base64 in
    let bin_length = str_length / 2 + (str_length + 1) / 4 - padding_length base64 in
    if str_length % 4 == 1 || is_padding (from_end 3 base64)
    then err Error.invalid_character
    else decode_loop 0 base64 (zeros bin_length)
