-- ===== src/Utf8.antt =====
-- UTF-8 text (utf8Slice and decodeCodePointsArray of lib/tdf3/src/utils/index.ts), and the encoder
-- that the platform's `TextEncoder` is, as the Encoding Standard has it.
-- A text is the list of its scalar values; a JavaScript string is the list of its UTF-16 code units.
pub mod Decode
mod Tests
use web_sdk.Base.{
  ℕ, zero, suc, ◌+◌, ◌-◌, ◌*◌, ◌/◌, ◌%◌, Bool, true, false, not, ◌&&◌, ◌||◌, List, [], ◌∷◌, ◌++◌,
  Option, none, some, leb, ltb, ◌==◌, if◌then◌else◌, length, take, drop, slice, get_elem?, min,
}
use web_sdk.Bytes.{byte_at}

-- `new TextEncoder().encode(text)`
unfoldable pub encode_scalar : ℕ → List ℕ
encode_scalar c =
    if ltb c 0x80
    then c ∷ []
    else if ltb c 0x800
    then (c / 64 + 0xc0) ∷ (c % 64 + 0x80) ∷ []
    else if ltb c 0x10000
    then (c / 4096 + 0xe0) ∷ (c / 64 % 64 + 0x80) ∷ (c % 64 + 0x80) ∷ []
    else (c / 262144 + 0xf0) ∷ (c / 4096 % 64 + 0x80) ∷ (c / 64 % 64 + 0x80) ∷ (c % 64 + 0x80) ∷ []

unfoldable pub encode : List ℕ → List ℕ
unfolding encode_scalar
encode [] = []
encode (c ∷ text) = encode_scalar c ++ encode text

-- The code units of a text.
unfoldable pub units_of_scalar : ℕ → List ℕ
units_of_scalar c =
    if ltb 0xffff c
    then ((c - 0x10000) / 1024 % 1024 + 0xd800) ∷ (0xdc00 + (c - 0x10000) % 1024) ∷ []
    else c ∷ []

unfoldable pub utf16 : List ℕ → List ℕ
unfolding units_of_scalar
utf16 [] = []
utf16 (c ∷ text) = units_of_scalar c ++ utf16 text

-- `bytesPerSequence` as the first byte announces it.
unfoldable pub bytes_per_sequence : ℕ → ℕ
bytes_per_sequence first_byte =
    if ltb 0xef first_byte
    then 4
    else if ltb 0xdf first_byte
    then 3
    else if ltb 0xbf first_byte
    then 2
    else 1

-- `(b & 0xc0) === 0x80`
unfoldable pub continues : ℕ → Bool
continues b = b / 64 == 2

-- The four cases of the `switch`: the code point of a whole sequence, if it is valid.
unfoldable pub one_byte : ℕ → Option ℕ
one_byte b0 = if ltb b0 0x80 then some b0 else none

unfoldable pub two_bytes : ℕ → ℕ → Option ℕ
two_bytes b0 b1 =
    let temp = b0 % 32 * 64 + b1 % 64 in if continues b1 && ltb 0x7f temp then some temp else none

unfoldable pub three_bytes : ℕ → ℕ → ℕ → Option ℕ
three_bytes b0 b1 b2 =
    let temp = b0 % 16 * 4096 + b1 % 64 * 64 + b2 % 64 in
    if continues b1 && continues b2 && ltb 0x7ff temp && (ltb temp 0xd800 || ltb 0xdfff temp)
    then some temp
    else none

unfoldable pub four_bytes : ℕ → ℕ → ℕ → ℕ → Option ℕ
four_bytes b0 b1 b2 b3 =
    let temp = b0 % 16 * 262144 + b1 % 64 * 4096 + b2 % 64 * 64 + b3 % 64 in
    if continues b1 && continues b2 && continues b3 && ltb 0xffff temp && ltb temp 0x110000
    then some temp
    else none

unfoldable pub code_point : ℕ → List ℕ → Option ℕ
code_point bytes buf =
    let b0 = byte_at buf 0 in
    let b1 = byte_at buf 1 in
    let b2 = byte_at buf 2 in
    if bytes == 1
    then one_byte b0
    else if bytes == 2
    then two_bytes b0 b1
    else if bytes == 3
    then three_bytes b0 b1 b2
    else four_bytes b0 b1 b2 (byte_at buf 3)

-- What a round appends to `res`, and the number of bytes that it takes.
unfoldable pub emit : ℕ → Option ℕ → List ℕ × ℕ
emit bytes none = (0xfffd ∷ [], 1)
emit bytes (some c) = (units_of_scalar c, bytes)

-- One round of `utf8Slice`, on the bytes that are left.
unfoldable pub decode_round : List ℕ → List ℕ × ℕ
decode_round buf =
    let bytes = bytes_per_sequence (byte_at buf 0) in
    emit bytes (if leb bytes (length buf) then code_point bytes buf else none)

-- The loop of `utf8Slice`, on fuel: a round takes one byte at least.
unfoldable pub utf8_loop : ℕ → List ℕ → List ℕ
utf8_loop zero buf = []
utf8_loop (suc fuel) [] = []
utf8_loop (suc fuel) (b ∷ buf) =
    let (units, taken) = decode_round (b ∷ buf) in units ++ utf8_loop fuel (drop taken (b ∷ buf))

abbrev pub max_arguments_length : ℕ
max_arguments_length = 4096

-- The chunks of `decodeCodePointsArray`, on fuel.
unfoldable pub decode_chunks : ℕ → List ℕ → List ℕ
decode_chunks zero code_points = []
decode_chunks (suc fuel) [] = []
decode_chunks (suc fuel) (c ∷ code_points) =
    take max_arguments_length (c ∷ code_points)
    ++ decode_chunks fuel (drop max_arguments_length (c ∷ code_points))

unfoldable pub decode_code_points_array : List ℕ → List ℕ
unfolding decode_chunks
decode_code_points_array code_points =
    if leb (length code_points) max_arguments_length
    then code_points
    else decode_chunks (length code_points) code_points

unfoldable pub utf8_slice : List ℕ → ℕ → ℕ → List ℕ
unfolding utf8_loop decode_code_points_array
utf8_slice buf start end =
    let last = min (length buf) end in
    let sliced = slice buf start last in decode_code_points_array (utf8_loop (length sliced) sliced)
