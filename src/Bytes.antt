-- ===== src/Bytes.antt =====
-- Byte buffers (lib/tdf3/src/utils/index.ts, with readUInt64LE of zip-reader.ts and writeUInt64LE
-- of zip-writer.ts). A `Uint8Array` is the list of its bytes: an element that is not there reads
-- as `undefined`, which a bit operation takes for 0, and a write out of range changes nothing.
-- `x & 0xff` is `x % 256`, `x >> k` is `x / 2 ^ k`, and `|` of shifted bytes is their sum.
pub mod Words
pub mod Concat
mod Tests
use web_sdk.Base.{
  ℕ, ◌+◌, ◌*◌, ◌-◌, ◌/◌, ◌%◌, ◌^◌, List, [], ◌∷◌, Result, ok, err, Error, leb, if◌then◌else◌,
  get_or, set, replicate, length, take, drop, min, ◌>>=◌,
}

-- `new Uint8Array(n)`
abbrev pub zeros : ℕ → List ℕ
zeros n = replicate n 0

abbrev pub byte_at : List ℕ → ℕ → ℕ
byte_at buffer i = get_or buffer i 0

unfoldable pub read_uint16_le : List ℕ → ℕ → ℕ
read_uint16_le buffer offset = byte_at buffer offset + byte_at buffer (offset + 1) * 256

unfoldable pub read_uint32_le : List ℕ → ℕ → ℕ
read_uint32_le buffer offset =
    byte_at buffer offset
    + byte_at buffer (offset + 1) * 256
    + byte_at buffer (offset + 2) * 65536
    + byte_at buffer (offset + 3) * 16777216

unfoldable pub write_uint16_le : List ℕ → ℕ → ℕ → List ℕ
write_uint16_le buffer value offset =
    set (set buffer offset (value % 256)) (offset + 1) (value / 256 % 256)

unfoldable pub write_uint32_le : List ℕ → ℕ → ℕ → List ℕ
write_uint32_le buffer value offset =
    let b0 = set buffer offset (value % 256) in
    let b1 = set b0 (offset + 1) (value / 256 % 256) in
    let b2 = set b1 (offset + 2) (value / 65536 % 256) in
    set b2 (offset + 3) (value / 16777216 % 256)

-- `Number.MAX_SAFE_INTEGER`
abbrev pub max_safe_integer : ℕ
max_safe_integer = 2 ^ 53 - 1

unfoldable pub read_uint64_le : List ℕ → ℕ → Result ℕ
read_uint64_le buffer offset =
    let lower32 = read_uint32_le buffer offset in
    let upper32 = read_uint32_le buffer (offset + 4) in
    let combined = upper32 * 4294967296 + lower32 in
    if leb combined max_safe_integer then ok combined else err Error.generic

unfoldable pub write_uint64_le : List ℕ → ℕ → ℕ → Result (List ℕ)
write_uint64_le buffer n offset =
    let high = n / 4294967296 in
    let low = n % 4294967296 in
    if leb n max_safe_integer
    then ok (write_uint32_le (write_uint32_le buffer low offset) high (offset + 4))
    else err Error.generic

-- `target.set(source, offset)`, which the callers keep in range
unfoldable pub set_all : List ℕ → List ℕ → ℕ → List ℕ
set_all target [] offset = target
set_all target (b ∷ source) offset = set_all (set target offset b) source (offset + 1)

-- the first pass of `concatUint8`
unfoldable pub total_length : ℕ → List (List ℕ) → ℕ
total_length accumulator [] = accumulator
total_length accumulator (current ∷ rest) = total_length (accumulator + length current) rest

-- the second pass of `concatUint8`
unfoldable pub copy_from : List ℕ → ℕ → List (List ℕ) → List ℕ
unfolding set_all
copy_from combined offset [] = combined
copy_from combined offset (array ∷ rest) =
    copy_from (set_all combined array offset) (offset + length array) rest

unfoldable pub concat_uint8 : List (List ℕ) → List ℕ
unfolding total_length copy_from
concat_uint8 arrays = copy_from (zeros (total_length 0 arrays)) 0 arrays

-- The copied bytes and the number of them that the source returns.
unfoldable pub copy_uint8_arr : List ℕ → List ℕ → ℕ → ℕ → ℕ → List ℕ × ℕ
unfolding set_all
copy_uint8_arr source target target_start source_start source_end =
    let count = min (source_end - source_start) (length target - target_start) in
    (set_all target (take count (drop source_start source)) target_start, count)
