-- ===== src/Zip/Records.antt =====
-- What a reader finds in the records that lib/tdf3/src/utils/zip-writer.ts writes.
use mathlib.Core.List.{flatten}
use web_sdk.Base.{
  ℕ, ◌+◌, ◌*◌, ◌<◌, ◌≤◌, ◌≡◌, refl, ap, ◌∙◌, Bool, true, false, List, [], ◌∷◌, ◌++◌, if◌then◌else◌,
  length, append-nil, arith, le→leb, ok, ◌/◌, ◌%◌,
}
use web_sdk.Bytes.{
  read_uint16_le, read_uint32_le, read_uint64_le, write_uint16_le, write_uint32_le, write_uint64_le,
  concat_uint8, max_safe_integer,
}
use web_sdk.Bytes.Words.{word16, word32, word64}
use web_sdk.Bytes.Concat.{concat_uint8-eq-flatten}
use web_sdk.Zip.Writer.{
  cd_signature, cd_fixed, extra_field, general_purpose_bit_flag, version_made_by,
}

pub concat-three : (xs ys zs : List ℕ) → concat_uint8 (xs ∷ ys ∷ zs ∷ []) ≡ xs ++ (ys ++ zs)
unfolding flatten
concat-three xs ys zs =
    concat_uint8-eq-flatten (xs ∷ ys ∷ zs ∷ []) ∙ ap (λ r. xs ++ (ys ++ r)) (append-nil zs)

module _ (zip64 : Bool) (size offset crc attributes time date n m : ℕ) (rest : List ℕ) where
  abbrev written : List ℕ
  written = cd_fixed zip64 size offset crc attributes time date n m ++ rest

  pub length-cd_fixed : length (cd_fixed zip64 size offset crc attributes time date n m) ≡ 46
  unfolding cd_fixed write_uint16_le write_uint32_le
  length-cd_fixed = refl

  pub cd_fixed-words :
      (read_uint32_le written 0 ≡ cd_signature)
      × (read_uint16_le written 4 ≡ version_made_by)
      × (read_uint16_le written 6 ≡ (if zip64 then 45 else 20))
      × (read_uint16_le written 8 ≡ general_purpose_bit_flag)
      × (read_uint16_le written 10 ≡ 0)
      × (read_uint16_le written 32 ≡ 0)
      × (read_uint16_le written 36 ≡ 0)
  unfolding cd_fixed write_uint16_le write_uint32_le read_uint16_le read_uint32_le
  cd_fixed-words = (refl, refl, version zip64, refl, refl, refl, refl)
    where
      version :
          (b : Bool)
          → (if b then 45 else 20) % 256 + (if b then 45 else 20) / 256 % 256 * 256
            ≡ (if b then 45 else 20)
      version true = refl
      version false = refl

  pub cd_fixed-time : time < 65536 → read_uint16_le written 12 ≡ time
  unfolding cd_fixed write_uint16_le write_uint32_le read_uint16_le
  cd_fixed-time h = word16 time h

  pub cd_fixed-date : date < 65536 → read_uint16_le written 14 ≡ date
  unfolding cd_fixed write_uint16_le write_uint32_le read_uint16_le
  cd_fixed-date h = word16 date h

  pub cd_fixed-crc32 : crc < 4294967296 → read_uint32_le written 16 ≡ crc
  unfolding cd_fixed write_uint16_le write_uint32_le read_uint32_le
  cd_fixed-crc32 h = word32 crc h

  pub cd_fixed-name : n < 65536 → read_uint16_le written 28 ≡ n
  unfolding cd_fixed write_uint16_le write_uint32_le read_uint16_le
  cd_fixed-name h = word16 n h

  pub cd_fixed-extra : m < 65536 → read_uint16_le written 30 ≡ m
  unfolding cd_fixed write_uint16_le write_uint32_le read_uint16_le
  cd_fixed-extra h = word16 m h

  pub cd_fixed-attributes : attributes < 4294967296 → read_uint32_le written 38 ≡ attributes
  unfolding cd_fixed write_uint16_le write_uint32_le read_uint32_le
  cd_fixed-attributes h = word32 attributes h

  pub cd_fixed-sizes :
      (if zip64 then 0xffffffff else size) < 4294967296
      → (if zip64 then 0xffffffff else offset) < 4294967296
      → (read_uint32_le written 20 ≡ (if zip64 then 0xffffffff else size))
        × (read_uint32_le written 24 ≡ (if zip64 then 0xffffffff else size))
        × (read_uint32_le written 42 ≡ (if zip64 then 0xffffffff else offset))
  unfolding cd_fixed write_uint16_le write_uint32_le read_uint32_le
  cd_fixed-sizes h k = (word32 _ h, word32 _ h, word32 _ k)

-- The eight bytes of a number, least significant first.
abbrev pub bytes64 : ℕ → List ℕ
bytes64 n =
    let low = n % 4294967296 in
    let high = n / 4294967296 in
    low % 256
    ∷ low / 256 % 256
    ∷ low / 65536 % 256
    ∷ low / 16777216 % 256
    ∷ high % 256
    ∷ high / 256 % 256
    ∷ high / 65536 % 256
    ∷ high / 16777216 % 256
    ∷ []

abbrev pub payload64 : ℕ → ℕ → ℕ → List ℕ
payload64 first second third = bytes64 first ++ (bytes64 second ++ bytes64 third)

read64 : (n : ℕ) → n ≤ max_safe_integer → read_uint64_le (bytes64 n) 0 ≡ ok n
unfolding read_uint64_le read_uint32_le
read64 n h = rw (
  word32 (n % 4294967296) (omega arith),
  word32 (n / 4294967296) (omega arith),
  word64 n,
  le→leb n max_safe_integer h,
)

module _ (first second third : ℕ) (safe1 : first ≤ max_safe_integer)
    (safe2 : second ≤ max_safe_integer) (safe3 : third ≤ max_safe_integer) where
  pub extra_field-bytes :
      extra_field first second third ≡ ok (1 ∷ 0 ∷ 24 ∷ 0 ∷ payload64 first second third)
  unfolding extra_field write_uint64_le write_uint32_le write_uint16_le
  extra_field-bytes = rw (
    le→leb first max_safe_integer safe1,
    le→leb second max_safe_integer safe2,
    le→leb third max_safe_integer safe3,
  )

  pub read-payload64 :
      (read_uint64_le (payload64 first second third) 0 ≡ ok first)
      × (read_uint64_le (payload64 first second third) 8 ≡ ok second)
      × (read_uint64_le (payload64 first second third) 16 ≡ ok third)
  unfolding read_uint64_le read_uint32_le
  read-payload64 = (read64 first safe1, read64 second safe2, read64 third safe3)
