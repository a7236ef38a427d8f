-- ===== src/Utf8/Tests.antt =====
-- UTF-8 run on short texts, and its theorems at them.
use Prim.{tt}
use web_sdk.Base.{ℕ, ◌≡◌, refl, List, [], ◌∷◌, arith, length, inl, inr}
use web_sdk.Utf8.{
  decode_round, emit, bytes_per_sequence, code_point, one_byte, two_bytes, four_bytes, continues,
  encode, utf16, utf8_slice,
}
use web_sdk.Utf8.Decode.{utf8_slice-encode}

-- The letter a, the euro sign and a face.
abbrev sample : List ℕ
sample = b'a' ∷ 0x20ac ∷ 0x1f600 ∷ []

utf8_tests :
    (encode sample ≡ b'a' ∷ 0xe2 ∷ 0x82 ∷ 0xac ∷ 0xf0 ∷ 0x9f ∷ 0x98 ∷ 0x80 ∷ [])
    × (utf16 sample ≡ b'a' ∷ 0x20ac ∷ 0xd83d ∷ 0xde00 ∷ [])
    × (utf8_slice (b'a' ∷ 0xff ∷ 0xc0 ∷ 0x80 ∷ []) 0 4 ≡ b'a' ∷ 0xfffd ∷ 0xfffd ∷ 0xfffd ∷ [])
    × (utf8_slice (0xf8 ∷ 0x90 ∷ 0x80 ∷ 0x80 ∷ []) 0 4 ≡ 0xfffd ∷ 0xfffd ∷ 0xfffd ∷ 0xfffd ∷ [])
unfolding encode utf16 utf8_slice decode_round emit bytes_per_sequence code_point one_byte two_bytes
    four_bytes continues
utf8_tests = (refl, refl, refl, refl)

utf8_slice-encode_example : utf8_slice (encode sample) 0 (length (encode sample)) ≡ utf16 sample
utf8_slice-encode_example = utf8_slice-encode sample (
  (omega arith, inl (omega arith)),
  ((omega arith, inl (omega arith)), ((omega arith, inr (omega arith)), tt)),
)
