-- ===== src/Encodings/Tests.antt =====
-- The encodings run on short texts, and their theorems at them.
use web_sdk.Base.{◌≡◌, refl, true, false, [], ◌∷◌, arith, ok, err, Error}
use Prim.{tt}
use web_sdk.Encodings.Hex
use web_sdk.Encodings.Base64
use web_sdk.Encodings.Base64.RoundTrip.{decode_array_buffer-encode_array_buffer}

hex_tests :
    (Hex.encode (0 ∷ 255 ∷ 65 ∷ []) ≡ ok (b'0' ∷ b'0' ∷ b'f' ∷ b'f' ∷ b'4' ∷ b'1' ∷ []))
    × (Hex.decode (b'4' ∷ b'A' ∷ []) ≡ ok (74 ∷ []))
    × (Hex.decode (b'4' ∷ []) ≡ err Error.invalid_character)
    × (Hex.decode (b'g' ∷ b'1' ∷ []) ≡ err Error.invalid_character)
    × (Hex.decode_array_buffer (b'-' ∷ b'1' ∷ []) ≡ ok (255 ∷ []))
unfolding Hex.encode Hex.decode Hex.decode_array_buffer
hex_tests = (refl, refl, refl, refl, refl)

base64_tests :
    (Base64.encode_array_buffer false (251 ∷ 255 ∷ []) ≡ b'+' ∷ b'/' ∷ b'8' ∷ b'=' ∷ [])
    × (Base64.encode_array_buffer true (251 ∷ 255 ∷ []) ≡ b'-' ∷ b'_' ∷ b'8' ∷ [])
    × (Base64.encode_array_buffer false (1 ∷ []) ≡ b'A' ∷ b'Q' ∷ b'=' ∷ b'=' ∷ [])
    × (Base64.decode_array_buffer (b'A' ∷ b'Q' ∷ b'=' ∷ b'=' ∷ []) ≡ ok (1 ∷ []))
    × (Base64.decode_array_buffer (b'-' ∷ b'_' ∷ b'8' ∷ []) ≡ ok (251 ∷ 255 ∷ []))
    × (Base64.decode_array_buffer (b'A' ∷ []) ≡ err Error.invalid_character)
unfolding Base64.encode_array_buffer Base64.decode_array_buffer Base64.char_at
base64_tests = (refl, refl, refl, refl, refl, refl)

-- A reading of the hexadecimal digits stops at the first other character, which is not refused.
hex_prefix_tests :
    (Hex.decode (b'1' ∷ b'g' ∷ []) ≡ ok (1 ∷ []))
    × (Hex.decode_array_buffer (b'f' ∷ b'!' ∷ []) ≡ ok (15 ∷ []))
unfolding Hex.decode Hex.decode_array_buffer
hex_prefix_tests = (refl, refl)

decode_array_buffer-encode_array_buffer_example :
    Base64.decode_array_buffer (Base64.encode_array_buffer true (251 ∷ 255 ∷ 0 ∷ 7 ∷ []))
    ≡ ok (251 ∷ 255 ∷ 0 ∷ 7 ∷ [])
decode_array_buffer-encode_array_buffer_example =
    decode_array_buffer-encode_array_buffer true (251 ∷ 255 ∷ 0 ∷ 7 ∷ [])
      (omega arith, (omega arith, (omega arith, (omega arith, tt))))
