-- ===== src/Bytes/Tests.antt =====
-- The buffers' theorems at small buffers, and runs of their functions.
use web_sdk.Base.{◌^◌, ◌≡◌, refl, [], ◌∷◌, err, Error}
use web_sdk.Bytes.{zeros, copy_uint8_arr, read_uint16_le, write_uint32_le, write_uint64_le}

buffer_tests :
    (write_uint32_le (zeros 5) 0x04034b50 1 ≡ 0 ∷ 0x50 ∷ 0x4b ∷ 0x03 ∷ 0x04 ∷ [])
    × (read_uint16_le (1 ∷ 2 ∷ []) 0 ≡ 513)
    × (write_uint64_le (zeros 8) (2 ^ 53) 0 ≡ err Error.generic)
    × (copy_uint8_arr (1 ∷ 2 ∷ 3 ∷ []) (zeros 4) 2 1 3 ≡ (0 ∷ 0 ∷ 2 ∷ 3 ∷ [], 2))
unfolding write_uint32_le read_uint16_le write_uint64_le copy_uint8_arr
buffer_tests = (refl, refl, refl, refl)
