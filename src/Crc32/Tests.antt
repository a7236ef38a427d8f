-- ===== src/Crc32/Tests.antt =====
-- The checksum run on short buffers, and its theorems at them.
use Prim.{tt}
use Prim.Native.Nat.{bit_xor}
use web_sdk.Base.{◌≡◌, refl, [], ◌∷◌, arith}
use web_sdk.Crc32.{unsigned}
use web_sdk.Crc32.Bitwise.{reference_loop, unsigned-reference}

-- The digits from 1 to 9.
check_value : unsigned (49 ∷ 50 ∷ 51 ∷ 52 ∷ 53 ∷ 54 ∷ 55 ∷ 56 ∷ 57 ∷ []) 0 ≡ 0xcbf43926
unfolding unsigned
check_value = refl

unsigned-reference_example :
    unsigned (7 ∷ 255 ∷ []) 0 ≡ bit_xor (reference_loop 0xffffffff (7 ∷ 255 ∷ [])) 0xffffffff
unsigned-reference_example = unsigned-reference (7 ∷ 255 ∷ []) (omega arith, (omega arith, tt))
