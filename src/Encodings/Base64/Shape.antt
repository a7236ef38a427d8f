-- ===== src/Encodings/Base64/Shape.antt =====
-- The length and the padding of what encodeArrayBuffer of lib/src/encodings/base64.ts makes.
use web_sdk.Base.{
  ℕ, suc, ◌+◌, ◌-◌, ◌*◌, ◌/◌, ◌%◌, ◌<◌, ◌≤◌, ◌≡◌, refl, Bool, true, false, List, [], ◌∷◌, length,
  arith, ◌==◌, le→leb, All,
}
use web_sdk.Encodings.Base64.{from_end, is_padding, padding_length}
use web_sdk.Encodings.Base64.Letters.{char_at-padding}
use web_sdk.Encodings.Base64.Padded.{padded}

abbrev pub Bytes : List ℕ → Type 0
Bytes bytes = All (λ b. b < 256) bytes

from_end-four :
    (k a b c d : ℕ) (s : List ℕ) → k ≤ length s → from_end k (a ∷ b ∷ c ∷ d ∷ s) ≡ from_end k s
from_end-four k a b c d s h =
    let e : suc (suc (suc (suc (length s)))) - k ≡ suc (suc (suc (suc (length s - k)))) =
      omega arith in
    rw (le→leb k (length s) h, le→leb k (suc (suc (suc (suc (length s))))) (omega arith), e) refl

padding_length-four :
    (a b c d : ℕ) (s : List ℕ)
    → 2 ≤ length s
    → padding_length (a ∷ b ∷ c ∷ d ∷ s) ≡ padding_length s
unfolding padding_length
padding_length-four a b c d s h =
    rw (from_end-four 1 a b c d s (omega arith), from_end-four 2 a b c d s h) refl

length-padded : (u : Bool) (c0 : ℕ) (bytes : List ℕ) → 2 ≤ length (padded u (c0 ∷ bytes))
unfolding padded
length-padded u c0 [] = omega arith
length-padded u c0 (c1 ∷ []) = omega arith
length-padded u c0 (c1 ∷ c2 ∷ bytes) = omega arith

length-padded_two :
    (u : Bool) (c0 c1 : ℕ) (bytes : List ℕ) → 3 ≤ length (padded u (c0 ∷ c1 ∷ bytes))
unfolding padded
length-padded_two u c0 c1 [] = omega arith
length-padded_two u c0 c1 (c2 ∷ bytes) = omega arith

-- The tests of `decodeArrayBuffer`, and the length that it computes.
abbrev pub Shape : List ℕ → List ℕ → Type 0
Shape bytes s =
    (is_padding (from_end 3 s) ≡ false)
    × (length s / 2 + (length s + 1) / 4 ≡ length bytes + padding_length s)
    × ((length s % 4 == 1) ≡ false)

pub padded-Shape : (u : Bool) (bytes : List ℕ) → Bytes bytes → Shape bytes (padded u bytes)
unfolding padded padding_length is_padding
padded-Shape u [] h = (refl, refl, refl)
padded-Shape true (b0 ∷ []) (h, _) = (
  refl,
  rw (char_at-padding true (b0 / 4) (omega arith), char_at-padding true (b0 % 4 * 16) (omega arith))
      refl,
  refl,
)
padded-Shape false (b0 ∷ []) (h, _) =
    (char_at-padding false (b0 % 4 * 16) (omega arith), refl, refl)
padded-Shape true (b0 ∷ b1 ∷ []) (h, (k, _)) = (
  char_at-padding true (b0 / 4) (omega arith),
  rw
      (
        char_at-padding true (b0 % 4 * 16 + b1 / 16) (omega arith),
        char_at-padding true (b1 % 16 * 4) (omega arith),
      )
      refl,
  refl,
)
padded-Shape false (b0 ∷ b1 ∷ []) (h, (k, _)) = (
  char_at-padding false (b0 % 4 * 16 + b1 / 16) (omega arith),
  rw (char_at-padding false (b1 % 16 * 4) (omega arith)) refl,
  refl,
)
padded-Shape u (b0 ∷ b1 ∷ b2 ∷ []) (h, (k, (l, _))) = (
  char_at-padding u (b0 % 4 * 16 + b1 / 16) (omega arith),
  rw
      (
        char_at-padding u (b1 % 16 * 4 + b2 / 64) (omega arith),
        char_at-padding u (b2 % 64) (omega arith),
      )
      refl,
  refl,
)
padded-Shape true (b0 ∷ b1 ∷ b2 ∷ c0 ∷ []) (h, (k, (l, (m, _)))) = (
  char_at-padding true (b2 % 64) (omega arith),
  rw (char_at-padding true (c0 / 4) (omega arith), char_at-padding true (c0 % 4 * 16) (omega arith))
      refl,
  refl,
)
padded-Shape false (b0 ∷ b1 ∷ b2 ∷ c0 ∷ []) (h, (k, (l, (m, _)))) =
    (char_at-padding false (c0 % 4 * 16) (omega arith), refl, refl)
padded-Shape u (b0 ∷ b1 ∷ b2 ∷ c0 ∷ c1 ∷ bytes) (h, (k, (l, more))) =
    let (third, size, rest) = padded-Shape u (c0 ∷ c1 ∷ bytes) more in
    let s = padded u (c0 ∷ c1 ∷ bytes) in
    (
      rw (from_end-four 3 _ _ _ _ s (length-padded_two u c0 c1 bytes)) third,
      rw (padding_length-four _ _ _ _ s (length-padded u c0 (c1 ∷ bytes))) (omega (arith, size)),
      ground arith,
    )
