-- ===== src/Jwt/Base64Url.antt =====
-- The encoding of the parts of a token (lib/tdf3/src/crypto/jwt.ts), read back, and the parts of a token.
use web_sdk.Base.{
  ℕ, suc, ◌+◌, ◌-◌, ◌*◌, ◌/◌, ◌%◌, ◌<◌, ◌≡◌, refl, ap, ◌∙◌, true, false, not, List, [], ◌∷◌, ◌++◌,
  ok, ◌==◌, if◌then◌else◌, length, replicate, append_assoc, arith, All, Bool-cases, inl, inr,
}
use web_sdk.Base.Table.{all_below, all_below_sound}
use web_sdk.Encodings.Base64.{char_at}
use web_sdk.Encodings.Base64.Padded.{padded, encode_array_buffer-padded}
use web_sdk.Encodings.Base64.RoundTrip.{decode_array_buffer-encode_array_buffer}
use web_sdk.Encodings.Base64.Shape.{Bytes}
use web_sdk.Jwt.{replace_all, base64url_encode, base64url_decode_bytes, split, onto_first}

-- One character of the URL-safe alphabet, in the standard one.
abbrev standard : ℕ → ℕ
standard c = let plus = if c == b'-' then b'+' else c in if plus == b'_' then b'/' else plus

all_standard : all_below 64 (λ i. standard (char_at true i) == char_at false i) ≡ true
unfolding all_below char_at
all_standard = refl

standard-char_at : (i : ℕ) → i < 64 → standard (char_at true i) ≡ char_at false i
standard-char_at i h =
    ground (
      arith,
      all_below_sound 64 (λ i. standard (char_at true i) == char_at false i) i all_standard h,
    )

no_dots : all_below 64 (λ i. not (char_at true i == b'.')) ≡ true
unfolding all_below char_at
no_dots = refl

char_at-dot : (i : ℕ) → i < 64 → (char_at true i == b'.') ≡ false
char_at-dot i h = elim (Bool-cases (char_at true i == b'.')) [
  | inr e ↦ e
  | inl e ↦
      let bad : false ≡ true =
        rw e at (all_below_sound 64 (λ i. not (char_at true i == b'.')) i no_dots h) in
      cc
]

abbrev standards : List ℕ → List ℕ
standards text = replace_all b'_' b'/' (replace_all b'-' b'+' text)

abbrev pads : ℕ → List ℕ
pads n = replicate ((4 - n % 4) % 4) b'='

pads-four : (n : ℕ) → pads (suc (suc (suc (suc n)))) ≡ pads n
pads-four n =
    let same : (4 - suc (suc (suc (suc n))) % 4) % 4 ≡ (4 - n % 4) % 4 = omega arith in
    ap (λ k. replicate k b'=') same

standards-padded :
    (bytes : List ℕ)
    → Bytes bytes
    → standards (padded true bytes) ++ pads (length (standards (padded true bytes)))
      ≡ padded false bytes
unfolding padded
standards-padded [] h = refl
standards-padded (b0 ∷ []) (h, _) =
    rw (standard-char_at (b0 / 4) (omega arith), standard-char_at (b0 % 4 * 16) (omega arith)) refl
standards-padded (b0 ∷ b1 ∷ []) (h, (k, _)) =
    rw
      (
        standard-char_at (b0 / 4) (omega arith),
        standard-char_at (b0 % 4 * 16 + b1 / 16) (omega arith),
        standard-char_at (b1 % 16 * 4) (omega arith),
      )
      refl
standards-padded (b0 ∷ b1 ∷ b2 ∷ bytes) (h, (k, (l, more))) =
    rw
      (
        standard-char_at (b0 / 4) (omega arith),
        standard-char_at (b0 % 4 * 16 + b1 / 16) (omega arith),
        standard-char_at (b1 % 16 * 4 + b2 / 64) (omega arith),
        standard-char_at (b2 % 64) (omega arith),
      )
      (rw (pads-four (length (standards (padded true bytes))), standards-padded bytes more) refl)

pub base64url_decode_bytes-encode :
    (bytes : List ℕ) → Bytes bytes → base64url_decode_bytes (base64url_encode bytes) ≡ ok bytes
unfolding base64url_decode_bytes base64url_encode
base64url_decode_bytes-encode bytes h = rw (encode_array_buffer-padded true bytes) (
    rw (standards-padded bytes h) (
      rw (← encode_array_buffer-padded false bytes)
        (decode_array_buffer-encode_array_buffer false bytes h)))

-- That a text has no dot.
abbrev pub Dotless : List ℕ → Type 0
Dotless text = All (λ c. (c == b'.') ≡ false) text

padded-Dotless : (bytes : List ℕ) → Bytes bytes → Dotless (padded true bytes)
unfolding padded
padded-Dotless [] h = tt
padded-Dotless (b0 ∷ []) (h, _) =
    (char_at-dot (b0 / 4) (omega arith), (char_at-dot (b0 % 4 * 16) (omega arith), tt))
padded-Dotless (b0 ∷ b1 ∷ []) (h, (k, _)) = (
  char_at-dot (b0 / 4) (omega arith),
  (
    char_at-dot (b0 % 4 * 16 + b1 / 16) (omega arith),
    (char_at-dot (b1 % 16 * 4) (omega arith), tt),
  ),
)
padded-Dotless (b0 ∷ b1 ∷ b2 ∷ bytes) (h, (k, (l, more))) = (
  char_at-dot (b0 / 4) (omega arith),
  (
    char_at-dot (b0 % 4 * 16 + b1 / 16) (omega arith),
    (
      char_at-dot (b1 % 16 * 4 + b2 / 64) (omega arith),
      (char_at-dot (b2 % 64) (omega arith), padded-Dotless bytes more),
    ),
  ),
)

pub base64url_encode-Dotless : (bytes : List ℕ) → Bytes bytes → Dotless (base64url_encode bytes)
unfolding base64url_encode
base64url_encode-Dotless bytes h =
    rw (encode_array_buffer-padded true bytes) (padded-Dotless bytes h)

-- The part before the first dot.
split-part :
    (part rest : List ℕ) → Dotless part → split b'.' (part ++ b'.' ∷ rest) ≡ part ∷ split b'.' rest
unfolding split onto_first
split-part [] rest h = refl
split-part (c ∷ part) rest (h, more) = rw (h, split-part part rest more) refl

split-last : (part : List ℕ) → Dotless part → split b'.' part ≡ part ∷ []
unfolding split onto_first
split-last [] h = refl
split-last (c ∷ part) (h, more) = rw (h, split-last part more) refl

pub split-token :
    (a b c : List ℕ)
    → Dotless a
    → Dotless b
    → Dotless c
    → split b'.' ((a ++ b'.' ∷ b) ++ b'.' ∷ c) ≡ a ∷ b ∷ c ∷ []
split-token a b c h k l =
    ap (split b'.') (append_assoc a (b'.' ∷ b) (b'.' ∷ c))
    ∙ split-part a (b ++ b'.' ∷ c) h
    ∙ ap (λ r. a ∷ r) (split-part b c k ∙ ap (λ r. b ∷ r) (split-last c l))
