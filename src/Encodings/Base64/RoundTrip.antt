-- ===== src/Encodings/Base64/RoundTrip.antt =====
-- decodeArrayBuffer of lib/src/encodings/base64.ts reads back what encodeArrayBuffer makes.
use web_sdk.Base.{
  ℕ, zero, suc, ◌+◌, ◌-◌, ◌*◌, ◌/◌, ◌%◌, ◌<◌, ◌≤◌, ◌≡◌, refl, sym, ap, ◌∙◌, Bool, true, false, List,
  [], ◌∷◌, ◌++◌, ok, length, set, arith, append_assoc, append-nil, length-append, All,
}
use web_sdk.Bytes.{zeros, set_all}
use web_sdk.Bytes.Concat.{set_all-append, set-append_self}
use web_sdk.Encodings.Base64.{
  decode_round, decode_loop, encode_array_buffer, decode_array_buffer, first_byte, second_byte,
  third_byte, padding_length,
}
use web_sdk.Encodings.Base64.Letters.{lookup-char_at}
use web_sdk.Encodings.Base64.Padded.{padded, encode_array_buffer-padded}
use web_sdk.Encodings.Base64.Shape.{Bytes, padded-Shape}

set-end : (xs : List ℕ) (i v : ℕ) → length xs ≤ i → set xs i v ≡ xs
set-end [] i v h = refl
set-end (x ∷ xs) zero v h = absurd (omega arith)
set-end (x ∷ xs) (suc i) v h = ap (λ r. x ∷ r) (set-end xs i v (omega arith))

set_all-end : (xs over : List ℕ) (n : ℕ) → length xs ≤ n → set_all xs over n ≡ xs
unfolding set_all
set_all-end xs [] n h = refl
set_all-end xs (b ∷ over) n h = rw (set-end xs n b h) (set_all-end xs over (n + 1) (omega arith))

-- Writes past the end are dropped.
set_all-clipped :
    (xs source over : List ℕ) (n : ℕ)
    → n ≡ length xs
    → set_all (xs ++ zeros (length source)) (source ++ over) n ≡ xs ++ source
unfolding set_all
set_all-clipped xs [] over n h = rw (append-nil xs) (set_all-end xs over n (omega arith))
set_all-clipped xs (b ∷ source) over n h =
    ap (λ r. set_all r (source ++ over) (n + 1))
      (set-append_self xs (zeros (length source)) 0 b n h)
    ∙ set_all-clipped (xs ++ b ∷ []) source over (n + 1)
        (omega (arith, length-append {0} xs (b ∷ [])))
    ∙ append_assoc xs (b ∷ []) source

module _ (b0 b1 b2 : ℕ) where
  first-bits : b0 < 256 → b1 < 256 → (b0 / 4 * 4 + (b0 % 4 * 16 + b1 / 16) / 16) % 256 ≡ b0
  first-bits h k = omega arith

  second-bits :
      b1 < 256 → b2 < 256 → (b0 % 4 * 16 + b1 / 16) % 16 * 16 + (b1 % 16 * 4 + b2 / 64) / 4 ≡ b1
  second-bits k l = omega arith

  third-bits : b2 < 256 → (b1 % 16 * 4 + b2 / 64) % 4 * 64 + b2 % 64 % 64 ≡ b2
  third-bits l = omega arith

three-bytes :
    (b0 b1 b2 : ℕ)
    → b0 < 256
    → b1 < 256
    → b2 < 256
    → (b0 / 4 * 4 + (b0 % 4 * 16 + b1 / 16) / 16) % 256
        ∷ ((b0 % 4 * 16 + b1 / 16) % 16 * 16 + (b1 % 16 * 4 + b2 / 64) / 4)
        ∷ ((b1 % 16 * 4 + b2 / 64) % 4 * 64 + b2 % 64 % 64)
        ∷ []
      ≡ b0 ∷ b1 ∷ b2 ∷ []
three-bytes b0 b1 b2 h k l =
    rw (first-bits b0 b1 b2 h k, second-bits b0 b1 b2 k l, third-bits b0 b1 b2 l) refl

-- What the last round writes of one byte, and of two.
one-written :
    (done : List ℕ) (b0 c d p : ℕ)
    → b0 < 256
    → p ≡ length done
    → ok (set_all (done ++ 0 ∷ []) ((b0 / 4 * 4 + b0 % 4 * 16 / 16) % 256 ∷ c ∷ d ∷ []) p)
      ≡ ok (done ++ b0 ∷ [])
one-written done b0 c d p h e =
    let byte : (b0 / 4 * 4 + b0 % 4 * 16 / 16) % 256 ≡ b0 = omega arith in
    rw byte (ap ok (set_all-clipped done (b0 ∷ []) (c ∷ d ∷ []) p e))

two-written :
    (done : List ℕ) (b0 b1 d p : ℕ)
    → b0 < 256
    → b1 < 256
    → p ≡ length done
    → ok (
        set_all
          (done ++ 0 ∷ 0 ∷ [])
          ((b0 / 4 * 4 + (b0 % 4 * 16 + b1 / 16) / 16) % 256
            ∷ ((b0 % 4 * 16 + b1 / 16) % 16 * 16 + b1 % 16 * 4 / 4)
            ∷ d
            ∷ [])
          p)
      ≡ ok (done ++ b0 ∷ b1 ∷ [])
two-written done b0 b1 d p h k e =
    let second : (b0 % 4 * 16 + b1 / 16) % 16 * 16 + b1 % 16 * 4 / 4 ≡ b1 = omega arith in
    rw (first-bits b0 b1 0 h k, second) (ap ok (set_all-clipped done (b0 ∷ b1 ∷ []) (d ∷ []) p e))

-- The loop writes the bytes behind those that are there.
decode_loop-padded :
    (u : Bool) (done bytes : List ℕ) (p : ℕ)
    → p ≡ length done
    → Bytes bytes
    → decode_loop p (padded u bytes) (done ++ zeros (length bytes)) ≡ ok (done ++ bytes)
unfolding decode_loop padded decode_round first_byte second_byte third_byte
decode_loop-padded u done [] p e h = refl
decode_loop-padded true done (b0 ∷ []) p e (h, _) =
    rw (lookup-char_at true (b0 / 4) (omega arith), lookup-char_at true (b0 % 4 * 16) (omega arith))
      (one-written done b0 _ _ p h e)
decode_loop-padded false done (b0 ∷ []) p e (h, _) =
    rw
      (
        lookup-char_at false (b0 / 4) (omega arith),
        lookup-char_at false (b0 % 4 * 16) (omega arith),
      )
      (one-written done b0 _ _ p h e)
decode_loop-padded true done (b0 ∷ b1 ∷ []) p e (h, (k, _)) =
    rw
      (
        lookup-char_at true (b0 / 4) (omega arith),
        lookup-char_at true (b0 % 4 * 16 + b1 / 16) (omega arith),
        lookup-char_at true (b1 % 16 * 4) (omega arith),
      )
      (two-written done b0 b1 _ p h k e)
decode_loop-padded false done (b0 ∷ b1 ∷ []) p e (h, (k, _)) =
    rw
      (
        lookup-char_at false (b0 / 4) (omega arith),
        lookup-char_at false (b0 % 4 * 16 + b1 / 16) (omega arith),
        lookup-char_at false (b1 % 16 * 4) (omega arith),
      )
      (two-written done b0 b1 _ p h k e)
decode_loop-padded u done (b0 ∷ b1 ∷ b2 ∷ bytes) p e (h, (k, (l, more))) =
    rw
      (
        lookup-char_at u (b0 / 4) (omega arith),
        lookup-char_at u (b0 % 4 * 16 + b1 / 16) (omega arith),
        lookup-char_at u (b1 % 16 * 4 + b2 / 64) (omega arith),
        lookup-char_at u (b2 % 64) (omega arith),
      )
      (ap
          (λ r.
            decode_loop (p + 3) (padded u bytes)
              (set_all (done ++ zeros (suc (suc (suc (length bytes))))) r p))
          (three-bytes b0 b1 b2 h k l)
        ∙ ap (λ r. decode_loop (p + 3) (padded u bytes) r)
            (set_all-append done (b0 ∷ b1 ∷ b2 ∷ []) (zeros (length bytes)) p e
              ∙ sym (append_assoc done (b0 ∷ b1 ∷ b2 ∷ []) (zeros (length bytes))))
        ∙ decode_loop-padded u (done ++ b0 ∷ b1 ∷ b2 ∷ []) bytes (p + 3)
            (omega (arith, length-append {0} done (b0 ∷ b1 ∷ b2 ∷ []))) more
        ∙ ap ok (append_assoc done (b0 ∷ b1 ∷ b2 ∷ []) bytes))

-- `decodeArrayBuffer` reads back the bytes that `encodeArrayBuffer` encodes, in the standard alphabet
-- with its padding and in the one for URLs without.
pub decode_array_buffer-encode_array_buffer :
    (url_safe : Bool) (bytes : List ℕ)
    → All (λ b. b < 256) bytes
    → decode_array_buffer (encode_array_buffer url_safe bytes) ≡ ok bytes
unfolding decode_array_buffer
decode_array_buffer-encode_array_buffer u bytes h =
    let (third, size, rest) = padded-Shape u bytes h in
    let s = padded u bytes in
    let length_known : length s / 2 + (length s + 1) / 4 - padding_length s ≡ length bytes =
      omega (arith, size) in
    rw (encode_array_buffer-padded u bytes)
      (rw (rest, third, length_known) (decode_loop-padded u [] bytes 0 refl h))
