-- ===== src/Zip/Directory.antt =====
-- `getCDBuffers` of lib/tdf3/src/utils/zip-reader.ts: the records it finds.
use mathlib.Core.List.{flatten}
use web_sdk.Base.{
  ℕ, zero, suc, ◌+◌, ◌-◌, ◌<◌, ◌≤◌, ◌≡◌, refl, sym, ap, ◌⊎◌, take-append-drop, ◌∙◌, false, List, [],
  ◌∷◌, ◌++◌, ◌==◌, All, length, arith, slice, take, drop, Bool-cases, inl, inr, subst, leb,
}
use Prim.{tt}
use web_sdk.Bytes.{byte_at, read_uint32_le}
use web_sdk.Zip.Writer.{cd_signature}
use web_sdk.Zip.Reader.{cd_loop, reverse_onto, get_cd_buffers}

-- A buffer that starts with the signature of a central directory record, and has its 22 bytes.
abbrev pub Signed : List ℕ → Type 0
Signed buffer = read_uint32_le buffer 0 ≡ cd_signature

drop_nil : (n : ℕ) → drop {A = ℕ} n [] ≡ []
drop_nil zero = refl
drop_nil (suc n) = refl

drop-length : (xs : List ℕ) → drop (length xs) xs ≡ []
drop-length [] = refl
drop-length (x ∷ xs) = drop-length xs

room : (a b : ℕ) → (a - b ≡ 0) ⊎ (a - b + b ≤ a)
room a b = elim (Bool-cases (leb b a)) [ inl h ↦ inr (ground arith) | inr h ↦ inl (ground arith) ]

pub drop-drop : (m i last : ℕ) (xs : List ℕ) → last ≡ i + m → drop m (drop i xs) ≡ drop last xs
drop-drop m zero last xs h = ap (λ r. drop r xs) (omega arith)
drop-drop m (suc i) last [] h = drop_nil m ∙ sym (drop_nil last)
drop-drop m (suc i) zero (x ∷ xs) h = absurd (omega arith)
drop-drop m (suc i) (suc last) (x ∷ xs) h = drop-drop m i last xs (omega arith)

slice-append_drop :
    (chunk : List ℕ) (i last : ℕ) → i ≤ last → slice chunk i last ++ drop last chunk ≡ drop i chunk
slice-append_drop chunk i last h =
    ap (λ r. slice chunk i last ++ r) (sym (drop-drop (last - i) i last chunk (omega arith)))
    ∙ take-append-drop (last - i) (drop i chunk)

byte_at-take : (m k : ℕ) (xs : List ℕ) → k < m → byte_at (take m xs) k ≡ byte_at xs k
byte_at-take zero k xs h = absurd (omega arith)
byte_at-take (suc m) k [] h = refl
byte_at-take (suc m) zero (x ∷ xs) h = refl
byte_at-take (suc m) (suc k) (x ∷ xs) h = byte_at-take m k xs (omega arith)

byte_at-drop : (i k j : ℕ) (xs : List ℕ) → j ≡ i + k → byte_at (drop i xs) k ≡ byte_at xs j
byte_at-drop zero k j xs h = ap (λ r. byte_at xs r) (omega arith)
byte_at-drop (suc i) k j [] h = refl
byte_at-drop (suc i) k zero (x ∷ xs) h = absurd (omega arith)
byte_at-drop (suc i) k (suc j) (x ∷ xs) h = byte_at-drop i k j xs (omega arith)

module _ (chunk : List ℕ) (i last : ℕ) (h : i + 4 ≤ last) where
  slice_byte : (k j : ℕ) → k < 4 → j ≡ i + k → byte_at (slice chunk i last) k ≡ byte_at chunk j
  slice_byte k j l e =
      byte_at-take (last - i) k (drop i chunk) (omega arith) ∙ byte_at-drop i k j chunk e

  read_uint32_le-slice : read_uint32_le (slice chunk i last) 0 ≡ read_uint32_le chunk i
  unfolding read_uint32_le
  read_uint32_le-slice = rw (
    slice_byte 0 i (omega arith) (omega arith),
    slice_byte 1 (i + 1) (omega arith) (omega arith),
    slice_byte 2 (i + 2) (omega arith) (omega arith),
    slice_byte 3 (i + 3) (omega arith) (omega arith),
  )

-- What a search has found from `start` on, with `buffers` in the order of the file.
abbrev pub Found : List ℕ → List (List ℕ) → ℕ → Type 0
Found chunk buffers start =
    (flatten buffers ≡ drop start chunk)
    × All Signed buffers
    × ((j : ℕ) → j + 22 < start → (read_uint32_le chunk j == cd_signature) ≡ false)

cd_loop-Found :
    (chunk : List ℕ) (fuel n last : ℕ) (later : List (List ℕ))
    → n ≤ fuel
    → (n ≡ 0) ⊎ (n + 21 ≤ last)
    → flatten later ≡ drop last chunk
    → All Signed later
    → ((j : ℕ) → n ≤ j → j + 22 < last → (read_uint32_le chunk j == cd_signature) ≡ false)
    → (start : ℕ) × Found chunk (reverse_onto (cd_loop fuel chunk n last) later) start
unfolding cd_loop reverse_onto flatten
cd_loop-Found chunk zero n last later f r e s u = (last, (e, s, λ j h. u j (omega arith) h))
cd_loop-Found chunk (suc fuel) zero last later f r e s u =
    (last, (e, s, λ j h. u j (omega arith) h))
cd_loop-Found chunk (suc fuel) (suc i) last later f (inl r) e s u = absurd (omega arith)
cd_loop-Found chunk (suc fuel) (suc i) last later f (inr r) e s u =
    elim (Bool-cases (read_uint32_le chunk i == cd_signature)) [
      | inr miss ↦ rw miss (
          cd_loop-Found chunk fuel i last later (omega arith) (inr (omega arith)) e s (λ j h k.
            elim (Bool-cases (j == i)) [
              | inl same ↦
                  subst (λ r. (read_uint32_le chunk r == cd_signature) ≡ false) (ground arith) miss
              | inr other ↦ u j (ground arith) k
            ]))
      | inl hit ↦ rw hit (
          cd_loop-Found chunk fuel (i - 22) i (slice chunk i last ∷ later) (omega arith)
            (elim (room i 22) [ inl z ↦ inl z | inr l ↦ inr (omega arith) ])
            (ap (λ r. slice chunk i last ++ r) e ∙ slice-append_drop chunk i last (omega arith))
            (read_uint32_le-slice chunk i last (omega arith) ∙ ground arith, s)
            (λ j h k. absurd (omega arith)))
    ]

-- The buffers that `getCDBuffers` returns are consecutive and end with the chunk: one after the
-- other they are the chunk from some offset on. Each starts with the signature of a central
-- directory record, and no signature stands more than 22 bytes before them.
pub get_cd_buffers-Found : (chunk : List ℕ) → (start : ℕ) × Found chunk (get_cd_buffers chunk) start
unfolding get_cd_buffers flatten
get_cd_buffers-Found chunk =
    cd_loop-Found chunk (length chunk - 21) (length chunk - 21) (length chunk) [] (omega arith)
      (room (length chunk) 21) (sym (drop-length chunk)) tt (λ j h k. absurd (omega arith))
