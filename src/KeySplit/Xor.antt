-- ===== src/KeySplit/Xor.antt =====
-- `bxor` is the bytewise exclusive or, at the length of its first argument.
use Prim.Native.Nat.{bit_xor}
use web_sdk.Base.{
  ℕ, zero, suc, ◌+◌, ◌≡◌, refl, sym, ap, ◌∙◌, List, [], ◌∷◌, ◌++◌, arith, set, length, append-nil,
  length-append, append_assoc,
}
use web_sdk.Base.Xor.{zero-bit_xor, bit_xor_self, bit_xor_comm, bit_xor_assoc}
use web_sdk.Bytes.{zeros, byte_at}
use web_sdk.Bytes.Concat.{set-append_self}
use web_sdk.KeySplit.{bxor_from, bxor}

-- The specification: a byte that the second list lacks counts as 0.
abbrev pub xor_bytes : List ℕ → List ℕ → List ℕ
xor_bytes [] ys = []
xor_bytes (x ∷ xs) [] = bit_xor x 0 ∷ xor_bytes xs []
xor_bytes (x ∷ xs) (y ∷ ys) = bit_xor x y ∷ xor_bytes xs ys

abbrev tail_of : List ℕ → List ℕ
tail_of [] = []
tail_of (y ∷ ys) = ys

byte_at-tail_of : (ys : List ℕ) (j : ℕ) → byte_at (tail_of ys) j ≡ byte_at ys (suc j)
byte_at-tail_of [] j = refl
byte_at-tail_of (y ∷ ys) j = refl

xor_bytes_cons :
    (x : ℕ) (xs ys : List ℕ)
    → xor_bytes (x ∷ xs) ys ≡ bit_xor x (byte_at ys 0) ∷ xor_bytes xs (tail_of ys)
xor_bytes_cons x xs [] = refl
xor_bytes_cons x xs (y ∷ ys) = refl

set_past_end : (xs : List ℕ) (n v : ℕ) → n ≡ length xs → set xs n v ≡ xs
set_past_end [] n v h = refl
set_past_end (x ∷ xs) zero v h = absurd (omega arith)
set_past_end (x ∷ xs) (suc n) v h = ap (λ r. x ∷ r) (set_past_end xs n v (omega arith))

bxor_from-suc :
    (rounds i : ℕ) (b1 b2 result : List ℕ)
    → bxor_from (suc rounds) i b1 b2 result
      ≡ bxor_from rounds (i + 1) b1 b2 (set result i (bit_xor (byte_at b1 i) (byte_at b2 i)))
unfolding bxor_from
bxor_from-suc rounds i b1 b2 result = refl

bxor_from_last :
    (b1 b2 result : List ℕ) (n : ℕ) → n ≡ length result → bxor_from 1 n b1 b2 result ≡ result
unfolding bxor_from
bxor_from_last b1 b2 result n h = set_past_end result n _ h

-- With `n` bytes written, the loop reads both arguments from `n` on.
bxor_from-append :
    (xs ys b1 b2 written : List ℕ) (n : ℕ)
    → n ≡ length written
    → ((j : ℕ) → byte_at b1 (n + j) ≡ byte_at xs j)
    → ((j : ℕ) → byte_at b2 (n + j) ≡ byte_at ys j)
    → bxor_from (suc (length xs)) n b1 b2 (written ++ zeros (length xs))
      ≡ written ++ xor_bytes xs ys
bxor_from-append [] ys b1 b2 written n h p q = rw append-nil (bxor_from_last b1 b2 written n h)
bxor_from-append (x ∷ xs) ys b1 b2 written n h p q =
    bxor_from-suc (suc (length xs)) n b1 b2 _
    ∙ ap (bxor_from (suc (length xs)) (n + 1) b1 b2) (set-append_self written _ 0 v n h)
    ∙ bxor_from-append xs (tail_of ys) b1 b2 (written ++ v ∷ []) (n + 1) grown
        (λ j. ap (byte_at b1) (omega arith) ∙ p (suc j))
        (λ j. ap (byte_at b2) (omega arith) ∙ q (suc j) ∙ sym (byte_at-tail_of ys j))
    ∙ append_assoc written (v ∷ []) (xor_bytes xs (tail_of ys))
    ∙ ap (λ r. written ++ r)
        (ap (λ b. b ∷ xor_bytes xs (tail_of ys)) head ∙ sym (xor_bytes_cons x xs ys))
  where
    v : ℕ
    v = bit_xor (byte_at b1 n) (byte_at b2 n)

    grown : n + 1 ≡ length (written ++ v ∷ [])
    grown = omega (arith, length-append {0} written (v ∷ []))

    at_zero : n ≡ n + 0
    at_zero = omega arith

    head : v ≡ bit_xor x (byte_at ys 0)
    head = cc (ap (byte_at b1) at_zero, ap (byte_at b2) at_zero, p 0, q 0)

-- `bxor` writes, at each index of its first argument, the exclusive or of the two bytes there, and
-- its extra round writes nothing.
pub bxor-eq-xor_bytes : (b1 b2 : List ℕ) → bxor b1 b2 ≡ xor_bytes b1 b2
unfolding bxor
bxor-eq-xor_bytes b1 b2 =
    ap (λ r. bxor_from r 0 b1 b2 (zeros (length b1))) rounds
    ∙ bxor_from-append b1 b2 b1 b2 [] 0 refl (λ j. ap (byte_at b1) (omega arith))
        (λ j. ap (byte_at b2) (omega arith))
  where
    rounds : length b1 + 1 ≡ suc (length b1)
    rounds = omega arith

pub length-xor_bytes : (xs ys : List ℕ) → length (xor_bytes xs ys) ≡ length xs
length-xor_bytes [] ys = refl
length-xor_bytes (x ∷ xs) [] = ap suc (length-xor_bytes xs [])
length-xor_bytes (x ∷ xs) (y ∷ ys) = ap suc (length-xor_bytes xs ys)

pub xor_bytes_comm : (xs ys : List ℕ) → length xs ≡ length ys → xor_bytes xs ys ≡ xor_bytes ys xs
xor_bytes_comm [] [] h = refl
xor_bytes_comm [] (y ∷ ys) h = absurd (omega arith)
xor_bytes_comm (x ∷ xs) [] h = absurd (omega arith)
xor_bytes_comm (x ∷ xs) (y ∷ ys) h = cc (bit_xor_comm x y, xor_bytes_comm xs ys (omega arith))

pub xor_bytes_assoc :
    (xs ys zs : List ℕ)
    → length xs ≡ length ys
    → length ys ≡ length zs
    → xor_bytes (xor_bytes xs ys) zs ≡ xor_bytes xs (xor_bytes ys zs)
xor_bytes_assoc [] ys zs h k = refl
xor_bytes_assoc (x ∷ xs) [] zs h k = absurd (omega arith)
xor_bytes_assoc (x ∷ xs) (y ∷ ys) [] h k = absurd (omega arith)
xor_bytes_assoc (x ∷ xs) (y ∷ ys) (z ∷ zs) h k =
    cc (bit_xor_assoc x y z, xor_bytes_assoc xs ys zs (omega arith) (omega arith))

-- The same noise twice cancels.
pub xor_bytes_cancel :
    (xs ys : List ℕ) → length xs ≡ length ys → xor_bytes xs (xor_bytes xs ys) ≡ ys
xor_bytes_cancel [] [] h = refl
xor_bytes_cancel [] (y ∷ ys) h = absurd (omega arith)
xor_bytes_cancel (x ∷ xs) [] h = absurd (omega arith)
xor_bytes_cancel (x ∷ xs) (y ∷ ys) h =
    let cancel : bit_xor x (bit_xor x y) ≡ y =
      sym (bit_xor_assoc x x y) ∙ ap (λ t. bit_xor t y) (bit_xor_self x) ∙ zero-bit_xor y in
    cc (cancel, xor_bytes_cancel xs ys (omega arith))
