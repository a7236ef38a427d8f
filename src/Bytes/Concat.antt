-- ===== src/Bytes/Concat.antt =====
-- `concatUint8` is concatenation.
use Prim.Native.Nat.add
use mathlib.Core.List.{flatten}
use web_sdk.Base.{
  ℕ, zero, suc, ◌+◌, ◌≡◌, refl, ap, ◌∙◌, List, [], ◌∷◌, ◌++◌, arith, set, length, length-append,
  append_assoc,
}
use web_sdk.Bytes.{zeros, set_all, total_length, copy_from, concat_uint8}

length-flatten_cons :
    (array : List ℕ) (rest : List (List ℕ))
    → length (flatten (array ∷ rest)) ≡ length array + length (flatten rest)
unfolding flatten
length-flatten_cons array rest = length-append array (flatten rest)

pub total_length-flatten :
    (accumulator : ℕ) (arrays : List (List ℕ))
    → total_length accumulator arrays ≡ accumulator + length (flatten arrays)
unfolding total_length flatten
total_length-flatten accumulator [] = omega arith
total_length-flatten accumulator (array ∷ rest) =
    omega (
      arith,
      total_length-flatten (accumulator + length array) rest,
      length-flatten_cons array rest,
    )

pub set-append_self :
    (xs ys : List ℕ) (y b n : ℕ) → n ≡ length xs → set (xs ++ y ∷ ys) n b ≡ (xs ++ b ∷ []) ++ ys
set-append_self [] ys y b zero h = refl
set-append_self [] ys y b (suc n) h = absurd (omega arith)
set-append_self (x ∷ xs) ys y b zero h = absurd (omega arith)
set-append_self (x ∷ xs) ys y b (suc n) h =
    ap (λ r. x ∷ r) (set-append_self xs ys y b n (omega arith))

-- Writing over zeros behind a prefix.
pub set_all-append :
    (xs source more : List ℕ) (n : ℕ)
    → n ≡ length xs
    → set_all (xs ++ (zeros (length source) ++ more)) source n ≡ xs ++ (source ++ more)
unfolding set_all
set_all-append xs [] more n h = refl
set_all-append xs (b ∷ source) more n h =
    ap (λ r. set_all r source (n + 1)) (set-append_self xs (zeros (length source) ++ more) 0 b n h)
    ∙ (set_all-append (xs ++ b ∷ []) source more (n + 1)
          (omega (arith, length-append {0} xs (b ∷ [])))
        ∙ append_assoc xs (b ∷ []) (source ++ more))

zeros-length_append :
    (xs ys : List ℕ) → zeros (length (xs ++ ys)) ≡ zeros (length xs) ++ zeros (length ys)
zeros-length_append [] ys = refl
zeros-length_append (x ∷ xs) ys = ap (λ r. 0 ∷ r) (zeros-length_append xs ys)

copy_from-append :
    (xs : List ℕ) (arrays : List (List ℕ)) (n : ℕ)
    → n ≡ length xs
    → copy_from (xs ++ zeros (length (flatten arrays))) n arrays ≡ xs ++ flatten arrays
unfolding copy_from flatten
copy_from-append xs [] n h = refl
copy_from-append xs (array ∷ rest) n h =
    rw
      (
        zeros-length_append array (flatten rest),
        set_all-append xs array (zeros (length (flatten rest))) n h,
      )
      (rw (← append_assoc xs array (zeros (length (flatten rest)))) (
        copy_from-append (xs ++ array) rest (n + length array)
          (omega (arith, length-append {0} xs array))
        ∙ append_assoc xs array (flatten rest)))

-- `concatUint8` allocates the total length and copies each array to its offset: the result is the
-- concatenation of the arrays, in order.
pub concat_uint8-eq-flatten : (arrays : List (List ℕ)) → concat_uint8 arrays ≡ flatten arrays
unfolding concat_uint8
concat_uint8-eq-flatten arrays =
    rw (total_length-flatten 0 arrays, add.zero) (copy_from-append [] arrays 0 refl)
