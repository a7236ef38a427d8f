-- ===== src/KeySplit/Merge.antt =====
-- `keyMerge` on shares of one size: a sum of the shares, whatever their order.
use mathlib.Core.Logic.{∥∥₁_elim}
use mathlib.Core.List.{Perm, Permᴰ}
use native.Mathlib.Nat.{ℕ_set}
use web_sdk.Base.{
  ℕ, ◌≡◌, refl, sym, ap, ◌∙◌, subst, List, [], ◌∷◌, Bool, true, false, Result, ok, err, Error,
  if◌then◌else◌, length, All,
}
use web_sdk.Base.Xor.{bit_xor-zero}
use web_sdk.Bytes.{zeros}
use web_sdk.KeySplit.{bxor, merge_from, key_merge}
use web_sdk.KeySplit.Xor.{
  xor_bytes, bxor-eq-xor_bytes, length-xor_bytes, xor_bytes_comm, xor_bytes_assoc,
}
use web_sdk.Base.{length-replicate}

-- Shares of `n` bytes each.
abbrev pub HaveSize : ℕ → List (List ℕ) → Type 0
HaveSize n = All (λ s. length s ≡ n)

-- The exclusive or of all shares.
abbrev pub total : ℕ → List (List ℕ) → List ℕ
total n [] = zeros n
total n (s ∷ ss) = xor_bytes s (total n ss)

pub length-total : (n : ℕ) (ss : List (List ℕ)) → HaveSize n ss → length (total n ss) ≡ n
length-total n [] h = length-replicate n 0
length-total n (s ∷ ss) (h, hs) = length-xor_bytes s (total n ss) ∙ h

pub xor_bytes-zeros : (n : ℕ) (s : List ℕ) → length s ≡ n → xor_bytes s (zeros n) ≡ s
xor_bytes-zeros n s h = subst (λ m. xor_bytes s (zeros m) ≡ s) h (at_length s)
  where
    at_length : (xs : List ℕ) → xor_bytes xs (zeros (length xs)) ≡ xs
    at_length [] = refl
    at_length (x ∷ xs) = cc (bit_xor-zero x, at_length xs)

pub merge_from-eq-total :
    (n : ℕ) (curr : List ℕ) (ss : List (List ℕ))
    → length curr ≡ n
    → HaveSize n ss
    → merge_from curr ss ≡ xor_bytes curr (total n ss)
unfolding merge_from
merge_from-eq-total n curr [] h hs = sym (xor_bytes-zeros n curr h)
merge_from-eq-total n curr (s ∷ ss) h (k, hs) =
    merge_from-eq-total n (bxor curr s) ss
      (ap length (bxor-eq-xor_bytes curr s) ∙ length-xor_bytes curr s ∙ h) hs
    ∙ ap (λ r. xor_bytes r (total n ss)) (bxor-eq-xor_bytes curr s)
    ∙ xor_bytes_assoc curr s (total n ss) (h ∙ sym k) (k ∙ sym (length-total n ss hs))

abbrev pub is_empty : List (List ℕ) → Bool
is_empty [] = true
is_empty (s ∷ ss) = false

pub key_merge-eq-total :
    (n : ℕ) (ss : List (List ℕ))
    → HaveSize n ss
    → key_merge ss ≡ (if is_empty ss then err Error.generic else ok (total n ss))
unfolding key_merge
key_merge-eq-total n [] h = refl
key_merge-eq-total n (s ∷ ss) (h, hs) = ap ok (merge_from-eq-total n s ss h hs)

-- The shares of one list are those of the other, in some order.
record SameMerge (n : ℕ) (ss ts : List (List ℕ)) : Type 0 where
  sized : HaveSize n ts
  sum : total n ss ≡ total n ts
  empty : is_empty ss ≡ is_empty ts

Permᴰ-SameMerge : {n : ℕ} {ss ts : List (List ℕ)} → Permᴰ ss ts → HaveSize n ss → SameMerge n ss ts
Permᴰ-SameMerge Permᴰ.nil h = record { sized = h; sum = refl; empty = refl }
Permᴰ-SameMerge {n} (Permᴰ.cons e p) (h, hs) =
    let r = Permᴰ-SameMerge p hs in
    record { sized = (subst (λ s. length s ≡ n) e h, r.sized); sum = cc (e, r.sum); empty = refl }
Permᴰ-SameMerge {n} (Permᴰ.swap {a} {b} {a'} {b'} {l} e f) (h, (k, hs)) = record {
  sized = (subst (λ s. length s ≡ n) f k, (subst (λ s. length s ≡ n) e h, hs));
  sum = sums;
  empty = refl;
}
  where
    size : length (total n l) ≡ n
    size = length-total n l hs

    exchanged : xor_bytes a (xor_bytes b (total n l)) ≡ xor_bytes b (xor_bytes a (total n l))
    exchanged =
        sym (xor_bytes_assoc a b (total n l) (h ∙ sym k) (k ∙ sym size))
        ∙ ap (λ r. xor_bytes r (total n l)) (xor_bytes_comm a b (h ∙ sym k))
        ∙ xor_bytes_assoc b a (total n l) (k ∙ sym h) (h ∙ sym size)

    sums : total n (a ∷ b ∷ l) ≡ total n (a' ∷ b' ∷ l)
    sums = cc (exchanged, e, f)
Permᴰ-SameMerge (Permᴰ.trans p q) h =
    let r = Permᴰ-SameMerge p h in
    let s = Permᴰ-SameMerge q r.sized in
    record { sized = s.sized; sum = r.sum ∙ s.sum; empty = r.empty ∙ s.empty }

Result-set : IsSet (Result (List ℕ))
Result-set = hlevel ℕ_set

-- The order in which the shares arrive does not matter: merging a permutation of shares of one size
-- gives the same key, or the same error.
pub key_merge-Perm :
    (n : ℕ) (ss ts : List (List ℕ)) → Perm ss ts → HaveSize n ss → key_merge ss ≡ key_merge ts
key_merge-Perm n ss ts p h = ∥∥₁_elim p (Result-set _ _) λ d.
    let r = Permᴰ-SameMerge d h in
    key_merge-eq-total n ss h
    ∙ (ap (λ b. if b then err Error.generic else ok (total n ss)) r.empty)
    ∙ ap (λ t. if is_empty ts then err Error.generic else ok t) r.sum
    ∙ sym (key_merge-eq-total n ts r.sized)
