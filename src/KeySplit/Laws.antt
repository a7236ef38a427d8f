-- ===== src/KeySplit/Laws.antt =====
-- What a split key gives back, and what a set of shares with one missing says of the key.
use mathlib.Core.List.{Perm}
use web_sdk.Base.{
  ℕ, zero, suc, ◌+◌, ◌-◌, ◌≡◌, ◌≢◌, ◌<◌, refl, sym, ap, ne→==, ◌∙◌, List, [], ◌∷◌, ◌++◌, arith, ok,
  length, append_assoc, subst,
}
use web_sdk.KeySplit.{bxor, random_nonces, split_from, key_split, key_merge}
use web_sdk.KeySplit.Xor.{
  xor_bytes, bxor-eq-xor_bytes, length-xor_bytes, xor_bytes_comm, xor_bytes_cancel,
}
use web_sdk.KeySplit.Merge.{
  xor_bytes-zeros, key_merge-eq-total, HaveSize, total, length-total, key_merge-Perm,
}

module _ (n : ℕ) where
  length-bxor : (a b : List ℕ) → length a ≡ n → length (bxor a b) ≡ n
  length-bxor a b h = ap length (bxor-eq-xor_bytes a b) ∙ length-xor_bytes a b ∙ h

  -- `splits` is what the loop starts with.
  split_from-append :
      (key : List ℕ) (splits nonces : List (List ℕ))
      → split_from key splits nonces ≡ splits ++ split_from key [] nonces
  unfolding split_from
  split_from-append key splits [] = refl
  split_from-append key splits (x ∷ xs) =
      split_from-append (bxor x key) (splits ++ x ∷ []) xs
      ∙ append_assoc splits (x ∷ []) _
      ∙ ap (λ r. splits ++ r) (sym (split_from-append (bxor x key) (x ∷ []) xs))

  split_from-cons :
      (key x : List ℕ) (xs : List (List ℕ))
      → split_from key [] (x ∷ xs) ≡ x ∷ split_from (bxor x key) [] xs
  unfolding split_from
  split_from-cons key x xs = split_from-append (bxor x key) (x ∷ []) xs

  split_from-HaveSize :
      (key : List ℕ) (nonces : List (List ℕ))
      → length key ≡ n
      → HaveSize n nonces
      → HaveSize n (split_from key [] nonces)
  unfolding split_from
  split_from-HaveSize key [] h hs = (h, tt)
  split_from-HaveSize key (x ∷ xs) h (k, hs) =
      subst (HaveSize n) (sym (split_from-cons key x xs))
        (k, split_from-HaveSize (bxor x key) xs (length-bxor x key k) hs)

  -- The shares of a key sum to it.
  total-split_from :
      (key : List ℕ) (nonces : List (List ℕ))
      → length key ≡ n
      → HaveSize n nonces
      → total n (split_from key [] nonces) ≡ key
  unfolding split_from
  total-split_from key [] h hs = xor_bytes-zeros n key h
  total-split_from key (x ∷ xs) h (k, hs) =
      ap (total n) (split_from-cons key x xs)
      ∙ ap (xor_bytes x)
          (total-split_from (bxor x key) xs (length-bxor x key k) hs ∙ bxor-eq-xor_bytes x key)
      ∙ xor_bytes_cancel x key (k ∙ sym h)

  length-split_from :
      (key : List ℕ) (nonces : List (List ℕ))
      → length (split_from key [] nonces) ≡ length nonces + 1
  unfolding split_from
  length-split_from key [] = omega arith
  length-split_from key (x ∷ xs) =
      omega (arith, ap length (split_from-cons key x xs), length-split_from (bxor x key) xs)

-- What `randomBytes` promises: as many bytes as are asked for.
abbrev pub GivesLength : (ℕ → ℕ → List ℕ) → Type 0
GivesLength random_bytes = (i len : ℕ) → length (random_bytes i len) ≡ len

random_nonces-HaveSize :
    (random_bytes : ℕ → ℕ → List ℕ) (len count i : ℕ)
    → GivesLength random_bytes
    → HaveSize len (random_nonces random_bytes len count i)
unfolding random_nonces
random_nonces-HaveSize random_bytes len zero i g = tt
random_nonces-HaveSize random_bytes len (suc count) i g =
    (g i len, random_nonces-HaveSize random_bytes len count (i + 1) g)

length-random_nonces :
    (random_bytes : ℕ → ℕ → List ℕ) (len count i : ℕ)
    → length (random_nonces random_bytes len count i) ≡ count
unfolding random_nonces
length-random_nonces random_bytes len zero i = refl
length-random_nonces random_bytes len (suc count) i =
    ap suc (length-random_nonces random_bytes len count (i + 1))

-- Shares that sum to the key merge to it in any order.
merge_shares :
    (key : List ℕ) (ss : List (List ℕ))
    → HaveSize (length key) ss
    → 0 < length ss
    → total (length key) ss ≡ key
    → (arrived : List (List ℕ)) → Perm ss arrived
    → key_merge arrived ≡ ok key
merge_shares key [] h pos e arrived p = absurd (omega arith)
merge_shares key (s ∷ ss) h pos e arrived p =
    sym (key_merge-Perm (length key) (s ∷ ss) arrived p h)
    ∙ key_merge-eq-total (length key) (s ∷ ss) h
    ∙ ap ok e

key_split_one :
    (random_bytes : ℕ → ℕ → List ℕ) (key : List ℕ) → key_split random_bytes key 1 ≡ ok (key ∷ [])
unfolding key_split
key_split_one random_bytes key = refl

key_split_many :
    (random_bytes : ℕ → ℕ → List ℕ) (key : List ℕ) (m : ℕ)
    → key_split random_bytes key (suc (suc m))
      ≡ ok (split_from key [] (random_nonces random_bytes (length key) (suc m) 0))
unfolding key_split
key_split_many random_bytes key m =
    rw (ne→== (suc (suc m)) 0 (omega arith), ne→== (suc (suc m)) 1 (omega arith))
      (ap (λ c. ok (split_from key [] (random_nonces random_bytes (length key) c 0))) pred_count)
  where
    pred_count : suc (suc m) - 1 ≡ suc m
    pred_count = omega arith

-- Splitting a key into n shares, n at least 1, gives n shares of the key's size; whatever the noise
-- was, merging them in any order gives the key back.
pub key_merge-split :
    (random_bytes : ℕ → ℕ → List ℕ) (key : List ℕ) (n : ℕ)
    → GivesLength random_bytes
    → n ≢ 0
    → (shares : List (List ℕ)) × (key_split random_bytes key n ≡ ok shares)
      × (length shares ≡ n)
      × HaveSize (length key) shares
      × ((arrived : List (List ℕ)) → Perm shares arrived → key_merge arrived ≡ ok key)
key_merge-split random_bytes key zero g h = absurd (h refl)
key_merge-split random_bytes key (suc zero) g h = (
  key ∷ [],
  key_split_one random_bytes key,
  refl,
  (refl, tt),
  merge_shares key (key ∷ []) (refl, tt) (omega arith) (xor_bytes-zeros (length key) key refl),
)
key_merge-split random_bytes key (suc (suc m)) g h =
    let nonces = random_nonces random_bytes (length key) (suc m) 0 in
    let sized = random_nonces-HaveSize random_bytes (length key) (suc m) 0 g in
    let shares = split_from key [] nonces in
    let count : length shares ≡ suc (suc m) = omega (
      arith,
      length-split_from (length key) key nonces,
      length-random_nonces random_bytes (length key) (suc m) 0,
    ) in
    let shares_sized = split_from-HaveSize (length key) key nonces refl sized in
    (
      shares,
      key_split_many random_bytes key m,
      count,
      shares_sized,
      merge_shares key shares shares_sized (omega arith)
          (total-split_from (length key) key nonces refl sized),
    )

-- Shares of one size from which one share is missing fit every key of that size: some value of the
-- missing share makes them merge to it.
pub key_merge_any_key :
    (key : List ℕ) (known : List (List ℕ))
    → HaveSize (length key) known
    → (missing : List ℕ) × (length missing ≡ length key)
      × ((arrived : List (List ℕ)) → Perm (missing ∷ known) arrived → key_merge arrived ≡ ok key)
key_merge_any_key key known h =
    let rest = total (length key) known in
    let size = length-total (length key) known h in
    let missing = xor_bytes rest key in
    let missing_size = length-xor_bytes rest key ∙ size in
    (
      missing,
      missing_size,
      merge_shares key (missing ∷ known) (missing_size, h) (omega arith)
          (xor_bytes_comm missing rest (missing_size ∙ sym size) ∙ xor_bytes_cancel rest key size),
    )
