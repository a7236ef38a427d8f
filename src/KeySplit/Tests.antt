-- ===== src/KeySplit/Tests.antt =====
-- Key splitting run on small keys, and its theorems at them.
use mathlib.Core.List.{Perm}
use web_sdk.Base.{
  ℕ, ◌+◌, ◌≡◌, refl, List, [], ◌∷◌, arith, ok, err, Error, length, replicate, length-replicate,
}
use web_sdk.KeySplit.{bxor, key_split, key_merge}
use web_sdk.KeySplit.Merge.{HaveSize}
use web_sdk.KeySplit.Laws.{key_merge-split, key_merge_any_key}

-- Not random, but of the length that is asked for.
abbrev noise : ℕ → ℕ → List ℕ
noise i len = replicate len (i + 5)

abbrev key : List ℕ
key = 1 ∷ 2 ∷ 255 ∷ []

split_three :
    key_split noise key 3 ≡ ok ((5 ∷ 5 ∷ 5 ∷ []) ∷ (6 ∷ 6 ∷ 6 ∷ []) ∷ (2 ∷ 1 ∷ 252 ∷ []) ∷ [])
unfolding key_split bxor
split_three = refl

split_none : key_split noise key 0 ≡ err Error.generic
unfolding key_split
split_none = refl

merge_none : key_merge [] ≡ err Error.generic
unfolding key_merge
merge_none = refl

merge_three : key_merge ((2 ∷ 1 ∷ 252 ∷ []) ∷ (5 ∷ 5 ∷ 5 ∷ []) ∷ (6 ∷ 6 ∷ 6 ∷ []) ∷ []) ≡ ok key
unfolding key_merge bxor
merge_three = refl

key_merge-split_example :
    (shares : List (List ℕ)) × (key_split noise key 3 ≡ ok shares)
    × (length shares ≡ 3)
    × HaveSize (length key) shares
    × ((arrived : List (List ℕ)) → Perm shares arrived → key_merge arrived ≡ ok key)
key_merge-split_example =
    key_merge-split noise key 3 (λ i len. length-replicate len (i + 5)) (omega arith)

key_merge_any_key_example :
    (missing : List ℕ) × (length missing ≡ length key)
    × ((arrived : List (List ℕ))
        → Perm (missing ∷ (5 ∷ 5 ∷ 5 ∷ []) ∷ []) arrived
        → key_merge arrived ≡ ok key)
key_merge_any_key_example = key_merge_any_key key ((5 ∷ 5 ∷ 5 ∷ []) ∷ []) (refl, tt)
