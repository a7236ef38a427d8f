-- ===== src/KeySplit.antt =====
-- Key splitting over several key access servers (lib/tdf3/src/utils/keysplit.ts).
-- A key is the list of its bytes. `cryptoService.randomBytes`, which is no code of this file, is the
-- parameter `random_bytes`: the bytes that its i-th call gives for a length.
pub mod Xor
pub mod Merge
pub mod Laws
mod Tests
use Prim.Native.Nat.{bit_xor}
use web_sdk.Base.{
  ℕ, zero, suc, ◌+◌, ◌-◌, List, [], ◌∷◌, ◌++◌, Result, ok, err, Error, ◌==◌, if◌then◌else◌, set,
  length,
}
use web_sdk.Bytes.{zeros, byte_at}

-- The loop of `bxor`, which runs once more than there are bytes: the last write is out of range.
pub bxor_from : ℕ → ℕ → List ℕ → List ℕ → List ℕ → List ℕ
bxor_from zero i b1 b2 result = result
bxor_from (suc rounds) i b1 b2 result =
    bxor_from rounds (i + 1) b1 b2 (set result i (bit_xor (byte_at b1 i) (byte_at b2 i)))

unfoldable pub bxor : List ℕ → List ℕ → List ℕ
unfolding bxor_from
bxor b1 b2 = bxor_from (length b1 + 1) 0 b1 b2 (zeros (length b1))

-- `Array.from(new Array(n - 1), () => cryptoService.randomBytes(keyLength))`
pub random_nonces : (ℕ → ℕ → List ℕ) → ℕ → ℕ → ℕ → List (List ℕ)
random_nonces random_bytes key_length zero i = []
random_nonces random_bytes key_length (suc count) i =
    random_bytes i key_length ∷ random_nonces random_bytes key_length count (i + 1)

-- The loop of `keySplit`, with the final `splits.push(currKey)`.
pub split_from : List ℕ → List (List ℕ) → List (List ℕ) → List (List ℕ)
split_from curr_key splits [] = splits ++ curr_key ∷ []
split_from curr_key splits (nonce ∷ nonces) =
    split_from (bxor nonce curr_key) (splits ++ nonce ∷ []) nonces

unfoldable pub key_split : (ℕ → ℕ → List ℕ) → List ℕ → ℕ → Result (List (List ℕ))
unfolding split_from random_nonces
key_split random_bytes key n =
    if n == 0
    then err Error.generic
    else if n == 1
    then ok (key ∷ [])
    else ok (split_from key [] (random_nonces random_bytes (length key) (n - 1) 0))

-- The loop of `keyMerge`.
pub merge_from : List ℕ → List (List ℕ) → List ℕ
merge_from curr_key [] = curr_key
merge_from curr_key (split ∷ splits) = merge_from (bxor curr_key split) splits

unfoldable pub key_merge : List (List ℕ) → Result (List ℕ)
unfolding merge_from
key_merge [] = err Error.generic
key_merge (split ∷ splits) = ok (merge_from split splits)
