-- ===== src/Crc32/Laws.antt =====
-- lib/tdf3/src/utils/buffer-crc32.ts: the checksum of a file that comes in chunks, and the table.
use Prim.Native.Nat.{bit_xor}
use web_sdk.Base.{
  ℕ, zero, suc, ◌*◌, ◌/◌, ◌%◌, ◌<◌, ◌≡◌, refl, sym, ap, ◌∙◌, true, List, [], ◌∷◌, ◌++◌, arith,
  get_or, ltb,
}
use web_sdk.Base.Xor.{zero-bit_xor, bit_xor_step, bit_xor_self, bit_xor-zero, bit_xor_assoc}
use web_sdk.Base.Table.{all_below, all_below_sound}
use web_sdk.Crc32.{crc_table, crc_round, crc_loop, unsigned}

abbrev power : ℕ → ℕ
power zero = 1
power (suc k) = power k * 2

-- The sum without carry of numbers of `k` bits has `k` bits.
bit_xor-lt : (k a b : ℕ) → a < power k → b < power k → bit_xor a b < power k
bit_xor-lt zero zero b h l = omega (arith, zero-bit_xor b)
bit_xor-lt zero (suc a) b h l = absurd (omega arith)
bit_xor-lt (suc k) a b h l =
    omega (arith, bit_xor_step a b, bit_xor-lt k (a / 2) (b / 2) (omega arith) (omega arith))

ltb-lt : (a b : ℕ) → ltb a b ≡ true → a < b
ltb-lt a b e = ground arith

table_checked : all_below 256 (λ i. ltb (get_or crc_table i 0) 4294967296) ≡ true
unfolding all_below
table_checked = refl

table_entry-lt : (i : ℕ) → i < 256 → get_or crc_table i 0 < 4294967296
table_entry-lt i h =
    let e : ltb (get_or crc_table i 0) 4294967296 ≡ true =
      all_below_sound 256 (λ i. ltb (get_or crc_table i 0) 4294967296) i table_checked h in
    ltb-lt (get_or crc_table i 0) 4294967296 e

crc_round-lt : (crc byte : ℕ) → crc < 4294967296 → crc_round crc byte < 4294967296
unfolding crc_round
crc_round-lt crc byte h =
    bit_xor-lt 32 _ (crc / 256) (table_entry-lt (bit_xor crc byte % 256) (omega arith))
      (omega arith)

crc_loop-lt : (crc : ℕ) (buf : List ℕ) → crc < 4294967296 → crc_loop crc buf < 4294967296
unfolding crc_loop
crc_loop-lt crc [] h = h
crc_loop-lt crc (byte ∷ buf) h = crc_loop-lt (crc_round crc byte) buf (crc_round-lt crc byte h)

crc_loop-append :
    (crc : ℕ) (xs ys : List ℕ) → crc_loop crc (xs ++ ys) ≡ crc_loop (crc_loop crc xs) ys
unfolding crc_loop
crc_loop-append crc [] ys = refl
crc_loop-append crc (x ∷ xs) ys = crc_loop-append (crc_round crc x) xs ys

-- Complementing twice.
complement_twice : (a : ℕ) → bit_xor (bit_xor a 0xffffffff) 0xffffffff ≡ a
complement_twice a =
    bit_xor_assoc a 0xffffffff 0xffffffff
    ∙ ap (λ r. bit_xor a r) (bit_xor_self 0xffffffff)
    ∙ bit_xor-zero a

unsigned-lt : (buf : List ℕ) (previous : ℕ) → unsigned buf previous < 4294967296
unfolding unsigned
unsigned-lt buf previous =
    bit_xor-lt 32 _ 0xffffffff
      (crc_loop-lt _ buf
        (bit_xor-lt 32 (previous % 4294967296) 0xffffffff (omega arith) (omega arith)))
      (omega arith)

-- The checksum of two chunks is that of the second from the first one's checksum on.
pub unsigned-append :
    (xs ys : List ℕ) (previous : ℕ)
    → unsigned (xs ++ ys) previous ≡ unsigned ys (unsigned xs previous)
unfolding unsigned
unsigned-append xs ys previous =
    ap (λ r. bit_xor r 0xffffffff)
      (crc_loop-append start xs ys ∙ ap (λ r. crc_loop r ys) (sym resumed))
  where
    start : ℕ
    start = bit_xor (previous % 4294967296) 0xffffffff

    small : unsigned xs previous % 4294967296 ≡ unsigned xs previous
    small = omega (arith, unsigned-lt xs previous)

    resumed : bit_xor (unsigned xs previous % 4294967296) 0xffffffff ≡ crc_loop start xs
    resumed = ap (λ r. bit_xor r 0xffffffff) small ∙ complement_twice (crc_loop start xs)
