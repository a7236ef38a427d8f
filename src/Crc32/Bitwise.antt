-- ===== src/Crc32/Bitwise.antt =====
-- The table of lib/tdf3/src/utils/buffer-crc32.ts against the division bit by bit.
use Prim.Native.Nat.{bit_xor}
use web_sdk.Base.{
  ℕ, zero, suc, ◌+◌, ◌*◌, ◌/◌, ◌%◌, ◌<◌, ◌≡◌, refl, sym, ap, ◌∙◌, List, [], ◌∷◌, All, arith, get_or,
  true, ◌==◌, if◌then◌else◌, Bool-cases, inl, inr,
}
use web_sdk.Base.Xor.{zero-bit_xor, bit_xor_step, bit_xor-zero, bit_xor_comm, bit_xor_assoc}
use web_sdk.Base.Table.{all_below, all_below_sound}
use web_sdk.Crc32.{crc_table, crc_round, crc_loop, unsigned}

-- One step of the bitwise division by the polynomial of CRC-32, its bits reversed.
unfoldable pub shift : ℕ → ℕ
shift c = if c % 2 == 1 then bit_xor (c / 2) 0xedb88320 else c / 2

unfoldable pub shifts : ℕ → ℕ → ℕ
unfolding shift
shifts zero c = c
shifts (suc k) c = shifts k (shift c)

-- The register by the definition: each byte is added to it, and it is then divided bit by bit.
unfoldable pub reference_loop : ℕ → List ℕ → ℕ
unfolding shifts
reference_loop crc [] = crc
reference_loop crc (byte ∷ buf) = reference_loop (shifts 8 (bit_xor crc byte)) buf

table_is_shift8 : all_below 256 (λ i. get_or crc_table i 0 == shifts 8 i) ≡ true
unfolding all_below shifts
table_is_shift8 = refl

==-eq : (a b : ℕ) → (a == b) ≡ true → a ≡ b
==-eq a b e = ground arith

table-shifts : (i : ℕ) → i < 256 → get_or crc_table i 0 ≡ shifts 8 i
table-shifts i h =
    ==-eq (get_or crc_table i 0) (shifts 8 i)
      (all_below_sound 256 (λ i. get_or crc_table i 0 == shifts 8 i) i table_is_shift8 h)

half : (n : ℕ) → n * 2 / 2 ≡ n
half n = omega arith

half-bit_xor : (a b : ℕ) → bit_xor a b / 2 ≡ bit_xor (a / 2) (b / 2)
half-bit_xor a b = omega (arith, bit_xor_step a b)

swap : (x y z : ℕ) → bit_xor (bit_xor x y) z ≡ bit_xor (bit_xor x z) y
swap x y z =
    bit_xor_assoc x y z ∙ ap (λ r. bit_xor x r) (bit_xor_comm y z) ∙ sym (bit_xor_assoc x z y)

-- The bits above the lowest move down unchanged.
shift_even : (a b : ℕ) → shift (bit_xor a (b * 2)) ≡ bit_xor (shift a) b
unfolding shift
shift_even a b =
    let halves : bit_xor a (b * 2) / 2 ≡ bit_xor (a / 2) b =
      half-bit_xor a (b * 2) ∙ ap (λ r. bit_xor (a / 2) r) (half b) in
    let parity : bit_xor a (b * 2) % 2 ≡ a % 2 = omega (arith, bit_xor_step a (b * 2)) in
    elim (Bool-cases (a % 2 == 1)) [
      | inl odd ↦ rw (parity, halves, odd) (swap (a / 2) b 0xedb88320)
      | inr even ↦ rw (parity, halves, even) refl
    ]

abbrev up : ℕ → ℕ → ℕ
up zero h = h
up (suc k) h = up k h * 2

shifts-up : (k a h : ℕ) → shifts k (bit_xor a (up k h)) ≡ bit_xor (shifts k a) h
unfolding shifts
shifts-up zero a h = refl
shifts-up (suc k) a h = ap (λ r. shifts k r) (shift_even a (up k h)) ∙ shifts-up k (shift a) h

abbrev power : ℕ → ℕ
power zero = 1
power (suc k) = power k * 2

up-add : (k lo h : ℕ) → lo < power k → bit_xor lo (up k h) ≡ lo + up k h
up-add zero zero h l = omega (arith, zero-bit_xor h)
up-add zero (suc lo) h l = absurd (omega arith)
up-add (suc k) lo h l = omega (
  arith,
  bit_xor_step lo (up k h * 2),
  ap (λ r. bit_xor (lo / 2) r) (half (up k h)),
  up-add k (lo / 2) h (omega arith),
)

down : ℕ → ℕ → ℕ
down zero a = a
down (suc k) a = down k (a / 2)

down-bit_xor : (k a b : ℕ) → down k (bit_xor a b) ≡ bit_xor (down k a) (down k b)
unfolding down
down-bit_xor zero a b = refl
down-bit_xor (suc k) a b = ap (λ r. down k r) (half-bit_xor a b) ∙ down-bit_xor k (a / 2) (b / 2)

down8 : (a : ℕ) → down 8 a ≡ a / 256
unfolding down
down8 a = omega arith

-- Dividing by 256 forgets an added byte.
above_byte : (crc byte : ℕ) → byte < 256 → bit_xor crc byte / 256 ≡ crc / 256
above_byte crc byte h =
    sym (down8 (bit_xor crc byte))
    ∙ down-bit_xor 8 crc byte
    ∙ ap (λ r. bit_xor (down 8 crc) r) zero_byte
    ∙ bit_xor-zero (down 8 crc)
    ∙ down8 crc
  where
    zero_byte : down 8 byte ≡ 0
    zero_byte = omega (arith, down8 byte)

-- Eight steps on a register are the entry of its lowest byte, and the bytes above it moved down.
shifts-table : (x : ℕ) → shifts 8 x ≡ bit_xor (get_or crc_table (x % 256) 0) (x / 256)
shifts-table x =
    ap (λ r. shifts 8 r) (sym joined)
    ∙ shifts-up 8 (x % 256) (x / 256)
    ∙ ap (λ r. bit_xor r (x / 256)) (sym (table-shifts (x % 256) (omega arith)))
  where
    joined : bit_xor (x % 256) (up 8 (x / 256)) ≡ x
    joined = up-add 8 (x % 256) (x / 256) (omega arith) ∙ omega arith

round-shift8 : (crc byte : ℕ) → byte < 256 → crc_round crc byte ≡ shifts 8 (bit_xor crc byte)
unfolding crc_round
round-shift8 crc byte h =
    ap (λ r. bit_xor (get_or crc_table (bit_xor crc byte % 256) 0) r) (sym (above_byte crc byte h))
    ∙ sym (shifts-table (bit_xor crc byte))

abbrev pub Byte : ℕ → Type 0
Byte b = b < 256

loop-reference : (crc : ℕ) (buf : List ℕ) → All Byte buf → crc_loop crc buf ≡ reference_loop crc buf
unfolding crc_loop reference_loop
loop-reference crc [] h = refl
loop-reference crc (byte ∷ buf) (b, h) =
    ap (λ r. crc_loop r buf) (round-shift8 crc byte b)
    ∙ loop-reference (shifts 8 (bit_xor crc byte)) buf h

-- On bytes, the checksum from 0 on is CRC-32 as its definition has it, without a table.
pub unsigned-reference :
    (buf : List ℕ)
    → All Byte buf
    → unsigned buf 0 ≡ bit_xor (reference_loop 0xffffffff buf) 0xffffffff
unfolding unsigned
unsigned-reference buf h = ap (λ r. bit_xor r 0xffffffff) (loop-reference 0xffffffff buf h)
