-- ===== src/Base/Xor.antt =====
-- Laws of `^` on numbers, from the digit recursion that the native `bit_xor` stands for.
use Prim.Native.Nat.{bit_xor, digits, differ, bit_xor-bitwise}
use web_sdk.Base.{ℕ, zero, suc, ◌+◌, ◌*◌, ◌/◌, ◌%◌, ◌≤◌, ◌<◌, ◌≡◌, refl, sym, ap, ◌∙◌, arith}

abbrev xor_digits : ℕ → ℕ → ℕ → ℕ
xor_digits n a b = digits (λ b. b) differ n a b

no_digits : (n b : ℕ) → xor_digits n 0 b ≡ b
no_digits zero b = refl
no_digits (suc n) b = refl

-- Any fuel from the first number on gives the same digits.
enough_digits : (a b n m : ℕ) → a ≤ m → a ≤ n → xor_digits n a b ≡ xor_digits m a b
enough_digits zero b n m h k = no_digits n b ∙ sym (no_digits m b)
enough_digits (suc a) b zero m h k = absurd (omega arith)
enough_digits (suc a) b (suc n) zero h k = absurd (omega arith)
enough_digits (suc a) b (suc n) (suc m) h k =
    let rest = enough_digits (suc a / 2) (b / 2) n m (omega arith) (omega arith) in
    omega (arith, rest)

pub zero-bit_xor : (b : ℕ) → bit_xor 0 b ≡ b
zero-bit_xor b = bit_xor-bitwise 0 b

differ_digit : (x y : ℕ) → x < 2 → y < 2 → differ x y ≡ (x + y) % 2
differ_digit zero y p q = omega arith
differ_digit (suc zero) zero p q = refl
differ_digit (suc zero) (suc zero) p q = refl
differ_digit (suc zero) (suc (suc y)) p q = absurd (omega arith)
differ_digit (suc (suc x)) y p q = absurd (omega arith)

-- The lowest digit, and the digits above it.
pub bit_xor_step : (a b : ℕ) → bit_xor a b ≡ bit_xor (a / 2) (b / 2) * 2 + (a + b) % 2
bit_xor_step zero b = omega (arith, zero-bit_xor b, zero-bit_xor (b / 2))
bit_xor_step (suc a) b = omega (
  arith,
  bit_xor-bitwise (suc a) b,
  bit_xor-bitwise (suc a / 2) (b / 2),
  differ_digit (suc a % 2) (b % 2) (omega arith) (omega arith),
  enough_digits (suc a / 2) (b / 2) a (suc a / 2) (omega arith) (omega arith),
)

self_below : (n a : ℕ) → a ≤ n → bit_xor a a ≡ 0
self_below n zero h = refl
self_below zero (suc a) h = absurd (omega arith)
self_below (suc n) (suc a) h =
    omega (arith, bit_xor_step (suc a) (suc a), self_below n (suc a / 2) (omega arith))

pub bit_xor_self : (a : ℕ) → bit_xor a a ≡ 0
bit_xor_self a = self_below a a (omega arith)

comm_below : (n a b : ℕ) → a ≤ n → b ≤ n → bit_xor a b ≡ bit_xor b a
comm_below zero zero zero p q = refl
comm_below zero (suc a) b p q = absurd (omega arith)
comm_below zero zero (suc b) p q = absurd (omega arith)
comm_below (suc n) a b p q = omega (
  arith,
  bit_xor_step a b,
  bit_xor_step b a,
  comm_below n (a / 2) (b / 2) (omega arith) (omega arith),
)

pub bit_xor_comm : (a b : ℕ) → bit_xor a b ≡ bit_xor b a
bit_xor_comm a b = comm_below (a + b) a b (omega arith) (omega arith)

pub bit_xor-zero : (a : ℕ) → bit_xor a 0 ≡ a
bit_xor-zero a = bit_xor_comm a 0 ∙ zero-bit_xor a

assoc_below :
    (n a b c : ℕ) → a ≤ n → b ≤ n → c ≤ n → bit_xor (bit_xor a b) c ≡ bit_xor a (bit_xor b c)
assoc_below zero zero zero zero p q r = refl
assoc_below zero (suc a) b c p q r = absurd (omega arith)
assoc_below zero zero (suc b) c p q r = absurd (omega arith)
assoc_below zero zero zero (suc c) p q r = absurd (omega arith)
assoc_below (suc n) a b c p q r =
    let ih = assoc_below n (a / 2) (b / 2) (c / 2) (omega arith) (omega arith) (omega arith) in
    omega (
      arith,
      bit_xor_step (bit_xor a b) c,
      bit_xor_step a (bit_xor b c),
      bit_xor_step a b,
      bit_xor_step b c,
      half_left,
      half_right,
      ih,
    )
  where
    half_left : bit_xor (bit_xor a b / 2) (c / 2) ≡ bit_xor (bit_xor (a / 2) (b / 2)) (c / 2)
    half_left = ap (λ t. bit_xor t (c / 2)) (omega (arith, bit_xor_step a b))

    half_right : bit_xor (a / 2) (bit_xor b c / 2) ≡ bit_xor (a / 2) (bit_xor (b / 2) (c / 2))
    half_right = ap (λ t. bit_xor (a / 2) t) (omega (arith, bit_xor_step b c))

pub bit_xor_assoc : (a b c : ℕ) → bit_xor (bit_xor a b) c ≡ bit_xor a (bit_xor b c)
bit_xor_assoc a b c = assoc_below (a + b + c) a b c (omega arith) (omega arith) (omega arith)
