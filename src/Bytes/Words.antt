-- ===== src/Bytes/Words.antt =====
-- Little-endian words: what is written is read back, and a word leaves the other bytes alone.
use web_sdk.Base.{
  true, ◌∙◌, ℕ, zero, suc, ◌+◌, ◌*◌, ◌/◌, ◌%◌, ◌≤◌, ◌<◌, ◌≡◌, refl, List, [], ◌∷◌, ok, err, Error,
  arith, leb, if◌then◌else◌, set, length, length-set, Bool-cases, inl, inr, ◌>>=◌,
}
use web_sdk.Bytes.{
  byte_at, read_uint16_le, read_uint32_le, read_uint64_le, write_uint16_le, write_uint32_le,
  write_uint64_le, max_safe_integer,
}

pub word16 : (n : ℕ) → n < 65536 → n % 256 + n / 256 % 256 * 256 ≡ n
word16 n h = omega arith

pub word32 :
    (n : ℕ)
    → n < 4294967296
    → n % 256 + n / 256 % 256 * 256 + n / 65536 % 256 * 65536 + n / 16777216 % 256 * 16777216 ≡ n
word32 n h = omega arith

pub word64 : (n : ℕ) → n / 4294967296 * 4294967296 + n % 4294967296 ≡ n
word64 n = omega arith

pub byte_at-set_self : (xs : List ℕ) (i v : ℕ) → i < length xs → byte_at (set xs i v) i ≡ v
byte_at-set_self [] i v h = absurd (omega arith)
byte_at-set_self (x ∷ xs) zero v h = refl
byte_at-set_self (x ∷ xs) (suc i) v h = byte_at-set_self xs i v (omega arith)

pub byte_at-set_lt : (xs : List ℕ) (i j v : ℕ) → i < j → byte_at (set xs j v) i ≡ byte_at xs i
byte_at-set_lt [] i j v h = refl
byte_at-set_lt (x ∷ xs) i zero v h = absurd (omega arith)
byte_at-set_lt (x ∷ xs) zero (suc j) v h = refl
byte_at-set_lt (x ∷ xs) (suc i) (suc j) v h = byte_at-set_lt xs i j v (omega arith)

pub byte_at-set_gt : (xs : List ℕ) (i j v : ℕ) → j < i → byte_at (set xs j v) i ≡ byte_at xs i
byte_at-set_gt [] i j v h = refl
byte_at-set_gt (x ∷ xs) zero j v h = absurd (omega arith)
byte_at-set_gt (x ∷ xs) (suc i) zero v h = refl
byte_at-set_gt (x ∷ xs) (suc i) (suc j) v h = byte_at-set_gt xs i j v (omega arith)

module _ (xs : List ℕ) (i a b : ℕ) where
  pub byte_at-set_two :
      i + 2 ≤ length xs
      → (byte_at (set (set xs i a) (i + 1) b) i ≡ a)
        × (byte_at (set (set xs i a) (i + 1) b) (i + 1) ≡ b)
  byte_at-set_two h = (
    byte_at-set_lt _ i (i + 1) b (omega arith) ∙ byte_at-set_self xs i a (omega arith),
    byte_at-set_self (set xs i a) (i + 1) b (omega (arith, length-set {0} xs i a)),
  )

  pub byte_at-set_far : (j : ℕ) → i + 1 < j → byte_at (set (set xs i a) (i + 1) b) j ≡ byte_at xs j
  byte_at-set_far j h =
      byte_at-set_gt _ j (i + 1) b (omega arith) ∙ byte_at-set_gt xs j i a (omega arith)

-- The four bytes that a word write leaves, by two writes of two bytes.
module _ (xs : List ℕ) (i a b c d : ℕ) (h : i + 4 ≤ length xs) where
  abbrev four : List ℕ
  four = set (set (set (set xs i a) (i + 1) b) (i + 2) c) (i + 3) d

  byte_at-four :
      (byte_at four i ≡ a)
      × (byte_at four (i + 1) ≡ b)
      × (byte_at four (i + 2) ≡ c)
      × (byte_at four (i + 3) ≡ d)
  byte_at-four =
      let (p, q) = byte_at-set_two xs i a b (omega arith) in
      let ys = set (set xs i a) (i + 1) b in
      let l : length ys ≡ length xs = length-set (set xs i a) (i + 1) b ∙ length-set xs i a in
      let low : (j : ℕ) → j < i + 2 → byte_at four j ≡ byte_at ys j =
        λ j k. byte_at-set_lt _ j (i + 3) d (omega arith) ∙ byte_at-set_lt _ j (i + 2) c k in
      (
        low i (omega arith) ∙ p,
        low (i + 1) (omega arith) ∙ q,
        byte_at-set_lt _ (i + 2) (i + 3) d (omega arith)
            ∙ byte_at-set_self ys (i + 2) c (omega arith),
        byte_at-set_self (set ys (i + 2) c) (i + 3) d (omega (arith, length-set {0} ys (i + 2) c)),
      )

module _ (buffer : List ℕ) (value offset : ℕ) where
  pub length-write_uint32_le : length (write_uint32_le buffer value offset) ≡ length buffer
  unfolding write_uint32_le
  length-write_uint32_le = simp length-set

  pub read-write_uint16_le :
      offset + 2 ≤ length buffer
      → value < 65536
      → read_uint16_le (write_uint16_le buffer value offset) offset ≡ value
  unfolding read_uint16_le write_uint16_le
  read-write_uint16_le h v =
      let (p, q) = byte_at-set_two buffer offset (value % 256) (value / 256 % 256) h in
      rw (p, q) (word16 value v)

  pub read-write_uint32_le :
      offset + 4 ≤ length buffer
      → value < 4294967296
      → read_uint32_le (write_uint32_le buffer value offset) offset ≡ value
  unfolding read_uint32_le write_uint32_le
  read-write_uint32_le h v =
      let (p, q, r, s) =
        byte_at-four buffer offset (value % 256) (value / 256 % 256) (value / 65536 % 256)
          (value / 16777216 % 256) h in
      rw (p, q, r, s) (word32 value v)

-- A word written behind another leaves that one as it was.
read-write_uint32_le_behind :
    (buffer : List ℕ) (value offset : ℕ)
    → read_uint32_le (write_uint32_le buffer value (offset + 4)) offset
      ≡ read_uint32_le buffer offset
unfolding read_uint32_le write_uint32_le
read-write_uint32_le_behind buffer value offset =
    let low : (j : ℕ)
        → j < offset + 4
        → byte_at (write_uint32_le buffer value (offset + 4)) j ≡ byte_at buffer j =
      λ j k.
        byte_at-set_lt _ j (offset + 4 + 3) _ (omega arith)
        ∙ byte_at-set_lt _ j (offset + 4 + 2) _ (omega arith)
        ∙ byte_at-set_lt _ j (offset + 4 + 1) _ (omega arith)
        ∙ byte_at-set_lt _ j (offset + 4) _ k in
    rw (
      low offset (omega arith),
      low (offset + 1) (omega arith),
      low (offset + 2) (omega arith),
      low (offset + 3) (omega arith),
    )

-- What `writeUInt64LE` accepts, at an offset with room for eight bytes, `readUInt64LE` reads back;
-- it accepts exactly the numbers up to `Number.MAX_SAFE_INTEGER`, and throws on all others.
pub read-write_uint64_le :
    (buffer : List ℕ) (n offset : ℕ)
    → offset + 8 ≤ length buffer
    → (write_uint64_le buffer n offset >>= λ written. read_uint64_le written offset)
      ≡ (if leb n max_safe_integer then ok n else err Error.generic)
unfolding write_uint64_le read_uint64_le
read-write_uint64_le buffer n offset h = elim (Bool-cases (leb n max_safe_integer)) [
  | inl safe ↦ rw safe (rw (upper safe, lower, word64 n, safe) refl)
  | inr unsafe ↦ rw unsafe
]
  where
    low : List ℕ
    low = write_uint32_le buffer (n % 4294967296) offset

    lower :
        read_uint32_le (write_uint32_le low (n / 4294967296) (offset + 4)) offset ≡ n % 4294967296
    lower =
        read-write_uint32_le_behind low (n / 4294967296) offset
        ∙ read-write_uint32_le buffer (n % 4294967296) offset (omega arith) (omega arith)

    upper :
        leb n max_safe_integer ≡ true
        → read_uint32_le (write_uint32_le low (n / 4294967296) (offset + 4)) (offset + 4)
          ≡ n / 4294967296
    upper safe =
        read-write_uint32_le low (n / 4294967296) (offset + 4)
          (omega (arith, length-write_uint32_le buffer (n % 4294967296) offset)) (ground arith)
