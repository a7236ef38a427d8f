-- ===== src/Base/Table.antt =====
-- A Boolean test on the numbers below a bound, decided by evaluation.
use web_sdk.Base.{
  ℕ, zero, suc, ◌<◌, ◌≡◌, Bool, true, false, Bool-cases, inl, inr, ◌==◌, if◌then◌else◌, arith,
  subst,
}

unfoldable pub all_below : ℕ → (ℕ → Bool) → Bool
all_below zero test = true
all_below (suc bound) test = let below = all_below bound test in if test bound then below else false

pub all_below_sound :
    (bound : ℕ) (test : ℕ → Bool) (x : ℕ) → all_below bound test ≡ true → x < bound → test x ≡ true
unfolding all_below
all_below_sound zero test x h below = absurd (omega arith)
all_below_sound (suc bound) test x h below = elim (Bool-cases (test bound)) [
  | inr fails ↦ let bad : false ≡ true = rw fails at h in cc
  | inl holds ↦ elim (Bool-cases (x == bound)) [
    | inl last ↦ subst (λ r. test r ≡ true) (ground arith) holds
    | inr lower ↦ all_below_sound bound test x (rw holds at h) (ground arith)
  ]
]
