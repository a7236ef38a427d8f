-- ===== src/Kas/Strip.antt =====
-- rstrip of lib/src/utils.ts.
use web_sdk.Base.{
  ℕ, zero, suc, ◌-◌, ◌<◌, ◌≤◌, ◌≡◌, refl, ap, false, List, [], ◌∷◌, arith, length, take, drop,
  length-take, lt→ltb, Bool-cases, inl, inr,
}
use web_sdk.Zip.Reader.{same_units}
use web_sdk.Kas.{ends_with, rstrip_loop, rstrip}

drop_nothing : (n : ℕ) → drop {A = ℕ} n [] ≡ []
drop_nothing zero = refl
drop_nothing (suc n) = refl

empty-ends_with : (suffix : List ℕ) → 0 < length suffix → ends_with [] suffix ≡ false
unfolding ends_with
empty-ends_with [] h = absurd (omega arith)
empty-ends_with (c ∷ suffix) h = ap (λ r. same_units r (c ∷ suffix)) (drop_nothing _)

rstrip_loop-ends_with :
    (fuel : ℕ) (suffix str : List ℕ)
    → 0 < length suffix
    → length str ≤ fuel
    → ends_with (rstrip_loop fuel suffix str) suffix ≡ false
unfolding rstrip_loop
rstrip_loop-ends_with zero suffix [] h f = empty-ends_with suffix h
rstrip_loop-ends_with (suc fuel) suffix [] h f = empty-ends_with suffix h
rstrip_loop-ends_with zero suffix (c ∷ str) h f = absurd (omega arith)
rstrip_loop-ends_with (suc fuel) suffix (c ∷ str) h f =
    elim (Bool-cases (ends_with (c ∷ str) suffix)) [
      | inr done ↦
          rw (lt→ltb 0 (length (c ∷ str)) (omega arith), lt→ltb 0 (length suffix) h, done) done
      | inl ends ↦
          rw (lt→ltb 0 (length (c ∷ str)) (omega arith), lt→ltb 0 (length suffix) h, ends)
            (rstrip_loop-ends_with fuel suffix (take (length (c ∷ str) - length suffix) (c ∷ str)) h
              (omega (arith, length-take {0} (length (c ∷ str) - length suffix) (c ∷ str))))
    ]

-- Whatever the text, what `rstrip` returns for a suffix that is not empty does not end with it.
pub rstrip-ends_with :
    (str suffix : List ℕ) → 0 < length suffix → ends_with (rstrip str suffix) suffix ≡ false
unfolding rstrip
rstrip-ends_with str suffix h = rstrip_loop-ends_with (length str) suffix str h (omega arith)
