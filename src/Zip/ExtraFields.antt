-- ===== src/Zip/ExtraFields.antt =====
-- `sliceExtraFields` of lib/tdf3/src/utils/zip-reader.ts: the fuel of its loop is enough.
use web_sdk.Base.{
  ℕ, zero, suc, ◌+◌, ◌<◌, ◌≡◌, refl, List, [], ◌∷◌, some, length, arith, Result, ok, err, Error,
  ltb, length-drop, drop, Bool-cases, inl, inr, Option-cases,
}
use web_sdk.Bytes.{copy_uint8_arr, zeros, read_uint16_le}
use web_sdk.Zip.Reader.{slice_loop, slice_extra_fields, or_out_of_fuel, find_field}

-- The field at the start of a buffer.
abbrev found : List ℕ → ℕ × List ℕ
found buffer =
    let n = read_uint16_le buffer 2 in
    (read_uint16_le buffer 0, (copy_uint8_arr buffer (zeros n) 0 4 (4 + n)).0)

-- The loop ends: every round takes four bytes at least.
pub slice_loop-ends :
    (fuel : ℕ) (fields : List (ℕ × List ℕ)) (buffer : List ℕ)
    → length buffer < fuel
    → (r : Result (List (ℕ × List ℕ))) × (slice_loop fuel fields buffer ≡ some r)
unfolding slice_loop
slice_loop-ends zero fields buffer h = absurd (omega arith)
slice_loop-ends (suc fuel) fields buffer h = elim (Bool-cases (ltb 3 (length buffer))) [
  | inr short ↦ (ok fields, rw short refl)
  | inl long ↦ elim (Bool-cases (ltb (length buffer) (4 + read_uint16_le buffer 2))) [
    | inl over ↦ (err Error.invalid_file, rw (long, over) refl)
    | inr fits ↦ elim (Option-cases (find_field (read_uint16_le buffer 0) fields)) [
      | inl new ↦
          let (r, e) =
            slice_loop-ends fuel (found buffer ∷ fields) (drop (4 + read_uint16_le buffer 2) buffer)
              (ground (arith, length-drop {0} (4 + read_uint16_le buffer 2) buffer)) in
          (r, rw (long, fits, new) e)
      | inr (old, e) ↦ (err Error.invalid_file, rw (long, fits, e) refl)
    ]
  ]
]

-- The fuel that `sliceExtraFields` is given is enough: its result is the one its loop returns.
pub slice_extra_fields-ends :
    (buffer : List ℕ) → slice_loop (length buffer + 1) [] buffer ≡ some (slice_extra_fields buffer)
unfolding slice_extra_fields or_out_of_fuel
slice_extra_fields-ends buffer =
    let (r, e) = slice_loop-ends (length buffer + 1) [] buffer (omega arith) in rw e refl
