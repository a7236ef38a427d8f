-- ===== src/Kas/UnwrapTests.antt =====
-- unwrapKey run on two splits with one server each, and the theorem on its key at the same file.
use mathlib.Core.List.{flatten}
use web_sdk.Base.{◌≡◌, refl, [], ◌∷◌, true, false, none, some, Result, ok, err, Error, Returns}
use web_sdk.KeySplit.{bxor}
use web_sdk.Kas.{KeyAccess, Table}
use web_sdk.Kas.Unwrap.{RewrapResponseData, unwrap_potentials, unwrap_key}
use web_sdk.Kas.Reconstruct.{Reconstructed, unwrap_potentials-Reconstructed}
use web_sdk.Zip.Reader.{same_units}

abbrev first : KeyAccess
first = record { sid = some (b's' ∷ []); url = b'a' ∷ [] }

abbrev second : KeyAccess
second = record { sid = some (b't' ∷ []); url = b'b' ∷ [] }

abbrev two_splits : Table (Table KeyAccess)
two_splits = (b's' ∷ [], (b'a' ∷ [], first) ∷ []) ∷ (b't' ∷ [], (b'b' ∷ [], second) ∷ []) ∷ []

-- Both servers name an obligation of the same name.
abbrev serve : KeyAccess → Result RewrapResponseData
serve kas = ok (record { key = 1 ∷ 2 ∷ []; required_obligations = (b'o' ∷ []) ∷ [] })

abbrev refuse : KeyAccess → Result RewrapResponseData
refuse kas = err Error.unsafe_url

-- Equal shares cancel, an obligation is named once, a single error is thrown as it is, and a split without a
-- server is refused.
unwrap_tests :
    (unwrap_potentials (λ t. t) serve 1 (λ i k. 0) (λ k. 0) two_splits
      ≡ ok (record { reconstructed_key = 0 ∷ 0 ∷ []; required_obligations = (b'o' ∷ []) ∷ [] }))
    × (unwrap_potentials (λ t. t) refuse 1 (λ i k. 0) (λ k. 0) two_splits ≡ err Error.unsafe_url)
    × (unwrap_potentials (λ t. t) serve 1 (λ i k. 0) (λ k. 0) ((b's' ∷ [], []) ∷ two_splits)
        ≡ err Error.unsafe_url)
    × (unwrap_key
          (λ url. ok url)
          (λ t. t)
          serve
          (λ i k. 0)
          (λ k. 0)
          false
          none
          (record { origins = []; allow_all = true })
          (first ∷ second ∷ [])
        ≡ err Error.configuration)
unfolding unwrap_potentials unwrap_key same_units bxor flatten
unwrap_tests = (refl, refl, refl, refl)

unwrap_potentials-Reconstructed_example :
    Returns
      (Reconstructed (λ t. t) serve 1 (λ i k. 0) (λ k. 0) two_splits)
      (unwrap_potentials (λ t. t) serve 1 (λ i k. 0) (λ k. 0) two_splits)
unwrap_potentials-Reconstructed_example =
    unwrap_potentials-Reconstructed (λ t. t) serve 1 (λ i k. 0) (λ k. 0) 2 (λ kas. refl) two_splits
