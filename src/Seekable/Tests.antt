-- ===== src/Seekable/Tests.antt =====
-- Reads of short contents, and the theorems at them.
use mathlib.Core.List.{flatten}
use web_sdk.Base.{
  ℕ, zero, suc, ◌≡◌, refl, true, List, [], ◌∷◌, none, some, Result, ok, err, Error, take, drop,
  arith,
}
use web_sdk.Seekable.{
  pos, negsuc, from_buffer, Fetched, failed, responded, bytes, thrown, aggregate, get_remote_chunk,
  range_header, from, between, pulls, start_reading, Reading,
}
use web_sdk.Seekable.Remote.{Decided, get_remote_chunk-Decided}
use web_sdk.Seekable.Stream.{Serves, pulls-content}

-- The second attempt succeeds.
abbrev recovers : ℕ → Fetched
recovers n = elim n [ zero ↦ failed Error.generic | suc m ↦ responded 206 (ok (7 ∷ [])) ]

abbrev breaks : ℕ → Fetched
breaks n = elim n [
  | zero ↦ failed Error.generic
  | suc m ↦ elim m [ zero ↦ responded 503 (ok []) | suc k ↦ failed Error.tdf ]
]

-- The body of the first response cannot be read.
abbrev interrupted : ℕ → Fetched
interrupted n = responded 200 (err Error.generic)

-- A negative start counts from the end. A range whose end is 0 is asked for without an end.
seekable_tests :
    (from_buffer (1 ∷ 2 ∷ 3 ∷ []) (some (negsuc 1)) none ≡ ok (2 ∷ 3 ∷ []))
    × (get_remote_chunk recovers ≡ (bytes (7 ∷ []), 1000 ∷ []))
    × (get_remote_chunk breaks
        ≡ (aggregate (Error.generic ∷ Error.network ∷ Error.tdf ∷ []), 1000 ∷ 2000 ∷ 4000 ∷ []))
    × (get_remote_chunk interrupted ≡ (thrown Error.generic, []))
    × (range_header (some (pos 5)) (some (pos 0)) ≡ ok (from (pos 5)))
    × (range_header (some (pos 5)) (some (pos 8)) ≡ ok (between (pos 5) 7))
unfolding from_buffer get_remote_chunk range_header
seekable_tests = (refl, refl, refl, refl, refl, refl)

get_remote_chunk-Decided_example : Decided breaks 3 0 [] (get_remote_chunk breaks)
get_remote_chunk-Decided_example = get_remote_chunk-Decided breaks

-- A chunker that returns one byte at a time.
abbrev byte_by_byte : ℕ → ℕ → Result (List ℕ)
byte_by_byte first last = ok (take 1 (drop first (4 ∷ 5 ∷ [])))

byte_by_byte-Serves : Serves byte_by_byte (4 ∷ 5 ∷ [])
unfolding Serves
byte_by_byte-Serves first last h = (1, refl, omega arith, λ more. omega arith)

pulls-content_example :
    (t : Reading) × (pulls byte_by_byte 3 start_reading ≡ ok t)
    × (t.closed ≡ true)
    × (flatten t.enqueued ≡ 4 ∷ 5 ∷ [])
pulls-content_example = pulls-content (4 ∷ 5 ∷ []) byte_by_byte byte_by_byte-Serves 3 (omega arith)
