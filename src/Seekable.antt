-- ===== src/Seekable.antt =====
-- Data read in pieces (lib/src/seekable.ts). The responses of `fetch`, one for each attempt, are a parameter.
pub mod Stream
pub mod Remote
mod Tests
use web_sdk.Base.{
  ℕ, zero, suc, ◌+◌, ◌-◌, ◌*◌, ◌^◌, Bool, true, false, ◌&&◌, List, [], ◌∷◌, ◌++◌, Option, none,
  some, Result, ok, err, Error, leb, ltb, ◌==◌, if◌then◌else◌, length, slice, min, ◌>>=◌,
}

-- A bound of a range: a number, or, as -(n + 1), the (n + 1)-th byte from the end.
pub data Index : Type 0 where
  pos negsuc : ℕ → Index

-- The relative index of `TypedArray.slice`.
unfoldable pub relative : ℕ → Index → ℕ
relative len (pos i) = min i len
relative len (negsuc i) = len - suc i

unfoldable pub start_of : ℕ → Option Index → ℕ
unfolding relative
start_of len none = 0
start_of len (some i) = relative len i

unfoldable pub end_of : ℕ → Option Index → ℕ
unfolding relative
end_of len none = len
end_of len (some i) = relative len i

-- fromBuffer, and fromString over the bytes of the text; fromBrowserFile slices a Blob in the same way.
unfoldable pub from_buffer : List ℕ → Option Index → Option Index → Result (List ℕ)
unfolding start_of end_of
from_buffer source byte_start byte_end =
    ok (slice source (start_of (length source) byte_start) (end_of (length source) byte_end))

-- What an attempt to fetch comes to: `fetch` rejects with an error, or there is a response with its status, whose
-- body is read or fails to be read.
pub data Fetched : Type 0 where
  failed : Error → Fetched
  responded : ℕ → Result (List ℕ) → Fetched

-- What `getRemoteChunk` returns or throws; `aggregate` is its AggregateError.
pub data Answer : Type 0 where
  bytes : List ℕ → Answer
  thrown : Error → Answer
  aggregate : List Error → Answer

-- An attempt that is not the last word is repeated after its error is noted.
pub data Attempt : Type 0 where
  answers : Answer → Attempt
  retries : Error → Attempt

-- What `arrayBuffer` throws is not caught.
unfoldable pub answer_of : Result (List ℕ) → Answer
answer_of (ok body) = bytes body
answer_of (err e) = thrown e

unfoldable pub attempt : Fetched → Attempt
unfolding answer_of
attempt (failed e) = retries e
attempt (responded status body) =
    if leb 200 status && ltb status 300
    then answers (answer_of body)
    else if status == 416
    then answers (thrown Error.invalid_file)
    else if status == 404
    then answers (thrown Error.invalid_file)
    else retries Error.network

module _ (fetch : ℕ → Fetched) where
  -- The loop, on the rounds left, with the milliseconds that it sleeps.
  unfoldable pub remote_loop : ℕ → ℕ → List Error → Answer × List ℕ
  unfolding attempt
  remote_loop zero i errors = (aggregate errors, [])
  remote_loop (suc rounds) i errors = elim (attempt (fetch i)) [
    | answers answer ↦ (answer, [])
    | retries e ↦
        let (answer, slept) = remote_loop rounds (suc i) (errors ++ e ∷ []) in
        (answer, (2 ^ i * 1000) ∷ slept)
  ]

  unfoldable pub get_remote_chunk : Answer × List ℕ
  unfolding remote_loop
  get_remote_chunk = remote_loop 3 0 []

-- The range that is asked for: `bytes=a` or `bytes=a-b`.
pub data Range : Type 0 where
  whole : Range
  from : Index → Range
  between : Index → ℕ → Range

-- An end of 0 counts as left out.
unfoldable pub range_header : Option Index → Option Index → Result Range
range_header none byte_end = ok whole
range_header (some i) none = ok (from i)
range_header (some i) (some (negsuc j)) = err Error.generic
range_header (some i) (some (pos zero)) = ok (from i)
range_header (some i) (some (pos (suc j))) = ok (between i j)

-- fromUrl, over what a server answers to a range.
unfoldable pub from_url :
    (Range → Answer × List ℕ) → Option Index → Option Index → Result (Answer × List ℕ)
unfolding range_header
from_url get byte_start byte_end = do range ← range_header byte_start byte_end; ok (get range)

abbrev pub chunk_size : ℕ
chunk_size = 8 * 1024 * 1024

-- The stream of a chunker: what it has enqueued, and whether it is closed.
pub record Reading : Type 0 where
  pub offset : ℕ
  pub enqueued : List (List ℕ)
  pub closed : Bool

unfoldable pub take_chunk : Reading → List ℕ → Reading
take_chunk s [] = record s { closed = true }
take_chunk s (b ∷ chunk) = record s {
  offset = s.offset + length (b ∷ chunk);
  enqueued = s.enqueued ++ (b ∷ chunk) ∷ [];
}

module _ (chunker : ℕ → ℕ → Result (List ℕ)) where
  unfoldable pub pull : Reading → Result Reading
  unfolding take_chunk
  pull s = do chunk ← chunker s.offset (s.offset + chunk_size); ok (take_chunk s chunk)

  -- A stream that is closed is pulled no more.
  unfoldable pub pulls : ℕ → Reading → Result Reading
  pulls zero s = ok s
  pulls (suc n) s = let more = pull s >>= λ next. pulls n next in if s.closed then ok s else more

abbrev pub start_reading : Reading
start_reading = record { offset = 0; enqueued = []; closed = false }
