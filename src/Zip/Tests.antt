-- ===== src/Zip/Tests.antt =====
-- The zip container run on a small file, and its theorems at it.
use Prim.{tt}
use web_sdk.Base.{
  ℕ, ◌<◌, ◌≡◌, refl, true, List, [], ◌∷◌, ◌++◌, arith, ok, err, Error, ◌>>=◌, length, inl,
}
use web_sdk.Bytes.{read_uint16_le, copy_uint8_arr}
use web_sdk.Utf8
use web_sdk.Zip.Dos.{Date, IsDate}
use web_sdk.Zip.Writer.{write_central_directory_record}
use web_sdk.Zip.Reader.{parse_cd_buffer, get_cd_buffers, slice_extra_fields}
use web_sdk.Zip.RoundTrip.{entry, parse_cd_buffer-write}
use web_sdk.Zip.Directory.{Found, get_cd_buffers-Found}

abbrev moment : Date
moment = record { date = 26; month = 10; full_year = 2024; hours = 7; minutes = 38; seconds = 41 }

moment-IsDate : IsDate moment
moment-IsDate = record {
  date_range = (omega arith, omega arith);
  month_range = omega arith;
  hours_range = omega arith;
  minutes_range = omega arith;
  seconds_range = omega arith;
}

-- `é.p`
abbrev file : List ℕ
file = 233 ∷ b'.' ∷ b'p' ∷ []

name_length : length (Utf8.encode file) < 65536
unfolding Utf8.encode
name_length = omega arith

parse_cd_buffer-write_example :
    (write_central_directory_record true 5000000000 file 70 3735928559 2175008768 moment
      >>= λ bytes. parse_cd_buffer (bytes ++ (80 ∷ 75 ∷ [])))
    ≡ ok (entry true 5000000000 70 file 3735928559 2175008768 moment 28)
parse_cd_buffer-write_example =
    parse_cd_buffer-write file 3735928559 2175008768 moment
      (
        (omega arith, inl (omega arith)),
        ((omega arith, inl (omega arith)), ((omega arith, inl (omega arith)), tt)),
      )
      name_length (omega arith) (omega arith) moment-IsDate 5000000000 70 (80 ∷ 75 ∷ []) true
      (omega arith) (omega arith)

-- Two fields, of two bytes and of none.
abbrev fields : List ℕ
fields = 7 ∷ 0 ∷ 2 ∷ 0 ∷ 65 ∷ 66 ∷ 8 ∷ 0 ∷ 0 ∷ 0 ∷ []

extra_field_tests :
    (slice_extra_fields fields ≡ ok ((8, []) ∷ (7, 65 ∷ 66 ∷ []) ∷ []))
    × (slice_extra_fields (7 ∷ 0 ∷ 2 ∷ 0 ∷ 65 ∷ []) ≡ err Error.invalid_file)
    × (slice_extra_fields (7 ∷ 0 ∷ 0 ∷ 0 ∷ 7 ∷ 0 ∷ 0 ∷ 0 ∷ []) ≡ err Error.invalid_file)
unfolding slice_extra_fields read_uint16_le copy_uint8_arr
extra_field_tests = (refl, refl, refl)

-- A chunk that holds one signature, 23 bytes before its end.
abbrev chunk : List ℕ
chunk =
    9 ∷ 0x50 ∷ 0x4b ∷ 1 ∷ 2 ∷ 0 ∷ 0 ∷ 0 ∷ 0 ∷ 0 ∷ 0 ∷ 0 ∷ 0 ∷ 0 ∷ 0 ∷ 0 ∷ 0 ∷ 0 ∷ 0 ∷ 0 ∷ 0 ∷ 0 ∷ 0
    ∷ 0 ∷ []

get_cd_buffers-Found_example : (start : ℕ) × Found chunk (get_cd_buffers chunk) start
get_cd_buffers-Found_example = get_cd_buffers-Found chunk
