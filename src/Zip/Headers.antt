-- ===== src/Zip/Headers.antt =====
-- The lengths of the headers and records of lib/tdf3/src/utils/zip-writer.ts.
use web_sdk.Base.{
  ℕ, ◌+◌, ◌<◌, ◌≤◌, ◌≡◌, ap, Bool, true, false, List, [], ◌∷◌, ◌++◌, if◌then◌else◌, length, arith,
  ok, ◌>>=◌, length-append,
}
use web_sdk.Bytes.{read_uint16_le, write_uint16_le, write_uint32_le}
use web_sdk.Bytes.Words.{word16}
use web_sdk.Utf8
use web_sdk.Zip.Dos.{Date}
use web_sdk.Zip.Writer.{get_local_file_header}
use web_sdk.Zip.Reader.{recalculate_header_length}
use web_sdk.Zip.Records.{concat-three, extra_field-bytes, payload64}
use web_sdk.Zip.RoundTrip.{largest}

-- The length that the reader computes of a header before `rest`, and the length that it has.
abbrev pub measured : List ℕ → List ℕ → ℕ × ℕ
measured rest header = (recalculate_header_length (header ++ rest), length header)

module _ (text : List ℕ) (crc compressed uncompressed : ℕ) (now : Date) (rest : List ℕ) where
  -- What `adjustHeaders` finds in a local header that `getLocalFileHeader` wrote, whatever bytes
  -- follow it, is the length of that header: 30 bytes, the name's, and 28 for ZIP64. The sizes are
  -- at most the largest that the header can say, and the name has less than 65536 bytes.
  pub recalculate-local_file_header :
      (zip64 : Bool)
      → compressed ≤ largest zip64
      → uncompressed ≤ largest zip64
      → length (Utf8.encode text) < 65536
      → (get_local_file_header zip64 text crc compressed uncompressed now >>= λ header.
          ok (measured rest header))
        ≡ ok (
          30 + length (Utf8.encode text) + (if zip64 then 28 else 0),
          30 + length (Utf8.encode text) + (if zip64 then 28 else 0),
        )
  unfolding get_local_file_header recalculate_header_length read_uint16_le write_uint16_le
      write_uint32_le
  recalculate-local_file_header true hc hu hn =
      rw
        (
          extra_field-bytes compressed uncompressed 0 hc hu (omega arith),
          concat-three,
          word16 (length (Utf8.encode text)) hn,
        )
        (ap (λ r. ok (30 + length (Utf8.encode text) + 28, r))
          (omega (
            arith,
            length-append {0} (Utf8.encode text)
                (1 ∷ 0 ∷ 24 ∷ 0 ∷ payload64 compressed uncompressed 0),
          )))
  recalculate-local_file_header false hc hu hn =
      rw (concat-three, word16 (length (Utf8.encode text)) hn)
        (ap (λ r. ok (30 + length (Utf8.encode text) + 0, r))
          (omega (arith, length-append {0} (Utf8.encode text) [])))
