-- ===== src/Zip/RoundTrip.antt =====
-- The reader (lib/tdf3/src/utils/zip-reader.ts) reads back the records of the writer
-- (lib/tdf3/src/utils/zip-writer.ts).
use web_sdk.Base.{
  ℕ, ◌+◌, ◌<◌, ◌≤◌, ◌≡◌, refl, sym, ap, ◌∙◌, Bool, true, false, List, [], ◌∷◌, ◌++◌, All,
  if◌then◌else◌, length, arith, ok, ◌>>=◌, slice, append_assoc, length-append,
}
use web_sdk.Base.Slices.{slice-middle}
use web_sdk.Bytes.{copy_uint8_arr, read_uint16_le, read_uint32_le, max_safe_integer}
use web_sdk.Utf8
use web_sdk.Utf8.Decode.{IsScalar, utf8_slice-encode}
use web_sdk.Zip.Dos.{Date, IsDate, date_to_dos_date_time, date_to_dos_date_time_words}
use web_sdk.Zip.Writer.{
  cd_signature, cd_fixed, write_central_directory_record, general_purpose_bit_flag, version_made_by,
}
use web_sdk.Zip.Reader.{
  CentralDirectory, parse_central_directory_with_no_extras, parse_cd_buffer, slice_extra_fields,
  with_zip64, with_extras, buffer_to_string, find_field,
}
use web_sdk.Zip.Records.{
  concat-three, length-cd_fixed, cd_fixed-words, cd_fixed-time, cd_fixed-date, cd_fixed-crc32,
  cd_fixed-name, cd_fixed-extra, cd_fixed-attributes, cd_fixed-sizes, extra_field-bytes, payload64,
  read-payload64,
}

parse_cd_buffer-signed :
    (buffer : List ℕ)
    → read_uint32_le buffer 0 ≡ cd_signature
    → parse_cd_buffer buffer ≡ with_extras buffer (parse_central_directory_with_no_extras buffer)
unfolding parse_cd_buffer
parse_cd_buffer-signed buffer h = rw h refl

-- The largest size and offset that a record can say.
abbrev pub largest : Bool → ℕ
largest zip64 = if zip64 then max_safe_integer else 0xffffffff

-- What a record of the central directory says of a file, its sizes and offset given apart.
abbrev pub entry : Bool → ℕ → ℕ → List ℕ → ℕ → ℕ → Date → ℕ → CentralDirectory
entry zip64 size offset text crc attributes now m = record {
  version_made_by = version_made_by;
  version_needed_to_extract = if zip64 then 45 else 20;
  general_purpose_bit_flag = general_purpose_bit_flag;
  compression_method = 0;
  last_mod_file_time = (date_to_dos_date_time now).time;
  last_mod_file_date = (date_to_dos_date_time now).date;
  crc32 = crc;
  compressed_size = size;
  uncompressed_size = size;
  file_name_length = length (Utf8.encode text);
  extra_field_length = m;
  file_comment_length = 0;
  internal_file_attributes = 0;
  external_file_attributes = attributes;
  relative_offset_of_local_header = offset;
  file_name = Utf8.utf16 text;
  header_length = 30 + length (Utf8.encode text) + m;
}

module _ (text : List ℕ) (crc attributes : ℕ) (now : Date) (scalars : All IsScalar text)
    (short : length (Utf8.encode text) < 65536) (crc_range : crc < 4294967296)
    (attributes_range : attributes < 4294967296) (date_range : IsDate now) where
  module _ (zip64 : Bool) (size offset m : ℕ) (tail : List ℕ) where
    abbrev time : ℕ
    time = (date_to_dos_date_time now).time

    abbrev date : ℕ
    date = (date_to_dos_date_time now).date

    abbrev name : List ℕ
    name = Utf8.encode text

    abbrev fixed : List ℕ
    fixed =
        cd_fixed zip64 size offset crc attributes (date_to_dos_date_time now).time
          (date_to_dos_date_time now).date (length (Utf8.encode text)) m

    abbrev record_bytes : List ℕ
    record_bytes = fixed ++ (name ++ tail)

    file_name-written :
        buffer_to_string (slice record_bytes 46 (46 + length name)) 0 (length name) true
        ≡ Utf8.utf16 text
    unfolding buffer_to_string
    file_name-written =
        ap (λ r. Utf8.utf8_slice r 0 (length name))
          (slice-middle fixed name tail 46 _ (sym l) (ap (λ r. r + length name) (sym l)))
        ∙ utf8_slice-encode text scalars
      where
        l : length fixed ≡ 46
        l = length-cd_fixed zip64 size offset crc attributes time date (length name) m []

    parse_no_extras-written :
        m < 65536
        → (if zip64 then 0xffffffff else size) < 4294967296
        → (if zip64 then 0xffffffff else offset) < 4294967296
        → parse_central_directory_with_no_extras record_bytes
          ≡ entry zip64
              (if zip64 then 0xffffffff else size)
              (if zip64 then 0xffffffff else offset)
              text
              crc
              attributes
              now
              m
    unfolding parse_central_directory_with_no_extras
    parse_no_extras-written hm hs ho =
        let (dw, tw) = date_to_dos_date_time_words now date_range in
        let (w0, w4, w6, w8, w10, w32, w36) =
          cd_fixed-words zip64 size offset crc attributes time date (length name) m
            (name ++ tail) in
        let (s1, s2, s3) =
          cd_fixed-sizes zip64 size offset crc attributes time date (length name) m (name ++ tail)
            hs ho in
        rw
          (
            w4,
            w6,
            w8,
            w10,
            w32,
            w36,
            s1,
            s2,
            s3,
            cd_fixed-time zip64 size offset crc attributes time date (length name) m (name ++ tail)
                tw,
            cd_fixed-date zip64 size offset crc attributes time date (length name) m (name ++ tail)
                dw,
            cd_fixed-crc32 zip64 size offset crc attributes time date (length name) m (name ++ tail)
                crc_range,
            cd_fixed-name zip64 size offset crc attributes time date (length name) m (name ++ tail)
                short,
            cd_fixed-extra zip64 size offset crc attributes time date (length name) m (name ++ tail)
                hm,
            cd_fixed-attributes zip64 size offset crc attributes time date (length name) m
                (name ++ tail) attributes_range,
          )
          (rw file_name-written refl)

  module _ (size offset : ℕ) (rest : List ℕ) where
    with_extras32 :
        (buffer : List ℕ)
        → with_extras buffer (entry false size offset text crc attributes now 0)
          ≡ ok (entry false size offset text crc attributes now 0)
    unfolding with_extras
    with_extras32 buffer = refl

    -- A record that says its sizes and offset in 32 bits.
    parse-written32 :
        size < 4294967296
        → offset < 4294967296
        → parse_cd_buffer (record_bytes false size offset 0 rest)
          ≡ ok (entry false size offset text crc attributes now 0)
    parse-written32 hs ho =
        let (w0, w4, w6, w8, w10, w32, w36) =
          cd_fixed-words false size offset crc attributes (date_to_dos_date_time now).time
            (date_to_dos_date_time now).date (length (Utf8.encode text)) 0
            (Utf8.encode text ++ rest) in
        parse_cd_buffer-signed (record_bytes false size offset 0 rest) w0
        ∙ ap (λ r. with_extras (record_bytes false size offset 0 rest) r)
            (parse_no_extras-written false size offset 0 rest (omega arith) hs ho)
        ∙ with_extras32 (record_bytes false size offset 0 rest)

    abbrev extra : List ℕ
    extra = 1 ∷ 0 ∷ 24 ∷ 0 ∷ payload64 size size offset

    slice_extra-written : slice_extra_fields extra ≡ ok ((1, payload64 size size offset) ∷ [])
    unfolding slice_extra_fields read_uint16_le copy_uint8_arr
    slice_extra-written = refl

    with_zip64-written :
        size ≤ max_safe_integer
        → offset ≤ max_safe_integer
        → with_zip64
            (entry true 0xffffffff 0xffffffff text crc attributes now 28)
            (payload64 size size offset)
          ≡ ok (entry true size offset text crc attributes now 28)
    unfolding with_zip64
    with_zip64-written hs ho =
        let (p, q, r) = read-payload64 size size offset hs hs ho in rw (p, q, r) refl

    with_extras-written :
        size ≤ max_safe_integer
        → offset ≤ max_safe_integer
        → with_extras
            (record_bytes true size offset 28 (extra ++ rest))
            (entry true 0xffffffff 0xffffffff text crc attributes now 28)
          ≡ ok (entry true size offset text crc attributes now 28)
    unfolding with_extras find_field
    with_extras-written hs ho = rw (sliced, slice_extra-written) (with_zip64-written hs ho)
      where
        front : List ℕ
        front = fixed true size offset 28 rest ++ Utf8.encode text

        front_length : length front ≡ 46 + length (Utf8.encode text)
        front_length =
            length-append (fixed true size offset 28 rest) (Utf8.encode text)
            ∙ ap (λ r. r + length (Utf8.encode text))
                (length-cd_fixed true size offset crc attributes (date_to_dos_date_time now).time
                  (date_to_dos_date_time now).date (length (Utf8.encode text)) 28 [])

        sliced :
            slice
              (record_bytes true size offset 28 (extra ++ rest))
              (46 + length (Utf8.encode text))
              (46 + length (Utf8.encode text) + 28)
            ≡ extra
        sliced =
            ap (λ r. slice r (46 + length (Utf8.encode text)) (46 + length (Utf8.encode text) + 28))
              (sym
                (append_assoc (fixed true size offset 28 rest) (Utf8.encode text) (extra ++ rest)))
            ∙ slice-middle front extra rest _ _ (sym front_length)
                (ap (λ r. r + 28) (sym front_length))

    parse-written64 :
        size ≤ max_safe_integer
        → offset ≤ max_safe_integer
        → parse_cd_buffer (record_bytes true size offset 28 (extra ++ rest))
          ≡ ok (entry true size offset text crc attributes now 28)
    parse-written64 hs ho =
        let (w0, w4, w6, w8, w10, w32, w36) =
          cd_fixed-words true size offset crc attributes (date_to_dos_date_time now).time
            (date_to_dos_date_time now).date (length (Utf8.encode text)) 28
            (Utf8.encode text ++ (extra ++ rest)) in
        parse_cd_buffer-signed (record_bytes true size offset 28 (extra ++ rest)) w0
        ∙ ap (λ r. with_extras (record_bytes true size offset 28 (extra ++ rest)) r)
            (parse_no_extras-written true size offset 28 (extra ++ rest) (omega arith) (omega arith)
              (omega arith))
        ∙ with_extras-written hs ho

  module _ (size offset : ℕ) (rest : List ℕ) where
    -- Of the record that `writeCentralDirectoryRecord` makes of a file, whatever bytes follow it,
    -- `parseCDBuffer` reads back the name, the sizes, the offset, the checksum, the attributes and
    -- the date, with the length of the header. The record is ZIP64 or not, as the writer is set, and
    -- the size and the offset are at most the largest that such a record can say; the name is a text
    -- of scalar values of less than 65536 bytes, the checksum and the attributes are 32 bits wide and
    -- the date's fields are in their ranges.
    pub parse_cd_buffer-write :
        (zip64 : Bool)
        → size ≤ largest zip64
        → offset ≤ largest zip64
        → (write_central_directory_record zip64 size text offset crc attributes now >>= λ bytes.
            parse_cd_buffer (bytes ++ rest))
          ≡ ok (entry zip64 size offset text crc attributes now (if zip64 then 28 else 0))
    unfolding write_central_directory_record
    parse_cd_buffer-write true hs ho =
        rw (extra_field-bytes size size offset hs hs ho, concat-three, append_assoc, append_assoc)
          (parse-written64 size offset rest hs ho)
    parse_cd_buffer-write false hs ho =
        rw (concat-three, append_assoc, append_assoc)
          (parse-written32 size offset rest (omega arith) (omega arith))
