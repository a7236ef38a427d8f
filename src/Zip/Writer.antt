-- ===== src/Zip/Writer.antt =====
-- lib/tdf3/src/utils/zip-writer.ts. The writer's one field, `zip64`, is the first argument; `now` is
-- the date that the source reads from the clock. `new TextEncoder().encode` is `Utf8.encode`.
-- A function is a chain of writes into a fresh buffer; writeUInt64LE may throw.
use web_sdk.Base.{
  ℕ, ◌+◌, ◌-◌, ◌*◌, Bool, true, false, List, [], ◌∷◌, Result, ok, if◌then◌else◌, length, ◌>>=◌,
}
use web_sdk.Bytes.{zeros, write_uint16_le, write_uint32_le, write_uint64_le, concat_uint8}
use web_sdk.Utf8
use web_sdk.Zip.Dos.{Date, date_to_dos_date_time}

abbrev pub cd_signature : ℕ
cd_signature = 0x02014b50

abbrev pub version_needed_to_extract_utf8 : ℕ
version_needed_to_extract_utf8 = 20

abbrev pub version_needed_to_extract_zip64 : ℕ
version_needed_to_extract_zip64 = 45

-- `(3 << 8) | 63`
abbrev pub version_made_by : ℕ
version_made_by = 3 * 256 + 63

-- `FILE_NAME_IS_UTF8 | UNKNOWN_CRC32_AND_FILE_SIZES`
abbrev pub general_purpose_bit_flag : ℕ
general_purpose_bit_flag = 2048 + 8

-- The tag and the size of the ZIP64 extended information extra field, and its three numbers.
unfoldable pub extra_field : ℕ → ℕ → ℕ → Result (List ℕ)
extra_field first second third = do
  let b = write_uint16_le (zeros 28) 0x0001 0
  let b = write_uint16_le b (28 - 4) 2
  b ← write_uint64_le b first 4
  b ← write_uint64_le b second 12
  write_uint64_le b third 20

unfoldable pub get_local_file_header : Bool → List ℕ → ℕ → ℕ → ℕ → Date → Result (List ℕ)
unfolding extra_field
get_local_file_header zip64 utf8_file_name crc32 compressed_size uncompressed_size now = do
  let date_modified = date_to_dos_date_time now
  let filename_buffer = Utf8.encode utf8_file_name
  let b = write_uint32_le (zeros 30) 0x04034b50 0
  let b = write_uint16_le b version_needed_to_extract_utf8 4
  let b = write_uint16_le b general_purpose_bit_flag 6
  let b = write_uint16_le b 0 8
  let b = write_uint16_le b date_modified.time 10
  let b = write_uint16_le b date_modified.date 12
  let b = write_uint32_le b crc32 14
  let b = write_uint32_le b (if zip64 then 0xffffffff else compressed_size) 18
  let b = write_uint32_le b (if zip64 then 0xffffffff else uncompressed_size) 22
  let b = write_uint16_le b (length filename_buffer) 26
  zeief_buffer ← (if zip64 then extra_field compressed_size uncompressed_size 0 else ok [])
  let b = write_uint16_le b (length zeief_buffer) 28
  ok (concat_uint8 (b ∷ filename_buffer ∷ zeief_buffer ∷ []))

unfoldable pub write_data_descriptor : Bool → ℕ → ℕ → Result (List ℕ)
write_data_descriptor true crc32 uncompressed_size = do
  let b = write_uint32_le (zeros 24) crc32 4
  let b = write_uint32_le b 0x08074b50 0
  b ← write_uint64_le b uncompressed_size 8
  write_uint64_le b uncompressed_size 16
write_data_descriptor false crc32 uncompressed_size =
    let b = write_uint32_le (zeros 16) 0x08074b50 0 in
    let b = write_uint32_le b crc32 4 in
    let b = write_uint32_le b uncompressed_size 8 in ok (write_uint32_le b uncompressed_size 12)

-- The 46 bytes of a central directory record before its file name. The arguments after `zip64` are
-- the sizes, the offset and the attributes, the date's two words, and the two lengths.
unfoldable pub cd_fixed : Bool → ℕ → ℕ → ℕ → ℕ → ℕ → ℕ → ℕ → ℕ → List ℕ
cd_fixed zip64 size offset crc32 attributes time date name_length extra_length =
    let b = write_uint32_le (zeros 46) cd_signature 0 in
    let b = write_uint16_le b version_made_by 4 in
    let b =
      write_uint16_le b
        (if zip64 then version_needed_to_extract_zip64 else version_needed_to_extract_utf8) 6 in
    let b = write_uint16_le b general_purpose_bit_flag 8 in
    let b = write_uint16_le b 0 10 in
    let b = write_uint16_le b time 12 in
    let b = write_uint16_le b date 14 in
    let b = write_uint32_le b crc32 16 in
    let b = write_uint32_le b (if zip64 then 0xffffffff else size) 20 in
    let b = write_uint32_le b (if zip64 then 0xffffffff else size) 24 in
    let b = write_uint16_le b name_length 28 in
    let b = write_uint16_le b extra_length 30 in
    let b = write_uint16_le b 0 32 in
    let b = write_uint16_le b 0 34 in
    let b = write_uint16_le b 0 36 in
    let b = write_uint32_le b attributes 38 in
    write_uint32_le b (if zip64 then 0xffffffff else offset) 42

unfoldable pub write_central_directory_record :
    Bool → ℕ → List ℕ → ℕ → ℕ → ℕ → Date → Result (List ℕ)
unfolding extra_field cd_fixed
write_central_directory_record zip64 uncompressed_size utf8_file_name
      relative_offset_of_local_header crc32 external_file_attributes now =
    do
      zeief_buffer ←
          (if zip64
            then extra_field uncompressed_size uncompressed_size relative_offset_of_local_header
            else ok [])
      let date_modified = date_to_dos_date_time now
      let filename_buffer = Utf8.encode utf8_file_name
      let fixed_size_stuff =
          cd_fixed zip64 uncompressed_size relative_offset_of_local_header crc32
            external_file_attributes date_modified.time date_modified.date (length filename_buffer)
            (length zeief_buffer)
      ok (concat_uint8 (fixed_size_stuff ∷ filename_buffer ∷ zeief_buffer ∷ []))

-- The 22 bytes of the end of central directory record.
unfoldable pub eocdr : Bool → ℕ → ℕ → ℕ → List ℕ
eocdr zip64 entries_length size_of_central_directory offset_of_start_of_central_directory =
    let normal_entries_length = if zip64 then 0xffff else entries_length in
    let b = write_uint32_le (zeros 22) 0x06054b50 0 in
    let b = write_uint16_le b 0 4 in
    let b = write_uint16_le b 0 6 in
    let b = write_uint16_le b normal_entries_length 8 in
    let b = write_uint16_le b normal_entries_length 10 in
    let b = write_uint32_le b (if zip64 then 0xffffffff else size_of_central_directory) 12 in
    let b =
      write_uint32_le b (if zip64 then 0xffffffff else offset_of_start_of_central_directory) 16 in
    write_uint16_le b 0 20

unfoldable pub zip64_eocdr : ℕ → ℕ → ℕ → Result (List ℕ)
zip64_eocdr entries_length size_of_central_directory offset_of_start_of_central_directory = do
  let b = write_uint32_le (zeros 56) 0x06064b50 0
  b ← write_uint64_le b (56 - 12) 4
  let b = write_uint16_le b version_made_by 12
  let b = write_uint16_le b version_needed_to_extract_zip64 14
  let b = write_uint32_le b 0 16
  let b = write_uint32_le b 0 20
  b ← write_uint64_le b entries_length 24
  b ← write_uint64_le b entries_length 32
  b ← write_uint64_le b size_of_central_directory 40
  write_uint64_le b offset_of_start_of_central_directory 48

unfoldable pub zip64_eocdl : ℕ → Result (List ℕ)
zip64_eocdl offset_of_zip64_eocdr = do
  let b = write_uint32_le (zeros 20) 0x07064b50 0
  let b = write_uint32_le b 0 4
  b ← write_uint64_le b offset_of_zip64_eocdr 8
  ok (write_uint32_le b 1 16)

unfoldable pub write_end_of_central_directory_record : Bool → ℕ → ℕ → ℕ → Result (List ℕ)
unfolding eocdr zip64_eocdr zip64_eocdl
write_end_of_central_directory_record false entries_length size offset =
    ok (eocdr false entries_length size offset)
write_end_of_central_directory_record true entries_length size offset = do
  zip64_eocdr_buffer ← zip64_eocdr entries_length size offset
  zip64_eocdl_buffer ← zip64_eocdl (offset + size)
  ok (
      concat_uint8
        (zip64_eocdr_buffer ∷ zip64_eocdl_buffer ∷ eocdr true entries_length size offset ∷ []))
