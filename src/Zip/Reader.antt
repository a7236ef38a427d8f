-- ===== src/Zip/Reader.antt =====
-- lib/tdf3/src/utils/zip-reader.ts. A string is the list of its UTF-16 code units. The source of the
-- bytes, `getChunk` (lib/src/seekable.ts), is a parameter: `from_end n` is `getChunk(-n)`, `range` is
-- `getChunk` with both bounds.
use web_sdk.Base.{
  ℕ, zero, suc, ◌+◌, ◌-◌, ◌*◌, ◌/◌, ◌%◌, Bool, true, false, not, ◌&&◌, ◌||◌, List, [], ◌∷◌, Option,
  none, some, Result, ok, err, Error, ltb, ◌==◌, if◌then◌else◌, length, drop, slice, ◌>>=◌,
}
use web_sdk.Bytes.{zeros, read_uint16_le, read_uint32_le, read_uint64_le, copy_uint8_arr}
use web_sdk.Utf8
use web_sdk.Zip.CodePage.{cp437_string}
use web_sdk.Zip.Writer.{cd_signature}

abbrev pub manifest_max_size : ℕ
manifest_max_size = 1024 * 1024 * 10

pub record CentralDirectory : Type 0 where
  pub version_made_by : ℕ
  pub version_needed_to_extract : ℕ
  pub general_purpose_bit_flag : ℕ
  pub compression_method : ℕ
  pub last_mod_file_time : ℕ
  pub last_mod_file_date : ℕ
  pub crc32 : ℕ
  pub compressed_size : ℕ
  pub uncompressed_size : ℕ
  pub file_name_length : ℕ
  pub extra_field_length : ℕ
  pub file_comment_length : ℕ
  pub internal_file_attributes : ℕ
  pub external_file_attributes : ℕ
  pub relative_offset_of_local_header : ℕ
  pub file_name : List ℕ
  pub header_length : ℕ

unfoldable pub buffer_to_string : List ℕ → ℕ → ℕ → Bool → List ℕ
unfolding cp437_string
buffer_to_string buffer start end true = Utf8.utf8_slice buffer start end
buffer_to_string buffer start end false = cp437_string (slice buffer start end)

unfoldable pub parse_central_directory_with_no_extras : List ℕ → CentralDirectory
unfolding buffer_to_string
parse_central_directory_with_no_extras cd_buffer =
    let flag = read_uint16_le cd_buffer 8 in
    let name_length = read_uint16_le cd_buffer 28 in
    let extra_length = read_uint16_le cd_buffer 30 in
    let file_name_buffer = slice cd_buffer 46 (46 + name_length) in
    let is_utf8 = flag / 2048 % 2 == 1 in
    record {
      version_made_by = read_uint16_le cd_buffer 4;
      version_needed_to_extract = read_uint16_le cd_buffer 6;
      general_purpose_bit_flag = flag;
      compression_method = read_uint16_le cd_buffer 10;
      last_mod_file_time = read_uint16_le cd_buffer 12;
      last_mod_file_date = read_uint16_le cd_buffer 14;
      crc32 = read_uint32_le cd_buffer 16;
      compressed_size = read_uint32_le cd_buffer 20;
      uncompressed_size = read_uint32_le cd_buffer 24;
      file_name_length = name_length;
      extra_field_length = extra_length;
      file_comment_length = read_uint16_le cd_buffer 32;
      internal_file_attributes = read_uint16_le cd_buffer 36;
      external_file_attributes = read_uint32_le cd_buffer 38;
      relative_offset_of_local_header = read_uint32_le cd_buffer 42;
      file_name = buffer_to_string file_name_buffer 0 name_length is_utf8;
      header_length = 30 + name_length + extra_length;
    }

-- The extra fields by header id.
unfoldable pub find_field : ℕ → List (ℕ × List ℕ) → Option (List ℕ)
find_field id [] = none
find_field id ((key, content) ∷ fields) =
    let rest = find_field id fields in if key == id then some content else rest

-- The loop of `sliceExtraFields` on the bytes from `i` on, on fuel: a round takes 4 bytes at least.
-- `fields` are those found so far. Running out of fuel is `none`.
unfoldable pub slice_loop : ℕ → List (ℕ × List ℕ) → List ℕ → Option (Result (List (ℕ × List ℕ)))
unfolding find_field
slice_loop zero fields buffer = none
slice_loop (suc fuel) fields buffer =
    let data_size = read_uint16_le buffer 2 in
    let header_id = read_uint16_le buffer 0 in
    let data_end = 4 + data_size in
    let (field, count) = copy_uint8_arr buffer (zeros data_size) 0 4 data_end in
    let rest = slice_loop fuel ((header_id, field) ∷ fields) (drop data_end buffer) in
    if not (ltb 3 (length buffer))
    then some (ok fields)
    else if ltb (length buffer) data_end
    then some (err Error.invalid_file)
    else conflict (find_field header_id fields) rest
  where
    conflict :
        Option (List ℕ) → Option (Result (List (ℕ × List ℕ))) → Option (Result (List (ℕ × List ℕ)))
    conflict none rest = rest
    conflict (some field) rest = some (err Error.invalid_file)

-- `ExtraFields.slice_loop-ends` shows that the fuel is enough, so the first clause is never used.
unfoldable pub or_out_of_fuel {ℓ} : {A : Type ℓ} → Option (Result A) → Result A
or_out_of_fuel none = err Error.generic
or_out_of_fuel (some r) = r

unfoldable pub slice_extra_fields : List ℕ → Result (List (ℕ × List ℕ))
unfolding slice_loop or_out_of_fuel
slice_extra_fields buffer = or_out_of_fuel (slice_loop (length buffer + 1) [] buffer)

-- One 64-bit number of the ZIP64 field, read at `index` if the record has the marker in its place;
-- with the index of the next one.
unfoldable pub zip64_number : List ℕ → ℕ → ℕ → Result (ℕ × ℕ)
zip64_number buffer value index =
    if not (value == 0xffffffff)
    then ok (value, index)
    else if ltb (length buffer) (index + 8)
    then err Error.invalid_file
    else (read_uint64_le buffer index >>= λ n. ok (n, index + 8))

-- The numbers of the ZIP64 field put in the places of the record's markers.
unfoldable pub with_zip64 : CentralDirectory → List ℕ → Result CentralDirectory
unfolding zip64_number
with_zip64 cd buffer = do
  (uncompressed, index) ← zip64_number buffer cd.uncompressed_size 0
  (compressed, index) ← zip64_number buffer cd.compressed_size index
  (offset, index) ← zip64_number buffer cd.relative_offset_of_local_header index
  ok (record cd {
    compressed_size = compressed;
    uncompressed_size = uncompressed;
    relative_offset_of_local_header = offset;
  })

-- `parseCDBuffer` from the test of the version on: the ZIP64 information is used if there is any.
unfoldable pub with_extras : List ℕ → CentralDirectory → Result CentralDirectory
unfolding slice_extra_fields with_zip64 find_field
with_extras cd_buffer cd =
    let extra_field_buffer =
      slice cd_buffer (46 + cd.file_name_length)
        (46 + cd.file_name_length + cd.extra_field_length) in
    if ltb cd.version_needed_to_extract 45 || cd.extra_field_length == 0
    then ok cd
    else (slice_extra_fields extra_field_buffer >>= λ fields. zip64 (find_field 1 fields))
  where
    zip64 : Option (List ℕ) → Result CentralDirectory
    zip64 none = ok cd
    zip64 (some buffer) = with_zip64 cd buffer

unfoldable pub parse_cd_buffer : List ℕ → Result CentralDirectory
unfolding parse_central_directory_with_no_extras with_extras
parse_cd_buffer cd_buffer =
    if not (read_uint32_le cd_buffer 0 == cd_signature)
    then err Error.invalid_file
    else with_extras cd_buffer (parse_central_directory_with_no_extras cd_buffer)

unfoldable pub recalculate_header_length : List ℕ → ℕ
recalculate_header_length header = 30 + read_uint16_le header 26 + read_uint16_le header 28

-- The loop of `getCDBuffers`: `n` is `i + 1`, and `last` is `lastBufferOffset`. The buffers come in
-- the order of the pushes. On fuel: `n` goes down in every round.
unfoldable pub cd_loop : ℕ → List ℕ → ℕ → ℕ → List (List ℕ)
cd_loop zero chunk n last = []
cd_loop (suc fuel) chunk zero last = []
cd_loop (suc fuel) chunk (suc i) last =
    let skipped = cd_loop fuel chunk i last in
    let found = cd_loop fuel chunk (i - 22) i in
    if read_uint32_le chunk i == cd_signature then slice chunk i last ∷ found else skipped

unfoldable pub reverse_onto {ℓ} : {A : Type ℓ} → List A → List A → List A
reverse_onto [] ys = ys
reverse_onto (x ∷ xs) ys = reverse_onto xs (x ∷ ys)

unfoldable pub get_cd_buffers : List ℕ → List (List ℕ)
unfolding cd_loop reverse_onto
get_cd_buffers chunk =
    reverse_onto (cd_loop (length chunk - 21) chunk (length chunk - 21) (length chunk)) []

pub record Chunker : Type 0 where
  pub from_end : ℕ → Result (List ℕ)
  pub range : ℕ → ℕ → Result (List ℕ)

unfoldable pub traverse {ℓ κ} :
    {A : Type ℓ} {B : Type κ} → (A → Result B) → List A → Result (List B)
traverse f [] = ok []
traverse f (a ∷ xs) = do b ← f a; bs ← traverse f xs; ok (b ∷ bs)

unfoldable pub same_units : List ℕ → List ℕ → Bool
same_units [] [] = true
same_units [] (y ∷ ys) = false
same_units (x ∷ xs) [] = false
same_units (x ∷ xs) (y ∷ ys) = x == y && same_units xs ys

unfoldable pub find_entry : List ℕ → List CentralDirectory → Option CentralDirectory
unfolding same_units
find_entry name [] = none
find_entry name (cd ∷ cds) =
    let rest = find_entry name cds in if same_units cd.file_name name then some cd else rest

module _ (get_chunk : Chunker) where
  unfoldable pub adjust_headers : CentralDirectory → Result CentralDirectory
  unfolding recalculate_header_length
  adjust_headers cd = do
    header_chunk ←
        get_chunk.range cd.relative_offset_of_local_header
          (cd.relative_offset_of_local_header + cd.header_length)
    ok (record cd { header_length = recalculate_header_length header_chunk })

  unfoldable pub get_central_directory : Result (List CentralDirectory)
  unfolding get_cd_buffers traverse parse_cd_buffer adjust_headers
  get_central_directory = do
    chunk ← get_chunk.from_end 1000
    cds ← traverse parse_cd_buffer (get_cd_buffers chunk)
    traverse adjust_headers cds

  -- `parse` is `JSON.parse(new TextDecoder().decode(...))`.
  unfoldable pub get_manifest {ℓ} :
      {Manifest : Type ℓ}
      → (List ℕ → Result Manifest)
      → List CentralDirectory
      → List ℕ
      → Result Manifest
  unfolding find_entry
  get_manifest {Manifest = Manifest} parse cds name = load (find_entry name cds)
    where
      load : Option CentralDirectory → Result Manifest
      load none = err Error.invalid_file
      load (some cd) =
          let byte_start = cd.relative_offset_of_local_header + cd.header_length in
          if ltb manifest_max_size cd.uncompressed_size
          then err Error.invalid_file
          else (get_chunk.range byte_start (byte_start + cd.uncompressed_size) >>= parse)

  unfoldable pub get_payload_segment : List CentralDirectory → List ℕ → ℕ → ℕ → Result (List ℕ)
  unfolding find_entry
  get_payload_segment cds name segment_offset segment_size = load (find_entry name cds)
    where
      load : Option CentralDirectory → Result (List ℕ)
      load none = err Error.invalid_file
      load (some cd) =
          let byte_start = cd.relative_offset_of_local_header + cd.header_length + segment_offset in
          get_chunk.range byte_start (byte_start + segment_size)
