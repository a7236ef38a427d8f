-- ===== src/Writer/State.antt =====
-- writeStream of lib/tdf3/src/tdf.ts. The settings hold what it takes from the configuration and the
-- platform: `iv n` is the n-th initialization vector that is generated, `clock n` the n-th reading of the
-- clock, `encode` is `base64.encode`, `text_encode` a TextEncoder on a string's units, and
-- `manifest_bytes` makes the encoded JSON text of the manifest with its assertions, which
-- are signed over the aggregate hash. A read of the source is a list's next element, and
-- `desiredSize` is positive for as many segments as a call of `pull` has budget.
use web_sdk.Base.{
  ℕ, suc, ◌+◌, ◌-◌, Bool, true, false, List, [], ◌∷◌, ◌++◌, Option, none, some, Result, ok, err,
  Error, ◌==◌, ltb, if◌then◌else◌, length, drop, ◌>>=◌,
}
use mathlib.Core.List.{flatten}
use web_sdk.Bytes.{concat_uint8}
use web_sdk.Cipher.{CryptoService}
use web_sdk.Crc32
use web_sdk.Encodings.Base64
use web_sdk.Encodings.Hex
use web_sdk.Segments.{IntegrityAlgorithm, gmac, hs256, other, Segment, get_signature}
use web_sdk.Utf8
use web_sdk.Zip.Dos.{Date}
use web_sdk.Zip.Writer.{
  get_local_file_header, write_data_descriptor, write_central_directory_record,
  write_end_of_central_directory_record,
}

pub record IntegrityInformation : Type 0 where
  pub sig : List ℕ
  pub alg : IntegrityAlgorithm
  pub segment_size_default : ℕ
  pub encrypted_segment_size_default : ℕ
  pub segment_hash_alg : IntegrityAlgorithm
  pub segments : List Segment

pub record Settings : Type 0 where
  pub service : CryptoService
  pub iv : ℕ → List ℕ
  pub clock : ℕ → Date
  pub encode : List ℕ → List ℕ
  pub text_encode : List ℕ → List ℕ
  pub manifest_bytes : List ℕ → IntegrityInformation → Result (List ℕ)
  pub legacy : Bool
  pub integrity_algorithm : IntegrityAlgorithm
  pub segment_integrity_algorithm : IntegrityAlgorithm
  pub segment_size_default : ℕ
  pub byte_limit : ℕ

pub record EntryInfo : Type 0 where
  pub filename : List ℕ
  pub offset : ℕ
  pub crc_counter : ℕ
  pub file_byte_count : ℕ

-- The counters of `writeStream`, with the chunks given to the controller so far.
pub record Output : Type 0 where
  pub total_byte_count : ℕ
  pub bytes_processed : ℕ
  pub crc_counter : ℕ
  pub file_byte_count : ℕ
  pub segment_infos : List Segment
  pub segment_hash_list : List (List ℕ)
  pub aggregate_hash_422 : List ℕ
  pub enqueued : List (List ℕ)

-- `source` is what the reader of the content has left.
pub record Writing : Type 0 where
  pub current_buffer : List ℕ
  pub source : List (List ℕ)
  pub output : Output
  pub closed : Bool

abbrev pub payload_name : List ℕ
payload_name = 48 ∷ 46 ∷ 112 ∷ 97 ∷ 121 ∷ 108 ∷ 111 ∷ 97 ∷ 100 ∷ []

abbrev pub manifest_name : List ℕ
manifest_name =
    48 ∷ 46 ∷ 109 ∷ 97 ∷ 110 ∷ 105 ∷ 102 ∷ 101 ∷ 115 ∷ 116 ∷ 46 ∷ 106 ∷ 115 ∷ 111 ∷ 110 ∷ []

abbrev pub external_attributes : ℕ
external_attributes = 2175008768

abbrev pub initial : Output
initial = record {
  total_byte_count = 0;
  bytes_processed = 0;
  crc_counter = 0;
  file_byte_count = 0;
  segment_infos = [];
  segment_hash_list = [];
  aggregate_hash_422 = [];
  enqueued = [];
}

unfoldable pub enqueue : List ℕ → Output → Output
enqueue chunk out = record out { enqueued = out.enqueued ++ chunk ∷ [] }

unfoldable pub reset_counters : Output → Output
reset_counters out = record out { crc_counter = 0; file_byte_count = 0 }

abbrev pub entry_info : List ℕ → ℕ → Output → EntryInfo
entry_info filename offset out = record {
  filename = filename;
  offset = offset;
  crc_counter = out.crc_counter;
  file_byte_count = out.file_byte_count;
}

-- A size that the manifest leaves out because it is the default.
unfoldable pub size_unless_default : ℕ → ℕ → Option ℕ
size_unless_default default_size n = if n == default_size then none else some n

-- The loop that fills the buffer: the buffer, what the source has left, and whether it was done.
unfoldable pub read_source : ℕ → List ℕ → List (List ℕ) → List ℕ × List (List ℕ) × Bool
read_source size buffer [] = (buffer, [], ltb (length buffer) size)
read_source size buffer (value ∷ source) =
    let rest = read_source size (concat_uint8 (buffer ∷ value ∷ [])) source in
    if ltb (length buffer) size then rest else (buffer, value ∷ source, false)

module _ (cfg : Settings) where
  unfoldable pub get_header : ℕ → List ℕ → Result (List ℕ)
  get_header reading name = get_local_file_header true name 0 0 0 (cfg.clock reading)

  unfoldable pub count_chunk : List ℕ → Output → Result Output
  count_chunk chunk out =
      if ltb cfg.byte_limit (out.total_byte_count + length chunk)
      then err Error.configuration
      else ok (record out {
        total_byte_count = out.total_byte_count + length chunk;
        crc_counter = Crc32.unsigned chunk out.crc_counter;
        file_byte_count = out.file_byte_count + length chunk;
      })

  unfoldable pub enqueue_and_count : List ℕ → Output → Result Output
  unfolding enqueue count_chunk
  enqueue_and_count chunk out = count_chunk chunk (enqueue chunk out)

  -- The header is given to the controller and a second one, of a later reading, is counted.
  unfoldable pub enqueue_header : ℕ → List ℕ → Output → Result Output
  unfolding get_header enqueue count_chunk
  enqueue_header reading name out = do
    header ← get_header reading name
    counted ← get_header (suc reading) name
    count_chunk counted (enqueue header out)

  unfoldable pub start : Output → Result Output
  unfolding enqueue_header reset_counters
  start out = do out ← enqueue_header 0 payload_name out; ok (reset_counters out)

  unfoldable pub get_signature_version_422 : List ℕ → IntegrityAlgorithm → Result (List ℕ)
  get_signature_version_422 content gmac =
      ok (Hex.encode_array_buffer (drop (length content - 16) content))
  get_signature_version_422 content hs256 = do
    let text = Utf8.utf8_slice content 0 (length content)
    sig ← cfg.service.hmac (cfg.text_encode text)
    ok (Hex.encode_array_buffer sig)
  get_signature_version_422 content other = err Error.configuration

  -- The hash of a segment, and the output with its signature among those that the root signature signs.
  unfoldable pub sign_segment : List ℕ → Output → Result (List ℕ × Output)
  unfolding get_signature_version_422 get_signature
  sign_segment payload out =
      if cfg.legacy
      then (get_signature_version_422 payload cfg.segment_integrity_algorithm >>= λ sig.
          ok (cfg.encode sig, record out { aggregate_hash_422 = out.aggregate_hash_422 ++ sig }))
      else (get_signature cfg.service payload cfg.segment_integrity_algorithm >>= λ sig. ok (
        Base64.encode_array_buffer false sig,
        record out { segment_hash_list = out.segment_hash_list ++ sig ∷ [] },
      ))

  -- The aggregate hash, and the encoded root signature.
  unfoldable pub sign_root : Output → Result (List ℕ × List ℕ)
  unfolding get_signature_version_422 get_signature
  sign_root out =
      if cfg.legacy
      then (get_signature_version_422 out.aggregate_hash_422 cfg.integrity_algorithm >>= λ sig.
          ok (out.aggregate_hash_422, cfg.encode sig))
      else let aggregate_hash = flatten out.segment_hash_list in
        (get_signature cfg.service aggregate_hash cfg.integrity_algorithm >>= λ sig.
        ok (aggregate_hash, Base64.encode_array_buffer false sig))

  -- The data descriptor of the entry that the counters are of.
  unfoldable pub write_descriptor : Output → Result Output
  unfolding enqueue_and_count
  write_descriptor out = do
    data_descriptor ← write_data_descriptor true out.crc_counter out.file_byte_count
    enqueue_and_count data_descriptor out

  -- A round of the loop on the entries.
  unfoldable pub write_entry : ℕ → EntryInfo → Output → Result Output
  unfolding enqueue_and_count
  write_entry reading entry out = do
    result ←
        write_central_directory_record true entry.file_byte_count entry.filename entry.offset
          entry.crc_counter external_attributes (cfg.clock reading)
    enqueue_and_count result out

  unfoldable pub write_central_directory : EntryInfo → EntryInfo → Output → Result Output
  unfolding enqueue_and_count write_entry
  write_central_directory payload_entry manifest_entry out = do
    let central_directory_byte_count = out.total_byte_count
    out ← write_entry 4 payload_entry out
    out ← write_entry 5 manifest_entry out
    let end_of_central_directory_byte_count = out.total_byte_count - central_directory_byte_count
    final_chunk ←
        write_end_of_central_directory_record true 2 end_of_central_directory_byte_count
          central_directory_byte_count
    enqueue_and_count final_chunk out
