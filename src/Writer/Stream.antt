-- ===== src/Writer/Stream.antt =====
-- The segments of a stream and its `pull` (writeStream of lib/tdf3/src/tdf.ts).
use web_sdk.Base.{
  ℕ, zero, suc, ◌+◌, Bool, true, false, List, [], ◌∷◌, ◌++◌, Option, none, some, Result, ok, err,
  Error, ◌==◌, leb, if◌then◌else◌, length, take, drop, ◌>>=◌,
}
use web_sdk.Bytes.{zeros}
use web_sdk.Cipher.{CryptoService}
use web_sdk.Cipher
use web_sdk.Segments.{Segment}
use web_sdk.Writer.State.{
  IntegrityInformation, Output, Settings, Writing, count_chunk, enqueue, enqueue_and_count,
  enqueue_header, entry_info, initial, manifest_name, payload_name, read_source, reset_counters,
  sign_root, sign_segment, size_unless_default, start, write_central_directory, write_descriptor,
}

module _ (cfg : Settings) where
  module _ (encrypted_segment_size_default : ℕ) where
    abbrev pub segment_of : List ℕ → List ℕ → List ℕ → Segment
    segment_of hash chunk payload = record {
      hash = hash;
      segment_size = size_unless_default cfg.segment_size_default (length chunk);
      encrypted_segment_size = size_unless_default encrypted_segment_size_default (length payload);
    }

    unfoldable pub encrypt_and_count_segment : List ℕ → Output → Result (List ℕ × Output)
    unfolding Cipher.encrypt sign_segment size_unless_default count_chunk
    encrypt_and_count_segment chunk out = do
      let processed = record out { bytes_processed = out.bytes_processed + length chunk }
      payload ← Cipher.encrypt cfg.service chunk (cfg.iv (suc (length out.segment_infos)))
      (hash, out) ← sign_segment cfg payload processed
      let out = record out {
        segment_infos = out.segment_infos ++ segment_of hash chunk payload ∷ [];
      }
      out ← count_chunk cfg payload out
      ok (payload, out)

    unfoldable pub write_segment : List ℕ → Output → Result Output
    unfolding encrypt_and_count_segment enqueue
    write_segment chunk out = do
      (payload, out) ← encrypt_and_count_segment chunk out
      ok (enqueue payload out)

    -- The loop on the segments that are full.
    unfoldable pub emit : ℕ → List ℕ → Output → Result (List ℕ × Output)
    unfolding write_segment
    emit zero buffer out = ok (buffer, out)
    emit (suc budget) buffer out =
        if leb cfg.segment_size_default (length buffer)
        then (write_segment (take cfg.segment_size_default buffer) out >>= λ out.
            emit budget (drop cfg.segment_size_default buffer) out)
        else ok (buffer, out)

    abbrev pub integrity_information : List ℕ → Output → IntegrityInformation
    integrity_information sig out = record {
      sig = sig;
      alg = cfg.integrity_algorithm;
      segment_size_default = cfg.segment_size_default;
      encrypted_segment_size_default = encrypted_segment_size_default;
      segment_hash_alg = cfg.segment_integrity_algorithm;
      segments = out.segment_infos;
    }

    -- The text of the manifest, with the root signature.
    unfoldable pub write_manifest_text : Output → Result Output
    unfolding enqueue_and_count sign_root
    write_manifest_text out = do
      (aggregate_hash, sig) ← sign_root cfg out
      manifest_buffer ← cfg.manifest_bytes aggregate_hash (integrity_information sig out)
      enqueue_and_count cfg manifest_buffer out

    unfoldable pub write_manifest : Output → Result Output
    unfolding write_manifest_text enqueue_header reset_counters
    write_manifest out = do
      out ← enqueue_header cfg 2 manifest_name out
      write_manifest_text (reset_counters out)

    -- What `pull` does at the end of the content. The offset of the payload's entry is 0.
    unfoldable pub finish : Output → Result Output
    unfolding write_descriptor write_manifest write_central_directory
    finish out = do
      let payload_entry = entry_info payload_name 0 out
      described ← write_descriptor cfg out
      out ← write_manifest described
      let manifest_entry = entry_info manifest_name described.total_byte_count out
      out ← write_descriptor cfg out
      write_central_directory cfg payload_entry manifest_entry out

    -- The final chunk, and what follows it when the source is done.
    unfoldable pub finish_pull : Bool → List ℕ → List (List ℕ) → Output → Result Writing
    unfolding write_segment finish
    finish_pull false buffer source out =
        ok (record { current_buffer = buffer; source = source; output = out; closed = false })
    finish_pull true buffer source out = do
      out ← (if length buffer == 0 then ok out else write_segment buffer out)
      out ← finish out
      ok (record { current_buffer = []; source = source; output = out; closed = true })

    unfoldable pub pull : ℕ → Writing → Result Writing
    unfolding read_source emit finish_pull
    pull budget w =
        let (buffer, source, is_done) =
          read_source cfg.segment_size_default w.current_buffer w.source in
        (emit budget buffer w.output >>= λ (buffer, out). finish_pull is_done buffer source out)

    -- The calls of `pull` that the controller makes, none after `close`.
    unfoldable pub pulls : List ℕ → Writing → Result Writing
    unfolding pull
    pulls [] w = ok w
    pulls (budget ∷ budgets) w = if w.closed then ok w else (pull budget w >>= λ w. pulls budgets w)

  -- The size of an encrypted segment, from the encryption of a buffer of zeros.
  unfoldable pub default_encrypted_size : Result ℕ
  unfolding Cipher.encrypt
  default_encrypted_size = do
    encrypted ← Cipher.encrypt cfg.service (zeros cfg.segment_size_default) (cfg.iv 0)
    ok (length encrypted)

  -- `writeStream`, and the stream it returns after the calls of `pull`.
  unfoldable pub write_stream : Bool → Option (List (List ℕ)) → List ℕ → Result Writing
  unfolding default_encrypted_size start pulls
  write_stream false content budgets = err Error.configuration
  write_stream true none budgets = err Error.configuration
  write_stream true (some content_stream) budgets = do
    encrypted_size ← default_encrypted_size
    out ← start cfg initial
    pulls encrypted_size budgets
        (record { current_buffer = []; source = content_stream; output = out; closed = false })
