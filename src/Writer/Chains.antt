-- ===== src/Writer/Chains.antt =====
-- The steps of writeStream (lib/tdf3/src/tdf.ts) one after the other: what holds after the rest of the steps
-- holds after the step and the rest.
use web_sdk.Base.{
  ℕ, suc, ◌+◌, ◌<◌, ◌≡◌, sym, ◌∙◌, subst, true, List, Result, ok, length, arith, inl, inr, ◌>>=◌,
  Returns, Returns-assoc, bind_assoc, Returns-of, Bool-cases, ltb,
}
use web_sdk.Utf8
use web_sdk.Writer.State.{
  Settings, Output, enqueue, count_chunk, enqueue_and_count, enqueue_header, get_header,
  reset_counters, sign_root, write_descriptor, write_entry, manifest_name, external_attributes,
  EntryInfo,
}
use web_sdk.Writer.Stream.{integrity_information, write_manifest, write_manifest_text}
use web_sdk.Writer.Counted.{count_chunk-eq-ok, counted, length-get_header, length-manifest_name}
use web_sdk.Zip.Writer.{write_data_descriptor, write_central_directory_record}

module _ (cfg : Settings) where
  module _ (Holds : Output → Type 0) where
    -- A chunk is counted for the one that the controller is given.
    enqueue_and_count-same :
        (chunk again : List ℕ) (out : Output) (next : Output → Result Output)
        → Returns Holds (next (counted again (enqueue chunk out)))
        → Returns Holds (count_chunk cfg again (enqueue chunk out) >>= next)
    unfolding count_chunk enqueue
    enqueue_and_count-same chunk again out next h =
        elim (Bool-cases (ltb cfg.byte_limit (out.total_byte_count + length again))) [
          | inl over ↦ rw over tt
          | inr fits ↦ rw fits h
        ]

    enqueue_and_count-then :
        (chunk : List ℕ) (out : Output) (next : Output → Result Output)
        → Returns Holds (next (counted chunk (enqueue chunk out)))
        → Returns Holds (enqueue_and_count cfg chunk out >>= next)
    unfolding enqueue_and_count
    enqueue_and_count-then chunk out next h = enqueue_and_count-same chunk chunk out next h

    pub enqueue_and_count-last :
        (chunk : List ℕ) (out : Output)
        → Holds (counted chunk (enqueue chunk out))
        → Returns Holds (enqueue_and_count cfg chunk out)
    unfolding enqueue_and_count
    enqueue_and_count-last chunk out h =
        Returns-of Holds (count_chunk cfg chunk (enqueue chunk out))
          (λ after e. subst Holds (count_chunk-eq-ok cfg chunk (enqueue chunk out) after e).0 h)

    -- A header is counted with the length that it has.
    enqueue_header-then :
        (reading : ℕ) (name : List ℕ) (out : Output) (next : Output → Result Output)
        → length (Utf8.encode name) < 65536
        → ((header again : List ℕ)
            → get_header cfg reading name ≡ ok header
            → length again ≡ length header
            → Returns Holds (next (counted again (enqueue header out))))
        → Returns Holds (enqueue_header cfg reading name out >>= next)
    unfolding enqueue_header count_chunk enqueue
    enqueue_header-then reading name out next short h =
        Returns-assoc Holds (get_header cfg reading name) _ next (λ header e.
          Returns-assoc Holds (get_header cfg (suc reading) name) _ next (λ again f.
            enqueue_and_count-same header again out next (
              h header again e (
                length-get_header cfg (suc reading) name again short f
                ∙ sym (length-get_header cfg reading name header short e)))))

    pub write_descriptor-then :
        (out : Output) (next : Output → Result Output)
        → ((descriptor : List ℕ)
            → write_data_descriptor true out.crc_counter out.file_byte_count ≡ ok descriptor
            → Returns Holds (next (counted descriptor (enqueue descriptor out))))
        → Returns Holds (write_descriptor cfg out >>= next)
    unfolding write_descriptor
    write_descriptor-then out next h =
        Returns-assoc Holds (write_data_descriptor true out.crc_counter out.file_byte_count) _ next
          (λ d e. enqueue_and_count-then d out next (h d e))

    pub write_entry-then :
        (reading : ℕ) (entry : EntryInfo) (out : Output) (next : Output → Result Output)
        → ((bytes : List ℕ)
            → write_central_directory_record true entry.file_byte_count entry.filename entry.offset
                entry.crc_counter external_attributes
                (cfg.clock reading)
              ≡ ok bytes
            → Returns Holds (next (counted bytes (enqueue bytes out))))
        → Returns Holds (write_entry cfg reading entry out >>= next)
    unfolding write_entry
    write_entry-then reading entry out next h =
        Returns-assoc Holds
          (write_central_directory_record true entry.file_byte_count entry.filename entry.offset
            entry.crc_counter external_attributes (cfg.clock reading))
          _ next (λ d e. enqueue_and_count-then d out next (h d e))

    pub write_manifest-then :
        (size : ℕ) (out : Output) (next : Output → Result Output)
        → ((header again aggregate_hash sig manifest : List ℕ)
            → get_header cfg 2 manifest_name ≡ ok header
            → length again ≡ length header
            → sign_root cfg out ≡ ok (aggregate_hash, sig)
            → cfg.manifest_bytes aggregate_hash (integrity_information cfg size sig out)
              ≡ ok manifest
            → Returns Holds (
                next (
                  counted manifest
                    (enqueue manifest (reset_counters (counted again (enqueue header out)))))))
        → Returns Holds (write_manifest cfg size out >>= next)
    unfolding write_manifest write_manifest_text enqueue reset_counters sign_root
    write_manifest-then size out next h =
        subst (Returns Holds)
          (sym (
            bind_assoc (enqueue_header cfg 2 manifest_name out)
              (λ o. write_manifest_text cfg size (reset_counters o)) next))
          (enqueue_header-then 2 manifest_name out
            (λ o. write_manifest_text cfg size (reset_counters o) >>= next)
            (omega (arith, length-manifest_name))
            (λ header again e l.
              Returns-assoc Holds (sign_root cfg out) _ next (λ (aggregate_hash, sig) f.
                Returns-assoc Holds
                  (cfg.manifest_bytes aggregate_hash (integrity_information cfg size sig out)) _
                  next
                  (λ m g.
                    enqueue_and_count-then m (reset_counters (counted again (enqueue header out)))
                      next (h header again aggregate_hash sig m e l f g)))))
