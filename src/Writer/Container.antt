-- ===== src/Writer/Container.antt =====
-- The file that writeStream of lib/tdf3/src/tdf.ts makes of a payload and its manifest.
use mathlib.Core.List.{flatten}
use web_sdk.Base.{
  ℕ, ◌-◌, ◌≡◌, refl, sym, ap, ap₂, ◌∙◌, true, List, [], ◌∷◌, ◌++◌, Result, ok, length,
  length-append, arith, append_assoc, ◌>>=◌, Returns, Returns-bind,
}
use web_sdk.Crc32
use web_sdk.Writer.State.{
  Settings, Output, enqueue, get_header, reset_counters, sign_root, write_central_directory,
  payload_name, manifest_name, external_attributes, entry_info,
}
use web_sdk.Writer.Stream.{integrity_information, finish}
use web_sdk.Writer.Counted.{counted, flatten-append_one}
use web_sdk.Writer.Track.{Tracks}
use web_sdk.Writer.Chains.{
  enqueue_and_count-last, write_descriptor-then, write_entry-then, write_manifest-then,
}
use web_sdk.Zip.Writer.{
  write_data_descriptor, write_central_directory_record, write_end_of_central_directory_record,
}

module _ (cfg : Settings) where
  -- The file: a header, the data and a descriptor for the payload and for the manifest, then the
  -- central directory, each record saying where its entry starts, and the record of its end.
  unfoldable pub container : List ℕ → List ℕ → List ℕ → Result (List ℕ)
  container header payload manifest = do
    let payload_crc = Crc32.unsigned payload 0
    let manifest_crc = Crc32.unsigned manifest 0
    payload_descriptor ← write_data_descriptor true payload_crc (length payload)
    manifest_header ← get_header cfg 2 manifest_name
    manifest_descriptor ← write_data_descriptor true manifest_crc (length manifest)
    let payload_entry = header ++ (payload ++ payload_descriptor)
    let entries = payload_entry ++ (manifest_header ++ (manifest ++ manifest_descriptor))
    payload_record ←
        write_central_directory_record true (length payload) payload_name 0 payload_crc
          external_attributes (cfg.clock 4)
    manifest_record ←
        write_central_directory_record true (length manifest) manifest_name (length payload_entry)
          manifest_crc external_attributes (cfg.clock 5)
    let directory = payload_record ++ manifest_record
    final_record ← write_end_of_central_directory_record true 2 (length directory) (length entries)
    ok (entries ++ (directory ++ final_record))

module _ (cfg : Settings) (header payload m d0 h1 d1 r0 r1 last : List ℕ) where
  abbrev entries : List ℕ
  entries = (header ++ (payload ++ d0)) ++ (h1 ++ (m ++ d1))

  -- The file from its parts.
  container-written :
      write_data_descriptor true (Crc32.unsigned payload 0) (length payload) ≡ ok d0
      → get_header cfg 2 manifest_name ≡ ok h1
      → write_data_descriptor true (Crc32.unsigned m 0) (length m) ≡ ok d1
      → write_central_directory_record true
          (length payload)
          payload_name
          0
          (Crc32.unsigned payload 0)
          external_attributes
          (cfg.clock 4)
        ≡ ok r0
      → write_central_directory_record true
          (length m)
          manifest_name
          (length (header ++ (payload ++ d0)))
          (Crc32.unsigned m 0)
          external_attributes
          (cfg.clock 5)
        ≡ ok r1
      → write_end_of_central_directory_record true 2 (length (r0 ++ r1)) (length entries) ≡ ok last
      → container cfg header payload m ≡ ok (entries ++ ((r0 ++ r1) ++ last))
  unfolding container
  container-written a b c d e f = rw (a, b, c, d, e, f) refl

  flatten-parts :
      (enqueued : List (List ℕ))
      → flatten enqueued ≡ header ++ payload
      → flatten (
          ((((((enqueued ++ d0 ∷ []) ++ h1 ∷ []) ++ m ∷ []) ++ d1 ∷ []) ++ r0 ∷ []) ++ r1 ∷ [])
          ++ last ∷ [])
        ≡ entries ++ ((r0 ++ r1) ++ last)
  flatten-parts enqueued h =
      rw
        (
          flatten-append_one, flatten-append_one, flatten-append_one, flatten-append_one,
          flatten-append_one, flatten-append_one, flatten-append_one, h,
        )
        (simp (append_assoc))

module _ (cfg : Settings) (size : ℕ) (header payload : List ℕ) (out : Output) where
  -- The file that is finished, with its manifest.
  abbrev pub Contains : Output → Type 0
  Contains after =
      (aggregate_hash sig manifest : List ℕ) × (sign_root cfg out ≡ ok (aggregate_hash, sig))
      × (cfg.manifest_bytes aggregate_hash (integrity_information cfg size sig out) ≡ ok manifest)
      × (container cfg header payload manifest ≡ ok (flatten after.enqueued))
      × (after.segment_infos ≡ out.segment_infos)

  pub finish-container :
      Tracks header payload out
      → get_header cfg 0 payload_name ≡ ok header
      → Returns Contains (finish cfg size out)
  unfolding finish write_central_directory sign_root enqueue reset_counters
  finish-container (et, total, ct, ft) first = write_descriptor-then cfg Contains out _ (λ d0 e0.
      let described = counted d0 (enqueue d0 out) in
      write_manifest-then cfg Contains size described _ (λ h1 again aggregate sig m e1 l e2 e3.
        let texted =
          counted m (enqueue m (reset_counters (counted again (enqueue h1 described)))) in
        write_descriptor-then cfg Contains texted _ (λ d1 e4.
          let closed = counted d1 (enqueue d1 texted) in
          let payload_entry = entry_info payload_name 0 out in
          let manifest_entry = entry_info manifest_name described.total_byte_count texted in
          write_entry-then cfg Contains 4 payload_entry closed _ (λ r0 e5.
            let recorded = counted r0 (enqueue r0 closed) in
            write_entry-then cfg Contains 5 manifest_entry recorded _ (λ r1 e6.
              let directed = counted r1 (enqueue r1 recorded) in
              Returns-bind Contains
                (write_end_of_central_directory_record true 2
                  (directed.total_byte_count - closed.total_byte_count) closed.total_byte_count)
                _
                (λ last e7. enqueue_and_count-last cfg Contains last directed (
                  aggregate,
                  sig,
                  m,
                  e2,
                  e3,
                  container-written cfg header payload m d0 h1 d1 r0 r1 last
                        (ap₂ (λ r s. write_data_descriptor true r s) (sym ct) (sym ft) ∙ e0) e1
                        (ap (λ r. write_data_descriptor true (Crc32.unsigned m 0) r) (omega arith)
                          ∙ e4)
                        (ap₂
                            (λ r s.
                              write_central_directory_record true r payload_name 0 s
                                external_attributes (cfg.clock 4))
                            (sym ft) (sym ct)
                          ∙ e5)
                        (rw (length-append header (payload ++ d0), length-append payload d0)
                          (ap₂
                              (λ r s.
                                write_central_directory_record true r manifest_name s
                                  (Crc32.unsigned m 0) external_attributes (cfg.clock 5))
                              (omega arith) (omega arith)
                            ∙ e6))
                        (ap₂ (λ r s. write_end_of_central_directory_record true 2 r s)
                            (omega (arith, length-append r0 r1))
                            (omega (
                              arith,
                              l,
                              length-append (header ++ (payload ++ d0)) (h1 ++ (m ++ d1)),
                              length-append header (payload ++ d0),
                              length-append payload d0,
                              length-append h1 (m ++ d1),
                              length-append m d1,
                            ))
                          ∙ e7)
                      ∙ ap ok (
                          sym (
                            flatten-parts cfg header payload m d0 h1 d1 r0 r1 last out.enqueued
                              et)),
                  refl,
                )))))))
