-- ===== src/Writer/Bounds.antt =====
-- The byte limit of a TDF that writeStream of lib/tdf3/src/tdf.ts writes.
use mathlib.Core.List.{flatten}
use web_sdk.Base.{
  ℕ, zero, suc, ◌≡◌, refl, sym, ap, subst, Bool, true, false, List, [], ◌∷◌, Result, ok, leb, ◌==◌,
  if◌then◌else◌, length, take, drop, arith, Bool-cases, inl, inr, ◌>>=◌, Returns, Returns-bind,
  Returns-of, Returns-chain, some, none, Option, ◌-◌,
}
use web_sdk.Writer.State.{
  Settings, Output, Writing, enqueue, enqueue_header, reset_counters, start, sign_root, initial,
  payload_name, manifest_name, read_source, external_attributes, EntryInfo, entry_info,
  write_descriptor, write_entry, write_central_directory,
}
use web_sdk.Writer.Stream.{
  write_segment, emit, finish, finish_pull, pull, pulls, write_stream, default_encrypted_size,
  integrity_information, write_manifest, write_manifest_text,
}
use web_sdk.Writer.Counted.{
  length-enqueued, Sound, enqueue_and_count-Sound, enqueue_header-Sound, start-Sound,
  length-manifest_name,
}
use web_sdk.Writer.Steps.{write_segment-eq-ok}
use web_sdk.Zip.Writer.{
  write_data_descriptor, write_central_directory_record, write_end_of_central_directory_record,
}

module _ (cfg : Settings) (size : ℕ) where
  abbrev Ends : Result Output → Type 0
  Ends r = Returns (Sound cfg) r

  write_segment-Sound :
      (chunk : List ℕ) (out : Output) → Sound cfg out → Ends (write_segment cfg size chunk out)
  unfolding enqueue
  write_segment-Sound chunk out (t, l) =
      Returns-of (Sound cfg) (write_segment cfg size chunk out) (λ after e.
        let (payload, hash, signed, _, _, kept, w, bound) =
          write_segment-eq-ok cfg size chunk out after e in
        let moved = subst (λ r. r.total_byte_count ≡ length (flatten r.enqueued)) kept t in
        let total : signed.total_byte_count ≡ out.total_byte_count =
          ap (λ r. r.total_byte_count) (sym kept) in
        subst (Sound cfg) w
          (omega (arith, length-enqueued cfg signed payload), omega (arith, bound)))

  emit-Sound :
      (budget : ℕ) (buffer : List ℕ) (out : Output)
      → Sound cfg out
      → Returns (λ p. Sound cfg p.1) (emit cfg size budget buffer out)
  unfolding emit
  emit-Sound zero buffer out s = s
  emit-Sound (suc budget) buffer out s =
      elim (Bool-cases (leb cfg.segment_size_default (length buffer))) [
        | inl full ↦ rw full (
            Returns-chain (Sound cfg) (λ p. Sound cfg p.1)
              (write_segment cfg size (take cfg.segment_size_default buffer) out) _
              (write_segment-Sound (take cfg.segment_size_default buffer) out s)
              (λ next h. emit-Sound budget (drop cfg.segment_size_default buffer) next h))
        | inr short ↦ rw short s
      ]

  write_descriptor-Sound : (out : Output) → Sound cfg out → Ends (write_descriptor cfg out)
  unfolding write_descriptor
  write_descriptor-Sound out s =
      Returns-bind (Sound cfg) (write_data_descriptor true out.crc_counter out.file_byte_count) _
        (λ d _. enqueue_and_count-Sound cfg d out s)

  write_entry-Sound :
      (reading : ℕ) (entry : EntryInfo) (out : Output)
      → Sound cfg out
      → Ends (write_entry cfg reading entry out)
  unfolding write_entry
  write_entry-Sound reading entry out s =
      Returns-bind (Sound cfg)
        (write_central_directory_record true entry.file_byte_count entry.filename entry.offset
          entry.crc_counter external_attributes (cfg.clock reading))
        _ (λ r _. enqueue_and_count-Sound cfg r out s)

  write_central_directory-Sound :
      (payload_entry manifest_entry : EntryInfo) (out : Output)
      → Sound cfg out
      → Ends (write_central_directory cfg payload_entry manifest_entry out)
  unfolding write_central_directory
  write_central_directory-Sound payload_entry manifest_entry out s =
      Returns-chain (Sound cfg) (Sound cfg) (write_entry cfg 4 payload_entry out) _
        (write_entry-Sound 4 payload_entry out s)
        (λ first h.
          Returns-chain (Sound cfg) (Sound cfg) (write_entry cfg 5 manifest_entry first) _
            (write_entry-Sound 5 manifest_entry first h)
            (λ second k.
              Returns-bind (Sound cfg)
                (write_end_of_central_directory_record true 2
                  (second.total_byte_count - out.total_byte_count) out.total_byte_count)
                _ (λ r _. enqueue_and_count-Sound cfg r second k)))

  write_manifest-Sound : (out : Output) → Sound cfg out → Ends (write_manifest cfg size out)
  unfolding write_manifest write_manifest_text reset_counters
  write_manifest-Sound out s =
      Returns-chain (Sound cfg) (Sound cfg) (enqueue_header cfg 2 manifest_name out) _
        (enqueue_header-Sound cfg 2 manifest_name out (omega (arith, length-manifest_name)) s)
        (λ headed h. Returns-bind (Sound cfg) (sign_root cfg (reset_counters headed)) _ (λ roots _.
          Returns-bind (Sound cfg)
            (cfg.manifest_bytes roots.0
              (integrity_information cfg size roots.1 (reset_counters headed)))
            _ (λ m _. enqueue_and_count-Sound cfg m (reset_counters headed) h)))

  finish-Sound : (out : Output) → Sound cfg out → Ends (finish cfg size out)
  unfolding finish
  finish-Sound out s =
      Returns-chain (Sound cfg) (Sound cfg) (write_descriptor cfg out) _
        (write_descriptor-Sound out s)
        (λ described h.
          Returns-chain (Sound cfg) (Sound cfg) (write_manifest cfg size described) _
            (write_manifest-Sound described h)
            (λ written k.
              Returns-chain (Sound cfg) (Sound cfg) (write_descriptor cfg written) _
                (write_descriptor-Sound written k)
                (λ last l.
                  write_central_directory-Sound (entry_info payload_name 0 out)
                    (entry_info manifest_name described.total_byte_count written) last l)))

  finish_pull-Sound :
      (is_done : Bool) (buffer : List ℕ) (source : List (List ℕ)) (out : Output)
      → Sound cfg out
      → Returns (λ w. Sound cfg w.output) (finish_pull cfg size is_done buffer source out)
  unfolding finish_pull
  finish_pull-Sound false buffer source out s = s
  finish_pull-Sound true buffer source out s =
      Returns-chain (Sound cfg) (λ w. Sound cfg w.output)
        (if length buffer == 0 then ok out else write_segment cfg size buffer out) _
        (last (length buffer == 0))
        (λ next h.
          Returns-chain (Sound cfg) (λ w. Sound cfg w.output) (finish cfg size next) _
            (finish-Sound next h) (λ after k. k))
    where
      last : (b : Bool) → Ends (if b then ok out else write_segment cfg size buffer out)
      last true = s
      last false = write_segment-Sound buffer out s

  pulls-Sound :
      (budgets : List ℕ) (w : Writing)
      → Sound cfg w.output
      → Returns (λ w. Sound cfg w.output) (pulls cfg size budgets w)
  unfolding pulls pull
  pulls-Sound [] w s = s
  pulls-Sound (budget ∷ budgets) w s = elim (Bool-cases w.closed) [
    | inl closed ↦ rw closed s
    | inr open_stream ↦
        let (buffer, source, is_done) =
          read_source cfg.segment_size_default w.current_buffer w.source in
        rw open_stream (
          Returns-chain (λ w. Sound cfg w.output) (λ w. Sound cfg w.output)
            (emit cfg size budget buffer w.output >>= λ p.
              finish_pull cfg size is_done p.0 source p.1)
            _
            (Returns-chain (λ p. Sound cfg p.1) (λ w. Sound cfg w.output)
              (emit cfg size budget buffer w.output) _ (emit-Sound budget buffer w.output s)
              (λ p h. finish_pull-Sound is_done p.0 source p.1 h))
            (λ next h. pulls-Sound budgets next h))
  ]

-- A stream that `writeStream` returns has counted the bytes that it has given to its reader, and not
-- more of them than the limit, after any calls of `pull` that do not fail.
pub write_stream-Sound :
    (cfg : Settings) (has_auth : Bool) (content : Option (List (List ℕ))) (budgets : List ℕ)
    → Returns (λ w. Sound cfg w.output) (write_stream cfg has_auth content budgets)
unfolding write_stream flatten
write_stream-Sound cfg false content budgets = tt
write_stream-Sound cfg true none budgets = tt
write_stream-Sound cfg true (some content_stream) budgets =
    Returns-bind (λ w. Sound cfg w.output) (default_encrypted_size cfg) _
      (λ size _.
        Returns-chain (Sound cfg) (λ w. Sound cfg w.output) (start cfg initial) _
          (start-Sound cfg initial (refl, omega arith)) (λ out h. pulls-Sound cfg size budgets _ h))
