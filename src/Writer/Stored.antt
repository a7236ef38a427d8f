-- ===== src/Writer/Stored.antt =====
-- The output of a content that is written at once (writeStream of lib/tdf3/src/tdf.ts).
use mathlib.Core.List.{flatten}
use web_sdk.Base.{
  ℕ, ◌≡◌, refl, sym, ap, ◌∙◌, subst, List, [], ◌++◌, ok, length, arith, Returns, Returns-bind,
  Returns-chain, Returns-map, >>=-eq-ok,
}
use web_sdk.Crc32
use web_sdk.Segments.{Segment}
use web_sdk.Writer.State.{
  Settings, Output, enqueue, enqueue_header, get_header, reset_counters, start, initial,
  payload_name,
}
use web_sdk.Writer.Stream.{finish, integrity_information}
use web_sdk.Writer.Counted.{counted, count_chunk-eq-ok, length-get_header, length-payload_name}
use web_sdk.Writer.Cut.{pieces}
use web_sdk.Writer.Emit.{write_segments, write_all}
use web_sdk.Writer.Track.{Tracks, SignaturesAgree, Described, Written, write_segments-Written}
use web_sdk.Writer.Container.{container, Contains, finish-container}

module _ (cfg : Settings) where
  -- The output after `start`: the header of the payload.
  abbrev pub Started : Output → Type 0
  Started out =
      (header : List ℕ) × (get_header cfg 0 payload_name ≡ ok header)
      × Tracks header [] out
      × (out.segment_infos ≡ [])

  pub start-Started : Returns Started (start cfg initial)
  unfolding start enqueue_header enqueue reset_counters flatten Crc32.unsigned
  start-Started = Returns-bind Started (enqueue_header cfg 0 payload_name initial) _ (λ headed e.
      let (header, f, g) = >>=-eq-ok (get_header cfg 0 payload_name) _ e in
      let (again, h, i) = >>=-eq-ok (get_header cfg 1 payload_name) _ g in
      let (c, _) = count_chunk-eq-ok cfg again (enqueue header initial) headed i in
      let same : length again ≡ length header =
        length-get_header cfg 1 payload_name again (omega (arith, length-payload_name)) h
        ∙ sym
            (length-get_header cfg 0 payload_name header (omega (arith, length-payload_name)) f) in
      let tracks : Tracks header [] (reset_counters (counted again (enqueue header initial))) =
        (refl, omega (arith, same), refl, refl) in
      (
        header,
        f,
        subst (λ r. Tracks header [] (reset_counters r)) c tracks,
        ap (λ r. r.segment_infos) (sym c),
      ))

  module _ (size : ℕ) (content : List ℕ) (out : Output) where
    -- The output of a content that is written at once.
    abbrev pub Stored : Output → Type 0
    Stored after =
        (header : List ℕ) × (payloads : List (List ℕ)) × (infos : List Segment) × (get_header cfg 0
            payload_name
          ≡ ok header)
        × Described cfg size 0 (pieces cfg.segment_size_default content) payloads infos
        × (after.segment_infos ≡ infos)
        × (aggregate_hash sig manifest : List ℕ) × (cfg.manifest_bytes aggregate_hash
              (integrity_information cfg size sig (record initial { segment_infos = infos }))
            ≡ ok manifest)
        × (container cfg header (flatten payloads) manifest ≡ ok (flatten after.enqueued))

    pub write_all-Stored :
        SignaturesAgree cfg size → Started out → Returns Stored (write_all cfg size content out)
    unfolding write_all
    write_all-Stored agree (header, e, t, none_yet) =
        Returns-chain (Written cfg size (pieces cfg.segment_size_default content) out) Stored
          (write_segments cfg size (pieces cfg.segment_size_default content) out)
          (λ after. finish cfg size after)
          (write_segments-Written cfg size (pieces cfg.segment_size_default content) out agree)
          (λ mid (payloads, infos, d, i, grown).
            Returns-map (Contains cfg size header (flatten payloads) mid) Stored
              (finish cfg size mid)
              (finish-container cfg size header (flatten payloads) mid (grown header [] t) e)
              (λ after (aggregate, sig, manifest, f, g, h, k).
                let known : mid.segment_infos ≡ infos = i ∙ ap (λ r. r ++ infos) none_yet in
                (
                  header,
                  payloads,
                  infos,
                  e,
                  subst
                      (λ r.
                        Described cfg size (length r) (pieces cfg.segment_size_default content)
                          payloads infos)
                      none_yet d,
                  k ∙ known,
                  aggregate,
                  sig,
                  manifest,
                  subst
                      (λ r.
                        cfg.manifest_bytes aggregate (
                          integrity_information cfg size sig (record initial { segment_infos = r }))
                        ≡ ok manifest)
                      known g,
                  h,
                )))
