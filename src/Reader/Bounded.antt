-- ===== src/Reader/Bounded.antt =====
-- The stream of decryptStreamFrom of lib/tdf3/src/tdf.ts at every point: its bound on what is held, and its order.
use web_sdk.Base.{
  ℕ, suc, ◌+◌, ◌-◌, ◌*◌, ◌≤◌, ◌<◌, ◌≡◌, refl, sym, ap, subst, ◌∙◌, true, false, List, [], ◌∷◌,
  Option, none, some, Result, ltb, length, set, get_elem?, arith, Bool-cases, inl, inr, min,
  length-append, length-set,
}
use web_sdk.Scheduler.{
  Config, Scheduler, initial, fill_window, mark_consumed, batch_settled, pump, fill, consume, fail,
  settle,
}
use web_sdk.Scheduler.Invariant.{Inv, Step-Inv, initial-Inv}
use web_sdk.Segments.{Chunk, Segment, Mailbox, pending, filled, rejected, settle_chunk, chunks_from}
use web_sdk.Reader
use web_sdk.Reader.{
  Reader, Pulled, awaits, throws, continues, await_chunk, pull_at, pull, open_reader, settle_at,
  fail_from, Step, pulls, settles, fails, ends, Reach, here, next,
}
use web_sdk.Reader.Held.{
  pump-grows, Fine, Within, Within-grows, Within-set, Within-settle, Within-reject, held, held-le,
  Within-get, Delivered, Delivered-append, get_elem?-lt, get_elem?-none, length-update_at,
  length-reject,
}

-- A batch size of 1 at least, as `getBoundedSegmentSchedulerOptions` sees to.
module _ (cfg : Config) (positive : 1 ≤ cfg.segment_batch_size)
    (outcome : ℕ → Result (List ℕ)) where
  pub record Kept (r : Reader) : Type 0 where
    pub bounded : Inv cfg r.scheduler
    pub consumed : r.scheduler.consumed_segments ≡ r.next_chunk_index
    pub total : length r.chunks ≡ cfg.total_segments
    pub within : Within outcome r.next_chunk_index r.scheduler.scheduled_segments 0 r.chunks
    pub delivered : Delivered outcome 0 r.enqueued
    pub counted : length r.enqueued ≡ r.next_chunk_index
    pub all : r.closed ≡ true → cfg.total_segments ≤ r.next_chunk_index

  consume-Kept :
      (r : Reader) (chunk : Chunk) (p : List ℕ)
      → Kept r
      → r.closed ≡ false
      → get_elem? r.chunks r.next_chunk_index ≡ some chunk
      → Fine outcome r.next_chunk_index r.scheduler.scheduled_segments r.next_chunk_index (filled p)
      → Kept (Reader.consume cfg chunk p r)
  unfolding Reader.consume mark_consumed
  consume-Kept r chunk p k unclosed found (low, high, made) =
      let s = r.scheduler in
      let in_range = get_elem?-lt r.next_chunk_index r.chunks found in
      let whole : min cfg.total_segments (s.consumed_segments + 1) ≡ suc r.next_chunk_index =
        omega (arith, k.consumed, k.total, in_range) in
      let (grows, same) =
        pump-grows cfg
          (record s { consumed_segments = min cfg.total_segments (s.consumed_segments + 1) }) in
      let pumped =
        pump cfg
          (record s { consumed_segments = min cfg.total_segments (s.consumed_segments + 1) }) in
      let left = set r.chunks r.next_chunk_index (record chunk { decrypted_chunk = pending }) in
      let next_index : suc r.next_chunk_index ≡ r.next_chunk_index + 1 = omega arith in
      record {
        bounded = Step-Inv cfg positive (consume 1) k.bounded;
        consumed = same ∙ whole ∙ next_index;
        total = length-set r.chunks r.next_chunk_index _ ∙ k.total;
        within =
            subst (λ n. Within outcome n pumped.scheduled_segments 0 left) next_index
              (Within-grows outcome _ _ _ 0 _ grows (
                Within-set outcome r.next_chunk_index s.scheduled_segments r.next_chunk_index 0
                  r.chunks chunk (omega arith) k.within));
        delivered = Delivered-append outcome 0 r.enqueued p k.delivered (
            let place : 0 + length r.enqueued ≡ r.next_chunk_index = omega (arith, k.counted) in
            ap outcome place ∙ made);
        counted = omega (arith, length-append {0} r.enqueued (p ∷ []), k.counted);
        all = λ e. cc;
      }

  await_chunk-Kept :
      (r s : Reader) (chunk : Chunk) (m : Mailbox)
      → Kept r
      → r.closed ≡ false
      → get_elem? r.chunks r.next_chunk_index ≡ some chunk
      → Fine outcome r.next_chunk_index r.scheduler.scheduled_segments r.next_chunk_index m
      → await_chunk cfg chunk m r ≡ continues s
      → Kept s
  unfolding await_chunk
  await_chunk-Kept r s chunk pending k unclosed found f e = cc
  await_chunk-Kept r s chunk (rejected x) k unclosed found f e = cc
  await_chunk-Kept r s chunk (filled p) k unclosed found f e =
      let same : Reader.consume cfg chunk p r ≡ s = cc in
      subst Kept same (consume-Kept r chunk p k unclosed found f)

  pull_at-Kept :
      (r s : Reader) (found : Option Chunk)
      → Kept r
      → r.closed ≡ false
      → get_elem? r.chunks r.next_chunk_index ≡ found
      → pull_at cfg found r ≡ continues s
      → Kept s
  unfolding pull_at
  pull_at-Kept r s none k unclosed over e =
      let same : record r { closed = true } ≡ s = cc in
      subst Kept same (record {
        bounded = k.bounded;
        consumed = k.consumed;
        total = k.total;
        within = k.within;
        delivered = k.delivered;
        counted = k.counted;
        all = λ closed. omega (arith, get_elem?-none r.next_chunk_index r.chunks over, k.total);
      })
  pull_at-Kept r s (some chunk) k unclosed found e =
      await_chunk-Kept r s chunk chunk.decrypted_chunk k unclosed found
        (let place : 0 + r.next_chunk_index ≡ r.next_chunk_index = omega arith in
          subst
            (λ n.
              Fine outcome r.next_chunk_index r.scheduler.scheduled_segments n
                chunk.decrypted_chunk)
            place
            (Within-get outcome r.next_chunk_index r.scheduler.scheduled_segments r.next_chunk_index
              0 r.chunks found k.within))
        e

  -- What a change of the scheduler and of the mailboxes keeps.
  changed :
      (r : Reader) (s : Scheduler) (chunks : List Chunk)
      → Kept r
      → Inv cfg s
      → s.consumed_segments ≡ r.scheduler.consumed_segments
      → length chunks ≡ length r.chunks
      → Within outcome r.next_chunk_index s.scheduled_segments 0 chunks
      → Kept (record r { scheduler = s; chunks = chunks })
  changed r s chunks k bounded consumed total within = record {
    bounded = bounded;
    consumed = consumed ∙ k.consumed;
    total = total ∙ k.total;
    within = within;
    delivered = k.delivered;
    counted = k.counted;
    all = k.all;
  }

  settle_at-Kept :
      (r : Reader) (i : ℕ)
      → i < r.scheduler.scheduled_segments
      → Kept r
      → Kept (settle_at i (outcome i) r)
  unfolding settle_at
  settle_at-Kept r i scheduled k = elim (Bool-cases (ltb i r.next_chunk_index)) [
    | inl old ↦ rw old k
    | inr later ↦
        let chunks = Reader.update_at i (settle_chunk (outcome i)) r.chunks in
        let place : 0 + i ≡ i = omega arith in
        rw later (
          changed r r.scheduler chunks k k.bounded refl (length-update_at i _ r.chunks) (
            subst
              (λ n.
                Within outcome r.next_chunk_index r.scheduler.scheduled_segments 0
                  (Reader.update_at i (settle_chunk (outcome n)) r.chunks))
              place
              (Within-settle outcome r.next_chunk_index r.scheduler.scheduled_segments i 0 r.chunks
                (ground arith) (omega arith) k.within)))
  ]

  Step-Kept : {r s : Reader} → Step cfg outcome r s → Kept r → Kept s
  unfolding pull fail_from batch_settled
  Step-Kept {r} {s} (pulls unclosed e) k =
      pull_at-Kept r s (get_elem? r.chunks r.next_chunk_index) k unclosed refl e
  Step-Kept (settles {r} i scheduled) k = settle_at-Kept r i scheduled k
  Step-Kept (fails {r} (first, last) e) k =
      changed r _ _ k (Step-Inv cfg positive (fail (first, last)) k.bounded) refl
        (length-reject first r.chunks e)
        (Within-reject outcome r.next_chunk_index r.scheduler.scheduled_segments first 0 r.chunks e
          k.within)
  Step-Kept (ends {r} running) k =
      let s = r.scheduler in
      let (grows, same) =
        pump-grows cfg (record s { in_flight_batches = s.in_flight_batches - 1 }) in
      changed r _ r.chunks k (Step-Inv cfg positive (settle running) k.bounded) same refl
        (Within-grows outcome r.next_chunk_index s.scheduled_segments _ 0 r.chunks grows k.within)

  chunks_from-Within :
      (encrypted_default plain_default : ℕ) (segments : List Segment) (offset low high i : ℕ)
      → Within outcome low high i (chunks_from encrypted_default plain_default offset segments)
  unfolding chunks_from
  chunks_from-Within e p [] offset low high i = tt
  chunks_from-Within e p (s ∷ segments) offset low high i =
      (tt, chunks_from-Within e p segments _ low high (suc i))

  length-chunks_from :
      (encrypted_default plain_default : ℕ) (segments : List Segment) (offset : ℕ)
      → length (chunks_from encrypted_default plain_default offset segments) ≡ length segments
  unfolding chunks_from
  length-chunks_from e p [] offset = refl
  length-chunks_from e p (s ∷ segments) offset = ap suc (length-chunks_from e p segments _)

  module _ (encrypted_default plain_default : ℕ) (segments : List Segment)
      (all_segments : cfg.total_segments ≡ length segments) where
    Reach-Kept :
        {r : Reader}
        → Reach cfg outcome (chunks_from encrypted_default plain_default 0 segments) r
        → Kept r
    unfolding open_reader fill_window
    Reach-Kept here =
        let (grows, same) = pump-grows cfg initial in
        record {
          bounded = Step-Inv cfg positive fill (initial-Inv cfg positive);
          consumed = same;
          total = length-chunks_from encrypted_default plain_default segments 0 ∙ sym all_segments;
          within = chunks_from-Within encrypted_default plain_default segments 0 _ _ 0;
          delivered = tt;
          counted = refl;
          all = λ closed. cc;
        }
    Reach-Kept (next reached step) = Step-Kept step (Reach-Kept reached)

    -- At every point of a stream with the bounded scheduler, whatever batches have ended or failed and in whatever
    -- order their segments were decrypted: it holds at most a window of plain segments, as many as the batches that
    -- may be in flight have; its reader has got the first segments, as they were decrypted, in order, each
    -- once; and it is closed only when that is all of them. The batch size is at least 1.
    pub Reach-Bounded :
        {r : Reader}
        → Reach cfg outcome (chunks_from encrypted_default plain_default 0 segments) r
        → (held r.chunks ≤ cfg.segment_batch_size * cfg.max_concurrent_segment_batches)
          × Delivered outcome 0 r.enqueued
          × (length r.enqueued ≡ r.next_chunk_index)
          × (r.closed ≡ true → length r.enqueued ≡ length segments)
    Reach-Bounded {r} reached =
        let k = Reach-Kept reached in
        let few =
          held-le outcome r.next_chunk_index r.scheduler.scheduled_segments 0 r.chunks k.within in
        let window = k.bounded.window_bounded in
        (
          omega (arith, few, window, k.consumed),
          k.delivered,
          k.counted,
          λ closed. omega (
            arith,
            k.all closed,
            k.counted,
            k.consumed,
            k.bounded.consumed_bounded,
            all_segments,
          ),
        )
