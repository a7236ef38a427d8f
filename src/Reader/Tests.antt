-- ===== src/Reader/Tests.antt =====
-- A stream of two segments, the second decrypted before the first, and the theorem at it.
use web_sdk.Base.{ℕ, ◌*◌, ◌≤◌, ◌≡◌, refl, true, List, [], ◌∷◌, Result, ok, length, arith, none}
use web_sdk.Scheduler.{
  Config, pump, fill_window, mark_consumed, can_schedule, schedule_next, pump_loop,
}
use web_sdk.Segments.{Segment, filled, chunks_from, settle, settle_chunk, or_default}
use web_sdk.Reader.{
  Reader, consume, await_chunk, pull_at, pull, open_reader, settle_at, pulls, settles, Reach, here,
  next,
}
use web_sdk.Reader.Held.{held, Delivered}
use web_sdk.Reader.Bounded.{Reach-Bounded}

run : Unit {0}
unfolding pump fill_window mark_consumed can_schedule schedule_next pump_loop consume await_chunk
    pull_at pull open_reader settle_at chunks_from settle_chunk settle or_default
run = tt

abbrev cfg : Config
cfg = record { total_segments = 2; segment_batch_size = 1; max_concurrent_segment_batches = 2 }

abbrev outcome : ℕ → Result (List ℕ)
outcome i = ok (i ∷ 7 ∷ [])

abbrev segments : List Segment
segments =
    record { hash = []; segment_size = none; encrypted_segment_size = none }
    ∷ record { hash = []; segment_size = none; encrypted_segment_size = none }
    ∷ []

abbrev opened : Reader
opened = open_reader cfg (chunks_from 30 2 0 segments)

abbrev both : Reader
both = settle_at 0 (outcome 0) (settle_at 1 (outcome 1) opened)

abbrev after : Reader
after =
    consume cfg
      (record {
        hash = [];
        plain_segment_size = 2;
        encrypted_offset = 0;
        encrypted_segment_size = 30;
        decrypted_chunk = filled (0 ∷ 7 ∷ []);
      })
      (0 ∷ 7 ∷ []) both

held_two_then_one :
    (held both.chunks ≡ 2) × (held after.chunks ≡ 1) × (after.enqueued ≡ (0 ∷ 7 ∷ []) ∷ [])
unfolding run
held_two_then_one = (refl, refl, refl)

scheduled_two : opened.scheduler.scheduled_segments ≡ 2
unfolding run
scheduled_two = refl

still_two : (settle_at 1 (outcome 1) opened).scheduler.scheduled_segments ≡ 2
unfolding run
still_two = refl

Reach-after : Reach cfg outcome (chunks_from 30 2 0 segments) after
unfolding run
Reach-after =
    next
      (next (next here (settles 1 (rw scheduled_two (omega arith))))
        (settles 0 (rw still_two (omega arith))))
      (pulls refl refl)

Reach-Bounded_example :
    (held after.chunks ≤ 1 * 2)
    × Delivered outcome 0 after.enqueued
    × (length after.enqueued ≡ after.next_chunk_index)
    × (after.closed ≡ true → length after.enqueued ≡ length segments)
Reach-Bounded_example =
    Reach-Bounded cfg (omega arith) outcome 30 2 segments refl {r = after} Reach-after
