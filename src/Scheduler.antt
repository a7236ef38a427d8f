-- ===== src/Scheduler.antt =====
-- The bounded segment scheduler (createBoundedSegmentScheduler, normalizeSegmentBatchSetting and
-- getBoundedSegmentSchedulerOptions of lib/tdf3/src/tdf.ts).
-- The closure's variables are the record `Scheduler`; the calls of `scheduleBatch` and `onError`
-- are kept as logs. A scheduled batch runs outside: that its promise rejects, and that its `finally`
-- callback runs, are two events, between which others may come.
pub mod Invariant
pub mod Progress
mod Tests
use web_sdk.Base.{
  ℕ, zero, suc, ◌+◌, ◌-◌, ◌*◌, ◌<◌, Bool, true, false, not, ◌&&◌, ◌||◌, List, [], ◌∷◌, ◌++◌, Option,
  none, some, Result, ok, err, Error, ltb, leb, ◌==◌, if◌then◌else◌, min, ◌>>=◌,
}

pub record Config : Type 0 where
  pub total_segments : ℕ
  pub segment_batch_size : ℕ
  pub max_concurrent_segment_batches : ℕ

-- `startIndex` and `endIndex` of a call of `scheduleBatch`
abbrev pub Batch : Type 0
Batch = ℕ × ℕ

pub record Scheduler : Type 0 where
  pub consumed_segments : ℕ
  pub in_flight_batches : ℕ
  pub pumping : Bool
  pub scheduled_segments : ℕ
  pub stopped : Bool
  pub batches : List Batch
  pub errors : List Batch

abbrev pub initial : Scheduler
initial = record {
  consumed_segments = 0;
  in_flight_batches = 0;
  pumping = false;
  scheduled_segments = 0;
  stopped = false;
  batches = [];
  errors = [];
}

abbrev pub max_prefetched_segments : Config → ℕ
max_prefetched_segments cfg = cfg.segment_batch_size * cfg.max_concurrent_segment_batches

-- `maxPrefetchedSegments - (scheduledSegments - consumedSegments)`: where the source's number is
-- not positive this one is 0, and the loop breaks on either.
abbrev pub remaining_window : Config → Scheduler → ℕ
remaining_window cfg s = max_prefetched_segments cfg + s.consumed_segments - s.scheduled_segments

abbrev pub next_batch_size : Config → Scheduler → ℕ
next_batch_size cfg s = min cfg.segment_batch_size (cfg.total_segments - s.scheduled_segments)

-- The loop's condition, and its two tests that break.
unfoldable pub can_schedule : Config → Scheduler → Bool
can_schedule cfg s =
    not s.stopped
    && ltb s.in_flight_batches cfg.max_concurrent_segment_batches
    && ltb s.scheduled_segments cfg.total_segments
    && not (leb (remaining_window cfg s) 0)
    && not (ltb (remaining_window cfg s) (next_batch_size cfg s))

-- One round of the loop.
unfoldable pub schedule_next : Config → Scheduler → Scheduler
schedule_next cfg s =
    let start_index = s.scheduled_segments in
    let end_index = start_index + next_batch_size cfg s in
    record s {
      scheduled_segments = end_index;
      in_flight_batches = s.in_flight_batches + 1;
      batches = s.batches ++ (start_index, end_index) ∷ [];
    }

-- The loop, on fuel.
unfoldable pub pump_loop : ℕ → Config → Scheduler → Scheduler
pump_loop zero cfg s = s
pump_loop (suc fuel) cfg s = elim (can_schedule cfg s) [
  | true ↦ pump_loop fuel cfg (schedule_next cfg s)
  | false ↦ s
]

-- Each round takes one of the `maxConcurrentSegmentBatches` places, so that many rounds suffice.
unfoldable pub pump : Config → Scheduler → Scheduler
pump cfg s =
    if s.pumping || s.stopped
    then s
    else let pumped =
        pump_loop cfg.max_concurrent_segment_batches cfg (record s { pumping = true }) in
      record pumped { pumping = false }

unfoldable pub fill_window : Config → Scheduler → Scheduler
fill_window cfg s = pump cfg s

unfoldable pub mark_consumed : Config → ℕ → Scheduler → Scheduler
mark_consumed cfg count s =
    pump cfg (record s { consumed_segments = min cfg.total_segments (s.consumed_segments + count) })

-- The `catch` callback of a batch.
unfoldable pub batch_failed : Batch → Scheduler → Scheduler
batch_failed batch s = record s { stopped = true; errors = s.errors ++ batch ∷ [] }

-- The `finally` callback of a batch.
unfoldable pub batch_settled : Config → Scheduler → Scheduler
batch_settled cfg s = pump cfg (record s { in_flight_batches = s.in_flight_batches - 1 })

-- What can happen to a scheduler. A batch settles only while one is in flight.
pub data Step (cfg : Config) : Scheduler → Scheduler → Type 0 where
  fill : {s : Scheduler} → Step cfg s (fill_window cfg s)
  consume : {s : Scheduler} (count : ℕ) → Step cfg s (mark_consumed cfg count s)
  fail : {s : Scheduler} (batch : Batch) → Step cfg s (batch_failed batch s)
  settle : {s : Scheduler} → 0 < s.in_flight_batches → Step cfg s (batch_settled cfg s)

pub data Reach (cfg : Config) (s : Scheduler) : Scheduler → Type 0 where
  here : Reach cfg s s
  next : {t u : Scheduler} → Reach cfg s t → Step cfg t u → Reach cfg s u

-- A setting that a caller gives: a natural number, or some other number (negative, fractional,
-- infinite or NaN).
pub data Setting : Type 0 where
  natural : ℕ → Setting
  other : Setting

abbrev pub legacy_segments_per_download : ℕ
legacy_segments_per_download = 500

abbrev pub legacy_max_concurrent_segment_batches : ℕ
legacy_max_concurrent_segment_batches = 3

unfoldable pub normalize_segment_batch_setting : Option Setting → ℕ → Result ℕ
normalize_segment_batch_setting none default_value =
    if ltb default_value 1 then err Error.configuration else ok default_value
normalize_segment_batch_setting (some other) default_value = err Error.configuration
normalize_segment_batch_setting (some (natural n)) default_value =
    if ltb n 1 then err Error.configuration else ok n

pub record SchedulerOptions : Type 0 where
  pub segment_batch_size : ℕ
  pub max_concurrent_segment_batches : ℕ

normalize_both : Option Setting → Option Setting → Result (Option SchedulerOptions)
unfolding normalize_segment_batch_setting
normalize_both batch_size max_batches = do
  size ← normalize_segment_batch_setting batch_size legacy_segments_per_download
  count ← normalize_segment_batch_setting max_batches legacy_max_concurrent_segment_batches
  ok (some (record { segment_batch_size = size; max_concurrent_segment_batches = count }))

-- `none` is the source's `undefined`: no bounded scheduling.
unfoldable pub get_bounded_segment_scheduler_options :
    Option Setting → Option Setting → Result (Option SchedulerOptions)
unfolding normalize_both
get_bounded_segment_scheduler_options none none = ok none
get_bounded_segment_scheduler_options none (some m) = normalize_both none (some m)
get_bounded_segment_scheduler_options (some b) m = normalize_both (some b) m
