-- ===== src/Scheduler/Progress.antt =====
-- What a scheduler does not fail to do, and what it no longer does once a batch has failed.
use web_sdk.Base.{
  ℕ, zero, suc, ◌+◌, ◌≤◌, ◌<◌, ◌≡◌, refl, ◌∙◌, Bool, true, false, ◌||◌, arith, Option, none, some,
  ok, Bool-cases, inl, inr,
}
use web_sdk.Scheduler.{
  Config, Scheduler, initial, max_prefetched_segments, can_schedule, schedule_next, pump_loop, pump,
  fill_window, mark_consumed, batch_failed, batch_settled, Step, fill, consume, fail, settle, Reach,
  here, next, Setting, natural, other, SchedulerOptions, get_bounded_segment_scheduler_options,
  normalize_segment_batch_setting,
}
use web_sdk.Scheduler.Invariant.{Reach-pumping}

module _ (cfg : Config) where
  full_place :
      (s : Scheduler)
      → cfg.max_concurrent_segment_batches ≤ s.in_flight_batches
      → can_schedule cfg s ≡ false
  unfolding can_schedule
  full_place s h = ground arith

  taken_place :
      (s : Scheduler) (fuel : ℕ)
      → cfg.max_concurrent_segment_batches ≤ s.in_flight_batches + suc fuel
      → cfg.max_concurrent_segment_batches ≤ (schedule_next cfg s).in_flight_batches + fuel
  unfolding schedule_next
  taken_place s fuel h = omega arith

  -- The fuel of `pump` is enough: with as much fuel as there are places the loop ends by its test.
  pump_loop-maximal :
      (fuel : ℕ) (s : Scheduler)
      → cfg.max_concurrent_segment_batches ≤ s.in_flight_batches + fuel
      → can_schedule cfg (pump_loop fuel cfg s) ≡ false
  unfolding pump_loop
  pump_loop-maximal zero s h = full_place s (omega arith)
  pump_loop-maximal (suc fuel) s h = elim (Bool-cases (can_schedule cfg s)) [
    | inl more ↦
        rw (more, pump_loop) (pump_loop-maximal fuel (schedule_next cfg s) (taken_place s fuel h))
    | inr done ↦ rw (done, pump_loop) done
  ]

  can_schedule-pumping :
      (s : Scheduler) (b : Bool) → can_schedule cfg (record s { pumping = b }) ≡ can_schedule cfg s
  unfolding can_schedule
  can_schedule-pumping s b = refl

  can_schedule-stopped : (s : Scheduler) → s.stopped ≡ true → can_schedule cfg s ≡ false
  unfolding can_schedule
  can_schedule-stopped s h = rw h

  -- A call from outside leaves nothing that it could still schedule.
  pump-maximal : (s : Scheduler) → s.pumping ≡ false → can_schedule cfg (pump cfg s) ≡ false
  unfolding pump
  pump-maximal s h = elim (Bool-cases (s.pumping || s.stopped)) [
    | inl skipped ↦ rw skipped (can_schedule-stopped s (ground arith))
    | inr going ↦ rw going (
        can_schedule-pumping _ false
        ∙ pump_loop-maximal cfg.max_concurrent_segment_batches _ (omega arith))
  ]

  Step-maximal : {s t : Scheduler} → Step cfg s t → s.pumping ≡ false → can_schedule cfg t ≡ false
  unfolding fill_window mark_consumed batch_failed batch_settled
  Step-maximal fill h = pump-maximal _ h
  Step-maximal (consume count) h = pump-maximal _ h
  Step-maximal (fail batch) h = can_schedule-stopped _ refl
  Step-maximal (settle k) h = pump-maximal _ h

  Reach-fill : {s : Scheduler} → Reach cfg (fill_window cfg initial) s → Reach cfg initial s
  Reach-fill here = next here fill
  Reach-fill (next r st) = next (Reach-fill r) st

  Reach-maximal :
      {s : Scheduler} → Reach cfg (fill_window cfg initial) s → can_schedule cfg s ≡ false
  Reach-maximal here = Step-maximal fill refl
  Reach-maximal (next r st) = Step-maximal st (Reach-pumping cfg (Reach-fill r))

-- With no batch in flight, room for one, and every scheduled segment consumed, a scheduler that has
-- segments left schedules some.
idle-can_schedule :
    (cfg : Config) (s : Scheduler)
    → 1 ≤ cfg.segment_batch_size
    → 1 ≤ cfg.max_concurrent_segment_batches
    → s.stopped ≡ false
    → s.in_flight_batches ≡ 0
    → s.scheduled_segments ≤ s.consumed_segments
    → s.scheduled_segments < cfg.total_segments
    → can_schedule cfg s ≡ true
unfolding can_schedule
idle-can_schedule cfg s size count going idle behind left =
    let window : cfg.segment_batch_size ≤ max_prefetched_segments cfg = grind arith in ground arith

-- No deadlock: once `fillWindow` has been called, and with a batch size and a number of concurrent
-- batches of at least 1, whenever all batches have settled and none has failed, and the reader has
-- not consumed every segment, the segment that it waits for has been scheduled.
pub next_segment_scheduled :
    (cfg : Config) (s : Scheduler)
    → 1 ≤ cfg.segment_batch_size
    → 1 ≤ cfg.max_concurrent_segment_batches
    → Reach cfg (fill_window cfg initial) s
    → s.stopped ≡ false
    → s.in_flight_batches ≡ 0
    → s.consumed_segments < cfg.total_segments
    → s.consumed_segments < s.scheduled_segments
next_segment_scheduled cfg s size count r going idle left =
    let settled = Reach-maximal cfg r in
    let busy = idle-can_schedule cfg s size count going idle in ground (arith, busy)

-- A step of a stopped scheduler keeps it stopped and hands out no batch.
Step-stopped :
    {cfg : Config} {s t : Scheduler}
    → Step cfg s t
    → s.stopped ≡ true
    → (t.stopped ≡ true) × (t.batches ≡ s.batches)
unfolding fill_window mark_consumed batch_failed batch_settled pump
Step-stopped fill h = ground arith
Step-stopped (consume count) h = ground arith
Step-stopped (fail batch) h = (refl, refl)
Step-stopped (settle k) h = ground arith

-- A scheduler that a failed batch has stopped stays stopped, whatever happens to it, and calls
-- `scheduleBatch` no more.
pub stopped_for_good :
    {cfg : Config} {s t : Scheduler}
    → Reach cfg s t
    → s.stopped ≡ true
    → (t.stopped ≡ true) × (t.batches ≡ s.batches)
stopped_for_good here h = (h, refl)
stopped_for_good (next r st) h =
    let (still, same) = stopped_for_good r h in
    let (still', same') = Step-stopped st still in (still', same' ∙ same)

-- Whenever options come out for the bounded scheduler, whichever of the two settings was given, both
-- of its numbers are at least 1.
pub options_positive :
    (batch_size max_batches : Option Setting) (opts : SchedulerOptions)
    → get_bounded_segment_scheduler_options batch_size max_batches ≡ ok (some opts)
    → (1 ≤ opts.segment_batch_size) × (1 ≤ opts.max_concurrent_segment_batches)
unfolding get_bounded_segment_scheduler_options normalize_segment_batch_setting
options_positive none none opts h = cc
options_positive none (some (natural m)) opts h = ground arith
options_positive none (some other) opts h = cc
options_positive (some (natural b)) none opts h = ground arith
options_positive (some (natural b)) (some (natural m)) opts h = ground arith
options_positive (some (natural b)) (some other) opts h = ground arith
options_positive (some other) m opts h = cc
