-- ===== src/Scheduler/Invariant.antt =====
-- What holds of a scheduler between two events: its bounds, and that the batches it has handed out
-- tile the segments from the first one on.
use web_sdk.Base.{
  ℕ, zero, suc, ◌+◌, ◌≤◌, ◌<◌, ◌≡◌, refl, Bool, true, false, List, [], ◌∷◌, ◌++◌, arith, length,
  length-append, Bool-cases, inl, inr, ◌||◌,
}
use web_sdk.Scheduler.{
  Config, Batch, Scheduler, initial, max_prefetched_segments, next_batch_size, can_schedule,
  schedule_next, pump_loop, pump, fill_window, mark_consumed, batch_failed, batch_settled, Step,
  fill, consume, fail, settle, Reach, here, next,
}

-- The batches follow one another from `start` to `end`, each of 1 to `size` segments.
abbrev pub Tiles : ℕ → ℕ → List Batch → ℕ → Type 0
Tiles size start [] end = start ≡ end
Tiles size start ((a, b) ∷ rest) end =
    (a ≡ start) × (a < b) × (b ≤ a + size) × Tiles size b rest end

Tiles-append :
    (size start : ℕ) (batches : List Batch) (a b : ℕ)
    → Tiles size start batches a
    → a < b
    → b ≤ a + size
    → Tiles size start (batches ++ (a, b) ∷ []) b
Tiles-append size start [] a b h p q = (omega arith, p, q, refl)
Tiles-append size start ((c, d) ∷ rest) a b (e, f, g, h) p q =
    (e, f, g, Tiles-append size d rest a b h p q)

module _ (cfg : Config) where
  pub record Inv (s : Scheduler) : Type 0 where
    pub in_flight_bounded : s.in_flight_batches ≤ cfg.max_concurrent_segment_batches
    pub in_flight_scheduled : s.in_flight_batches ≤ length s.batches
    pub consumed_bounded : s.consumed_segments ≤ cfg.total_segments
    pub scheduled_bounded : s.scheduled_segments ≤ cfg.total_segments
    pub window_bounded : s.scheduled_segments ≤ s.consumed_segments + max_prefetched_segments cfg
    pub tiled : Tiles cfg.segment_batch_size 0 s.batches s.scheduled_segments

-- A batch size of 1 at least, as `getBoundedSegmentSchedulerOptions` sees to.
module _ (cfg : Config) (positive : 1 ≤ cfg.segment_batch_size) where
  schedule_next-Inv :
      (s : Scheduler) → can_schedule cfg s ≡ true → Inv cfg s → Inv cfg (schedule_next cfg s)
  unfolding can_schedule schedule_next
  schedule_next-Inv s c i = record {
    in_flight_bounded = ground arith;
    in_flight_scheduled = omega (
      arith,
      i.in_flight_scheduled,
      length-append {0} s.batches
          ((s.scheduled_segments, s.scheduled_segments + next_batch_size cfg s) ∷ []),
    );
    consumed_bounded = i.consumed_bounded;
    scheduled_bounded = ground arith;
    window_bounded = ground arith;
    tiled =
        Tiles-append cfg.segment_batch_size 0 s.batches s.scheduled_segments _ i.tiled
          (ground arith) (omega arith);
  }

  pump_loop-Inv : (fuel : ℕ) (s : Scheduler) → Inv cfg s → Inv cfg (pump_loop fuel cfg s)
  unfolding pump_loop
  pump_loop-Inv zero s i = i
  pump_loop-Inv (suc fuel) s i = elim (Bool-cases (can_schedule cfg s)) [
    | inl more ↦
        rw (more, pump_loop) (pump_loop-Inv fuel (schedule_next cfg s) (schedule_next-Inv s more i))
    | inr done ↦ rw (done, pump_loop) i
  ]

  -- The flag is no part of the invariant.
  Inv-pumping : (s : Scheduler) (b : Bool) → Inv cfg s → Inv cfg (record s { pumping = b })
  Inv-pumping s b i = record {
    in_flight_bounded = i.in_flight_bounded;
    in_flight_scheduled = i.in_flight_scheduled;
    consumed_bounded = i.consumed_bounded;
    scheduled_bounded = i.scheduled_bounded;
    window_bounded = i.window_bounded;
    tiled = i.tiled;
  }

  pump-Inv : (s : Scheduler) → Inv cfg s → Inv cfg (pump cfg s)
  unfolding pump
  pump-Inv s i = elim (Bool-cases (s.pumping || s.stopped)) [
    | inl skipped ↦ rw skipped i
    | inr pumped ↦ rw pumped (
        Inv-pumping _ false
          (pump_loop-Inv cfg.max_concurrent_segment_batches _ (Inv-pumping s true i)))
  ]

  pub Step-Inv : {s t : Scheduler} → Step cfg s t → Inv cfg s → Inv cfg t
  unfolding fill_window mark_consumed batch_failed batch_settled
  Step-Inv fill i = pump-Inv _ i
  Step-Inv (consume {s} count) i = pump-Inv _ (record {
    in_flight_bounded = i.in_flight_bounded;
    in_flight_scheduled = i.in_flight_scheduled;
    consumed_bounded = omega arith;
    scheduled_bounded = i.scheduled_bounded;
    window_bounded = omega (arith, i.window_bounded, i.consumed_bounded);
    tiled = i.tiled;
  })
  Step-Inv (fail batch) i = record {
    in_flight_bounded = i.in_flight_bounded;
    in_flight_scheduled = i.in_flight_scheduled;
    consumed_bounded = i.consumed_bounded;
    scheduled_bounded = i.scheduled_bounded;
    window_bounded = i.window_bounded;
    tiled = i.tiled;
  }
  Step-Inv (settle {s} h) i = pump-Inv _ (record {
    in_flight_bounded = omega (arith, i.in_flight_bounded);
    in_flight_scheduled = omega (arith, i.in_flight_scheduled);
    consumed_bounded = i.consumed_bounded;
    scheduled_bounded = i.scheduled_bounded;
    window_bounded = i.window_bounded;
    tiled = i.tiled;
  })

  pub initial-Inv : Inv cfg initial
  initial-Inv = omega arith

  -- Whatever calls of `fillWindow` and `markConsumed`, rejections and settlements a scheduler has
  -- seen: at most `maxConcurrentSegmentBatches` batches are in flight, no more than the window's
  -- segments are scheduled beyond the consumed ones, and the batches handed to `scheduleBatch` tile
  -- the scheduled segments, in order from the first, without a gap or an overlap, each with at least
  -- one and at most `segmentBatchSize` segments.
  pub Reach-Inv : {s : Scheduler} → Reach cfg initial s → Inv cfg s
  Reach-Inv here = initial-Inv
  Reach-Inv (next r st) = Step-Inv st (Reach-Inv r)

module _ (cfg : Config) where
  -- A call from outside finds the flag down and leaves it down.
  pump-pumping : (s : Scheduler) → s.pumping ≡ false → (pump cfg s).pumping ≡ false
  unfolding pump
  pump-pumping s h = ground arith

  Step-pumping : {s t : Scheduler} → Step cfg s t → s.pumping ≡ false → t.pumping ≡ false
  unfolding fill_window mark_consumed batch_failed batch_settled
  Step-pumping fill h = pump-pumping _ h
  Step-pumping (consume count) h = pump-pumping _ h
  Step-pumping (fail batch) h = h
  Step-pumping (settle k) h = pump-pumping _ h

  pub Reach-pumping : {s : Scheduler} → Reach cfg initial s → s.pumping ≡ false
  Reach-pumping here = refl
  Reach-pumping (next r st) = Step-pumping st (Reach-pumping r)
