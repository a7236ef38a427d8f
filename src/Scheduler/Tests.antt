-- ===== src/Scheduler/Tests.antt =====
-- A scheduler of ten segments run by hand, and the theorems at it.
use web_sdk.Base.{◌<◌, ◌≡◌, refl, true, false, [], ◌∷◌, arith, none, some, ok, err, Error}
use web_sdk.Scheduler.{
  Config, Scheduler, initial, pump, fill_window, mark_consumed, batch_failed, batch_settled, fill,
  settle, Reach, here, next, natural, other, get_bounded_segment_scheduler_options, can_schedule,
  schedule_next, pump_loop,
}
use web_sdk.Scheduler.Invariant.{Inv, Reach-Inv}
use web_sdk.Scheduler.Progress.{next_segment_scheduled}

run : Unit {0}
unfolding pump fill_window mark_consumed batch_failed batch_settled can_schedule schedule_next
    pump_loop
run = tt

abbrev cfg : Config
cfg = record { total_segments = 5; segment_batch_size = 2; max_concurrent_segment_batches = 2 }

abbrev filled : Scheduler
filled = fill_window cfg initial

filled_batches : filled.batches ≡ (0, 2) ∷ (2, 4) ∷ []
unfolding run
filled_batches = refl

-- The window is full until segments are consumed, and the last batch is short.
abbrev settled_twice : Scheduler
settled_twice = batch_settled cfg (batch_settled cfg filled)

consumed_batches :
    (settled_twice.batches ≡ (0, 2) ∷ (2, 4) ∷ [])
    × ((mark_consumed cfg 1 settled_twice).batches ≡ (0, 2) ∷ (2, 4) ∷ (4, 5) ∷ [])
unfolding run
consumed_batches = (refl, refl)

two_in_flight : filled.in_flight_batches ≡ 2
unfolding run
two_in_flight = refl

one_in_flight : (batch_settled cfg filled).in_flight_batches ≡ 1
unfolding run
one_in_flight = refl

Reach-settled : Reach cfg filled settled_twice
Reach-settled =
    next (next here (settle (rw two_in_flight (omega arith))))
      (settle (rw one_in_flight (omega arith)))

options_given :
    get_bounded_segment_scheduler_options none (some (natural 4))
    ≡ ok (some (record { segment_batch_size = 500; max_concurrent_segment_batches = 4 }))
unfolding get_bounded_segment_scheduler_options
options_given = refl

options_refused :
    (get_bounded_segment_scheduler_options (some (natural 0)) none ≡ err Error.configuration)
    × (get_bounded_segment_scheduler_options (some other) (some (natural 1))
        ≡ err Error.configuration)
    × (get_bounded_segment_scheduler_options none none ≡ ok none)
unfolding get_bounded_segment_scheduler_options
options_refused = (refl, refl, refl)

Reach-Inv_example : Inv cfg filled
Reach-Inv_example = Reach-Inv cfg (omega arith) (next here fill)

settled_facts :
    (settled_twice.stopped ≡ false)
    × (settled_twice.in_flight_batches ≡ 0)
    × (settled_twice.consumed_segments < 5)
unfolding run
settled_facts = (refl, refl, omega arith)

next_segment_scheduled_example : settled_twice.consumed_segments < settled_twice.scheduled_segments
next_segment_scheduled_example =
    next_segment_scheduled cfg settled_twice (omega arith) (omega arith) Reach-settled
      settled_facts.0 settled_facts.1 settled_facts.2

abbrev broken : Scheduler
broken = batch_failed (2, 4) filled

broken_stopped : broken.stopped ≡ true
unfolding run
broken_stopped = refl
