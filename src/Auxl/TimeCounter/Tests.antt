-- ===== src/Auxl/TimeCounter/Tests.antt =====
-- Runs of the counter of src/sched-lib/auxl/time_counter.cpp.
use swm_sched.Prelude.{◌≡◌, refl, List, [], ◌∷◌, none, some}
use swm_sched.Auxl.TimeCounter.{
  to_seconds, new_counter, working_add, is_idling, get_times, reset, turn_on_loop, turn_on,
  turn_off_loop, turn_off,
}
use swm_sched.Auxl.TimeCounter.Periods.{
  Event, turns_on, turns_off, resets, apply, run, times_of_run,
}

abbrev overlapping : List Event
overlapping =
    turns_on 1 12000 12010
    ∷ turns_off 1 13000 13020
    ∷ resets 14000
    ∷ turns_on 1 20000 20000
    ∷ turns_on 2 25900 25900
    ∷ turns_off 1 40000 40000
    ∷ turns_off 2 50000 51000
    ∷ []

-- 24.1 microseconds are 24.
gives :
    times_of_run 60000 (run overlapping (new_counter 10000))
    ≡ some (record { astronomical = 46; idling = 15; working = 44 })
unfolding run apply turn_on turn_on_loop turn_off turn_off_loop reset is_idling get_times
    working_add to_seconds
gives = refl

-- The time between the two readings of `turn_off` is neither idle nor worked.
lost :
    times_of_run 30000
      (run (turns_on 1 10000 10000 ∷ turns_off 1 20000 25000 ∷ []) (new_counter 10000))
    ≡ some (record { astronomical = 20; idling = 5; working = 10 })
unfolding run apply turn_on turn_on_loop turn_off turn_off_loop is_idling get_times working_add
    to_seconds
lost = refl

throws_when_on : run (turns_on 1 12 12 ∷ turns_on 1 13 13 ∷ []) (new_counter 10) ≡ none
unfolding run apply turn_on turn_on_loop
throws_when_on = refl
