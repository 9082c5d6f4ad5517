-- ===== src/Chn/ChainController/Tests.antt =====
-- Runs of src/sched-lib/chn/chain_controller.cpp.
use swm_sched.Prelude.{
  ℕ, ◌≡◌, refl, ◌⊎◌, Bool, true, false, List, [], ◌∷◌, ◌++◌, map, none, some, arith, replicate,
}
use swm_sched.Chn.Chain.{
  working, interrupted, no_op, interrupt, calling as in_algorithm, Chain, Answer, interrupt_async,
  end_round, commit_intermediate_timetable, ready_for_async_operation, actual_timetable,
  inject_timetable_async,
}
use swm_sched.Chn.Chain.Requests.{commit_all}
use swm_sched.Chn.ChainController.{
  starting, looping, calling, draining, done, ChainController, new_controller, init, invoke, start,
  enter_round, returned, drain, notify,
}
use swm_sched.Chn.ChainController.Reach.{begins, places, starts, enters, returns, drains, notifies}
use swm_sched.Chn.ChainController.Queue.{Reached-called}
use swm_sched.Chn.ChainController.Interruption.{Interruption, interrupt_run}
use swm_sched.Chn.ChainController.Interruption
use swm_sched.Chn.ChainController.Interrupting.{quiet, interrupt_run-ends, interrupt_run-soft}
use swm_sched.Chn.ChainController.Exchange.{
  waiting, tt_injecting, injects, told, Side, Event, left_step, right_step, left_chain,
  exchange_run,
}
use swm_sched.Chn.ChainController.Exchange
use swm_sched.Chn.ChainController.Timeouts.{exchange_run-ends, exchange_run-own}

-- Two functions are placed: the first stops the controller, the second is skipped.
abbrev begun : ChainController ℕ
begun = record new_controller { initialized = true; phase = starting }

abbrev with_two : ChainController ℕ
with_two = record begun { queue = 7 ∷ 8 ∷ [] }

abbrev stopped_early : ChainController ℕ
stopped_early = record with_two { queue = 8 ∷ []; stopped = true; phase = looping }

unfoldable ended : ChainController ℕ
unfolding drain notify
ended = notify false (drain false (drain false (record stopped_early { phase = draining false })))

Reached-called_example :
    (map {A = ℕ × Bool} (λ call. call.0) ((7, false) ∷ (8, true) ∷ []) ≡ 7 ∷ 8 ∷ [])
    × (((func : ℕ) → invoke func ended ≡ some (ended, true))
        × ((ended.phase ≡ done true) → false ≡ true))
unfolding ended init invoke start enter_round returned drain notify
Reached-called_example =
    Reached-called {placed = 7 ∷ 8 ∷ []} {calls = (7, false) ∷ (8, true) ∷ []} {won = false}
      {c = ended}
      (notifies false
        (drains false
          (drains false
            (enters {d = record stopped_early { phase = draining false }} false false
              (returns 7 true
                (enters {d = record with_two { queue = 8 ∷ []; phase = calling 7 }} false false
                  (starts
                    (places 8 (places 7 (begins begun refl) (λ s e. cc) refl) (λ s e. cc) refl)
                    refl)
                  refl refl)
                refl)
              refl refl)
            refl)
          refl)
        refl)
      refl

abbrev at_work : Chain ℕ
at_work = record {
  status = working;
  async_op = no_op;
  algorithms = 2;
  injected_tt = none;
  intermediate_tt = none;
  actual_tt = some 4;
  phase = in_algorithm 1;
  current = some 4;
  next = none;
  injected = false;
}

abbrev answer : Answer ℕ
answer = record { succeeded = true; tt = some 9 }

abbrev asked_to_stop : Chain ℕ
asked_to_stop = record at_work { async_op = interrupt; intermediate_tt = some 2 }

-- The algorithm commits a timetable before it is asked to stop, and another one afterwards.
interrupt_run-soft_example :
    (interrupt_run false
        ((false, commit_all (some 2 ∷ []))
          ∷ quiet
          ∷ quiet
          ∷ quiet
          ∷ (replicate 3 quiet
              ++ (false, λ k. end_round 1 answer (commit_all (some 3 ∷ []) k)) ∷ quiet ∷ []))
        (record { chain = at_work; hard = false; phase = Interruption.asked })
      ≡ record {
        chain = end_round 1 answer (commit_all (some 3 ∷ []) asked_to_stop);
        hard = false;
        phase = Interruption.told true;
      })
    × (((end_round 1 answer (commit_all (some 3 ∷ []) asked_to_stop)).status ≡ interrupted)
        × (ready_for_async_operation (end_round 1 answer (commit_all (some 3 ∷ []) asked_to_stop))
            ≡ some true))
unfolding interrupt_async commit_all commit_intermediate_timetable
interrupt_run-soft_example =
    interrupt_run-soft (commit_all (some 2 ∷ [])) (λ c. c) (λ c. c) (λ c. c) at_work asked_to_stop
      false 1 answer (some 3 ∷ []) 3
      (refl, (refl, (refl, (refl, (refl, (refl, (refl, (refl, tt)))))))) refl

abbrev late : List (Bool × (Chain ℕ → Chain ℕ))
late = replicate 6 (true, λ c. c)

abbrev to_interrupt : Interruption ℕ
to_interrupt = record { chain = at_work; hard = false; phase = Interruption.asked }

interrupt_run-ends_example :
    ((b : Bool) × ((interrupt_run false late to_interrupt).phase ≡ Interruption.told b))
    ⊎ ((interrupt_run false late to_interrupt).phase ≡ Interruption.threw)
interrupt_run-ends_example =
    interrupt_run-ends false late to_interrupt (refl, (refl, (refl, (refl, (refl, (refl, tt))))))
      (omega arith)

-- Two chains that are at work, with the timetables 4 and 6.
abbrev left : Side ℕ
left = record { chain = at_work; stage = waiting; points = false; phase = Exchange.asked }

abbrev right : Side ℕ
right = record left { chain = record at_work { actual_tt = some 6; current = some 6 } }

abbrev both_step : List (Event ℕ)
both_step = left_step false ∷ right_step false ∷ []

abbrev until_agreed : List (Event ℕ)
until_agreed =
    both_step
    ++ (both_step
        ++ (both_step
            ++ (both_step
                ++ (both_step
                    ++ (both_step ++ (both_step ++ (both_step ++ (both_step ++ both_step))))))))

-- After ten steps of each both are about to inject, and two more exchange the timetables.
exchanges :
    ((exchange_run until_agreed (left, right)).0.phase ≡ injects)
    × ((exchange_run until_agreed (left, right)).1.phase ≡ injects)
    × ((exchange_run (until_agreed ++ both_step) (left, right)).0.chain.injected_tt ≡ some 6)
    × ((exchange_run (until_agreed ++ both_step) (left, right)).1.chain.injected_tt ≡ some 4)
unfolding exchange_run actual_timetable ready_for_async_operation inject_timetable_async
exchanges = (refl, refl, refl, refl)

abbrev late_left : List (Event ℕ)
late_left = replicate 11 (left_step true)

exchange_run-ends_example :
    ((b : Bool) × ((exchange_run late_left (left, right)).0.phase ≡ told b))
    ⊎ ((exchange_run late_left (left, right)).0.phase ≡ Exchange.threw)
exchange_run-ends_example =
    exchange_run-ends late_left left right
      (refl, (refl, (refl, (refl, (refl, (refl, (refl, (refl, (refl, (refl, (refl, tt)))))))))))
      (omega arith)

abbrev left_injects : Side ℕ
left_injects = record left { stage = tt_injecting; points = true; phase = injects }

abbrev right_injects : Side ℕ
right_injects = record right { stage = tt_injecting; points = true; phase = injects }

abbrev round_between : List (Event ℕ)
round_between = left_step false ∷ left_chain (end_round 1 answer) ∷ right_step false ∷ []

exchange_run-own_example :
    ((exchange_run round_between (left_injects, right_injects)).1.phase ≡ told true)
    × ((exchange_run round_between (left_injects, right_injects)).1.chain.injected_tt ≡ some 6)
exchange_run-own_example =
    exchange_run-own left_injects right_injects 1 answer (refl, refl) (refl, refl) (refl, refl)
