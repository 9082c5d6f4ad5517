-- ===== src/Chn/Chain/Tests.antt =====
-- Runs of src/sched-lib/chn/chain.cpp: a chain of two algorithms.
use swm_sched.Prelude.{ℕ, ◌≡◌, refl, true, false, [], ◌∷◌, none, some}
use swm_sched.Chn.Chain.{
  working, interrupted, finished, no_op, calling, leaving, returned, Chain, Answer, init,
  interrupt_async, inject_timetable_async, ready_for_async_operation, forced_to_interrupt, input,
  creates, end_round, leave,
}
use swm_sched.Chn.Chain.Reach.{starts, succeeds, leaves, IsConsistent}
use swm_sched.Chn.Chain.Safety.{Reached-IsConsistent}
use swm_sched.Chn.Chain.Requests.{
  commit_all, interrupt_async-stops, inject_timetable_async-replaces, interrupt_async-late,
}

abbrev begun : Chain ℕ
begun = record {
  status = working;
  async_op = no_op;
  algorithms = 2;
  injected_tt = none;
  intermediate_tt = none;
  actual_tt = none;
  phase = calling 0;
  current = none;
  next = none;
  injected = false;
}

abbrev answer : Answer ℕ
answer = record { succeeded = true; tt = some 7 }

unfoldable after_both : Chain ℕ
unfolding end_round leave
after_both =
    leave (end_round 1 (record { succeeded = true; tt = some 8 }) (end_round 0 answer begun))

both_succeed : (after_both.status ≡ finished) × (after_both.actual_tt ≡ some 8)
unfolding after_both
both_succeed = (refl, refl)

improves_the_first : input 1 (end_round 0 answer begun) ≡ some 7
unfolding input end_round creates
improves_the_first = refl

Reached-IsConsistent_example : IsConsistent (some 8 ∷ some 7 ∷ []) 2 after_both
unfolding after_both init end_round
Reached-IsConsistent_example = Reached-IsConsistent 2 (some 8 ∷ some 7 ∷ []) 2 after_both (
    leaves _ _ _
      (succeeds _ 1 _ 1 (some 8) (succeeds _ 0 _ 0 (some 7) (starts begun refl) refl) refl) refl)

abbrev asked : Chain ℕ
asked = elim (interrupt_async begun) [ none ↦ begun | some d ↦ d ]

interrupt_async-stops_example :
    (forced_to_interrupt (commit_all (some 3 ∷ []) asked) ≡ true)
    × (((end_round 0 answer (commit_all (some 3 ∷ []) asked)).status ≡ interrupted)
        × (((end_round 0 answer (commit_all (some 3 ∷ []) asked)).phase ≡ returned)
            × ((ready_for_async_operation (end_round 0 answer (commit_all (some 3 ∷ []) asked))
                  ≡ some true)
                × ((end_round 0 answer (commit_all (some 3 ∷ []) asked)).actual_tt ≡ some 7))))
unfolding interrupt_async
interrupt_async-stops_example = interrupt_async-stops begun asked 0 answer (some 3 ∷ []) refl refl

abbrev replaced : Chain ℕ
replaced = elim (inject_timetable_async (some 5) begun) [ none ↦ begun | some d ↦ d ]

inject_timetable_async-replaces_example :
    ((end_round 0 answer replaced).actual_tt ≡ some 5)
    × ((ready_for_async_operation (end_round 0 answer replaced) ≡ some true)
        × ((j : ℕ)
            → (end_round 0 answer replaced).phase ≡ calling j
            → input j (end_round 0 answer replaced) ≡ some 5))
unfolding inject_timetable_async
inject_timetable_async-replaces_example =
    inject_timetable_async-replaces begun replaced 0 answer (some 5) refl refl

-- The second algorithm has returned, and the status is still to be set.
abbrev almost_done : Chain ℕ
almost_done = record begun { phase = leaving; actual_tt = some 8; current = some 8; next = some 7 }

interrupt_async-late_example :
    (d : Chain ℕ) × (interrupt_async almost_done ≡ some d)
    × (ready_for_async_operation (leave d) ≡ some false)
interrupt_async-late_example = interrupt_async-late almost_done refl refl refl
