-- ===== src/Ctrl/Sender/Tests.antt =====
-- Runs of src/sched-lib/ctrl/sender.cpp: a response that is written, one that did not succeed, a null
-- pointer and one that cannot be serialized.
use swm_sched.Prelude.{
  ℕ, suc, ◌≡◌, refl, Bool, true, false, not, List, [], ◌∷◌, Option, none, some, arith,
  if◌then◌else◌, ◌==◌, ℕ_eq,
}
use swm_sched.Auxl.MyQueue.{MyQueue, new, push, pop, element_count}
use swm_sched.Ctrl.Sender.{
  new_sender, init, close, Serialized, fails, gives, Work, worker_round, worker_thread, Event,
  works, pushes, happen, run,
}
use swm_sched.Ctrl.Sender.Draining.{data_of_all, run-drains}

-- Responses are numbers here: an odd one did not succeed.
abbrev succeeds : ℕ → Bool
succeeds r = not (r == 1)

abbrev write_number : ℕ → Serialized
write_number r = if r == 4 then fails else gives (r ∷ [])

abbrev events : List (Event ℕ)
events =
    pushes (some 2)
    ∷ pushes (some 1)
    ∷ works
    ∷ pushes none
    ∷ pushes (some 4)
    ∷ works
    ∷ pushes (some 6)
    ∷ []

abbrev fresh : MyQueue (Option ℕ)
fresh = record { queue = none ∷ none ∷ none ∷ []; queue_size = 0; queue_pos = 0 }

writes_in_order :
    data_of_all succeeds write_number
      (run succeeds write_number events (record { queue = fresh; written = [] })).1
    ≡ (2 ∷ []) ∷ (6 ∷ []) ∷ []
unfolding data_of_all run happen worker_round push pop
writes_in_order = refl

made : new none 3 ≡ some fresh
unfolding new
made = refl

run-drains_example :
    let (w, took) = run succeeds write_number events (record { queue = fresh; written = [] }) in
    (w' : Work ℕ) × (worker_thread succeeds write_number (suc (element_count none w.queue)) true w
      ≡ some w')
    × (element_count none w'.queue ≡ 0)
    × (w'.written ≡ data_of_all succeeds write_number took)
run-drains_example = run-drains succeeds write_number 3 fresh events (omega arith) made

begins_once :
    (init (some 1) (some 2) new_sender
      ≡ some (record { closed = false; queue = some 1; output = some 2; joinable = true }))
    × (init
          (some 1)
          (some 2)
          (record { closed = false; queue = some 1; output = some 2; joinable = true })
        ≡ none)
    × (close new_sender ≡ none)
unfolding init close
begins_once = (refl, refl, refl)
