-- ===== src/Ctrl/Processor/Tests.antt =====
-- Runs of src/sched-lib/ctrl/processor.cpp: two known algorithms, and a chain that runs.
use swm_sched.Prelude.{
  ◌≤◌, ℕ, ◌+◌, ◌≡◌, refl, ℕ_eq, Bool, true, false, List, [], ◌∷◌, Option, none, some,
}
use swm_sched.Ctrl.Processor.{
  AlgorithmDesc, AlgorithmSpec, made, matches, select, instantiate, create_algorithms,
  exchange_command, interrupt_command, Processor, dispatch, not_thrown, at_first, try_dispatch,
  process,
}
use swm_sched.Ctrl.Processor.Answers.{answers_for, process-answers}

abbrev fcfs_on : ℕ → AlgorithmDesc
fcfs_on unit = record { family_id = "fcfs"; version = "0.1"; device_type = unit }

abbrev any_fcfs : AlgorithmSpec
any_fcfs = record { family = "fcfs"; version = none; compute_unit = none }

abbrev fcfs_on_two : AlgorithmSpec
fcfs_on_two = record { family = "fcfs"; version = some "0.1"; compute_unit = some 2 }

-- An algorithm is the number of its compute unit.
abbrev create : AlgorithmDesc → Option ℕ
create desc = some desc.device_type

abbrev bind_to : ℕ → Bool
bind_to algorithm = true

abbrev known : List AlgorithmDesc
known = fcfs_on 1 ∷ fcfs_on 2 ∷ []

takes_the_first :
    create_algorithms create bind_to known (any_fcfs ∷ fcfs_on_two ∷ []) ≡ made (1 ∷ 2 ∷ [])
unfolding create_algorithms select instantiate matches
takes_the_first = refl

abbrev one_chain : Processor ℕ
one_chain = record {
  chains = (7, record { algorithms = 1 ∷ []; invoked = [] }) ∷ [];
  out_queue = [];
  requests = 1;
}

refuses_unknown :
    (process create bind_to known not_thrown (interrupt_command 9 8) one_chain).out_queue
    ≡ record { context = 9; succeeded = false } ∷ []
unfolding process try_dispatch dispatch
refuses_unknown = refl

process-answers_example :
    (not_thrown ≡ not_thrown
      → answers_for 9 (process create bind_to known not_thrown (exchange_command 9 7 7) one_chain)
        ≡ answers_for 9 one_chain + 1)
    × (answers_for 9 one_chain
        ≤ answers_for 9
            (process create bind_to known not_thrown (exchange_command 9 7 7) one_chain))
    × (answers_for 9 (process create bind_to known not_thrown (exchange_command 9 7 7) one_chain)
        ≤ answers_for 9 one_chain + 1)
process-answers_example =
    process-answers create bind_to known 9 not_thrown (exchange_command 9 7 7) one_chain

no_answer_at_all :
    answers_for 9 (process create bind_to known at_first (exchange_command 9 7 7) one_chain) ≡ 0
unfolding process try_dispatch answers_for
no_answer_at_all = refl
