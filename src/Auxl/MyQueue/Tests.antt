-- ===== src/Auxl/MyQueue/Tests.antt =====
-- Runs of src/sched-lib/auxl/my_queue.h on small queues, and instances of its theorems.
use swm_sched.Prelude.{ℕ, ◌≡◌, refl, ◌⊎◌, List, [], ◌∷◌, ◌++◌, none, some, arith}
use swm_sched.Auxl.MyQueue.{MyQueue, Call, pushes, pops, peeks, size, new, run}
use swm_sched.Auxl.MyQueue.Fifo.{
  IsValid, to_list, serve_all, taken, accepted, run-refines, run-conserves, new-IsValid,
}

-- Three slots, of which the last and the first are taken.
abbrev wrapped : MyQueue ℕ
wrapped = record { queue = 8 ∷ 0 ∷ 7 ∷ []; queue_size = 2; queue_pos = 2 }

abbrev calls : List (Call ℕ)
calls = pushes 9 ∷ pushes 10 ∷ pops ∷ peeks ∷ pops ∷ pops ∷ pops ∷ []

run-wrapped :
    (run 0 calls wrapped).0 ≡ some 9 ∷ none ∷ some 7 ∷ some 8 ∷ some 8 ∷ some 9 ∷ none ∷ []
unfolding run
run-wrapped = refl

wrapped-IsValid : IsValid wrapped
wrapped-IsValid = record {
  pos_in_range = omega arith;
  count_in_range = omega arith;
  addressable = omega arith;
}

run-refines_example :
    ((run 0 calls wrapped).0 ≡ (serve_all 0 3 calls (to_list 0 wrapped)).0)
    × (to_list 0 (run 0 calls wrapped).1 ≡ (serve_all 0 3 calls (to_list 0 wrapped)).1)
run-refines_example = run-refines 0 calls wrapped wrapped-IsValid

run-conserves_example :
    taken 0 calls (run 0 calls wrapped).0 ++ to_list 0 (run 0 calls wrapped).1
    ≡ to_list 0 wrapped ++ accepted 0 calls (run 0 calls wrapped).0
run-conserves_example = run-conserves 0 calls wrapped wrapped-IsValid

new-IsValid_example :
    (◌≡◌ {A = ℕ} 4 0) × (new {T = ℕ} 0 4 ≡ none)
    ⊎ ((q : MyQueue ℕ) × (new 0 4 ≡ some q) × IsValid q × (size 0 q ≡ 4) × (to_list 0 q ≡ []))
new-IsValid_example = new-IsValid 0 4 (omega arith)
