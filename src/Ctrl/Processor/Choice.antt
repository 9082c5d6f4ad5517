-- ===== src/Ctrl/Processor/Choice.antt =====
-- `create_algorithms` of src/sched-lib/ctrl/processor.cpp.
use swm_sched.Prelude.{◌≡◌, Bool, true, List, [], ◌∷◌, Option, some, find_if}
use swm_sched.Ctrl.Processor.{AlgorithmDesc, AlgorithmSpec, matches}

abbrev pub Chosen : List AlgorithmDesc → List AlgorithmSpec → List AlgorithmDesc → Type 0
Chosen descriptors [] [] = Unit
Chosen descriptors (spec ∷ specs) (desc ∷ descs) =
    (find_if (matches spec) descriptors ≡ some desc) × Chosen descriptors specs descs
Chosen descriptors _ _ = ⊥

module _ {Algorithm : Type 0} (create : AlgorithmDesc → Option Algorithm)
    (bind_to : Algorithm → Bool) where
  abbrev pub Created : List AlgorithmDesc → List Algorithm → Type 0
  Created [] [] = Unit
  Created (desc ∷ descs) (alg ∷ algs) =
      (create desc ≡ some alg) × ((bind_to alg ≡ true) × Created descs algs)
  Created _ _ = ⊥
