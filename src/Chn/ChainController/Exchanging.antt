-- ===== src/Chn/ChainController/Exchanging.antt =====
-- What an exchange by src/sched-lib/chn/chain_controller.cpp promises to its two sides, and how it ends.
use swm_sched.Chn.ChainController.Exchange.{Side}
use swm_sched.Chn.ChainController.Keeping.{Honest, Backed}

module _ {T : Type 0} where
  record PairHolds (l r : Side T) : Type 0 where
    left_honest : Honest l
    right_honest : Honest r
    left_backed : Backed l r
    right_backed : Backed r l
