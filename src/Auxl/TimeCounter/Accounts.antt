-- ===== src/Auxl/TimeCounter/Accounts.antt =====
-- What a counter of src/sched-lib/auxl/time_counter.cpp gives after a sequence of calls, as in the
-- account of them.
use swm_sched.Prelude.{ℕ_eq}
use swm_sched.Auxl.TimeCounter.{TimeCounter}
