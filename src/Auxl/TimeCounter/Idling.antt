-- ===== src/Auxl/TimeCounter/Idling.antt =====
-- What a counter of src/sched-lib/auxl/time_counter.cpp gives for the time in which no thread is on.
use swm_sched.Prelude.{ℕ, ◌≤◌, Option, none, some, ℕ_eq, if◌then◌else◌}
use swm_sched.Auxl.TimeCounter.{Times, to_seconds}
use swm_sched.Auxl.TimeCounter.Periods.{Account, none_on}

-- The idle time up to `p` fits in the time since the start.
record IsTimely (p : ℕ) (a : Account) : Type 0 where
  begun : a.since ≤ a.free
  past : a.free ≤ p
  within : a.idled ≤ to_seconds (if none_on a.on then a.free else p) a.since

-- After no error.
abbrev AreTimely : ℕ → Option Account → Type 0
AreTimely p none = Unit
AreTimely p (some a) = IsTimely p a

-- The idle time is at most the astronomical one.
abbrev pub IdleWithin : Option Times → Type 0
IdleWithin none = Unit
IdleWithin (some t) = t.idling ≤ t.astronomical
