-- ===== src/Auxl/TimeCounter/Periods.antt =====
-- The calls of a counter of src/sched-lib/auxl/time_counter.h, each with its readings of the clock, and
-- an account of them that knows only the threads that are on. `turn_on` and `turn_off` read the clock
-- for the thread, and again for the time in which no thread is on.
use swm_sched.Prelude.{
  ℕ, ◌+◌, ◌≤◌, Bool, true, false, List, [], ◌∷◌, Option, none, some, ℕ_eq, if◌then◌else◌, ◌==◌,
  Assoc, lookup,
}
use swm_sched.Auxl.TimeCounter.{TimeCounter, Times, to_seconds, get_times, reset, turn_on, turn_off}

pub data Event : Type 0 where
  turns_on : ℕ → ℕ → ℕ → Event
  turns_off : ℕ → ℕ → ℕ → Event
  resets : ℕ → Event

unfoldable pub apply : Event → TimeCounter → Option TimeCounter
apply (turns_on me now later) c = turn_on me now later c
apply (turns_off me now later) c = turn_off me now later c
apply (resets now) c = reset now c

-- `none` if one of the calls throws.
unfoldable pub run : List Event → TimeCounter → Option TimeCounter
run [] c = some c
run (e ∷ es) c = elim (apply e c) [ none ↦ none | some c' ↦ run es c' ]

-- From the first time over the calls' readings to the last, the clock does not go back.
abbrev pub AreOrdered : ℕ → List Event → ℕ → Type 0
AreOrdered p [] now = p ≤ now
AreOrdered p (turns_on me t u ∷ es) now = (p ≤ t) × (t ≤ u) × AreOrdered u es now
AreOrdered p (turns_off me t u ∷ es) now = (p ≤ t) × (t ≤ u) × AreOrdered u es now
AreOrdered p (resets t ∷ es) now = (p ≤ t) × AreOrdered t es now

-- The threads that are on with the moment they were turned on, the moment the last of them was turned
-- off, and the intervals that have ended.
pub record Account : Type 0 where
  pub on : Assoc ℕ ℕ
  pub since : ℕ
  pub free : ℕ
  pub worked : ℕ
  pub idled : ℕ

abbrev pub open_account : ℕ → Account
open_account now = record { on = []; since = now; free = now; worked = 0; idled = 0 }

abbrev pub none_on : Assoc ℕ ℕ → Bool
none_on [] = true
none_on (t ∷ on) = false

abbrev pub without : ℕ → Assoc ℕ ℕ → Assoc ℕ ℕ
without me [] = []
without me ((id, tp) ∷ on) = if me == id then on else (id, tp) ∷ without me on

-- `none` is an error: the thread is on already, is not on, or there is one that is.
unfoldable pub enter : Event → Account → Option Account
enter (turns_on me now later) a = elim (lookup me a.on) [
  | some tp ↦ none
  | none ↦ some (record a {
    on = (me, now) ∷ a.on;
    idled = a.idled + (if none_on a.on then to_seconds later a.free else 0);
  })
]
enter (turns_off me now later) a = elim (lookup me a.on) [
  | none ↦ none
  | some tp ↦ some (record a {
    on = without me a.on;
    worked = a.worked + to_seconds now tp;
    free = if none_on (without me a.on) then later else a.free;
  })
]
enter (resets now) a = if none_on a.on then some (open_account now) else none

unfoldable pub account : List Event → Account → Option Account
account [] a = some a
account (e ∷ es) a = elim (enter e a) [ none ↦ none | some a' ↦ account es a' ]

-- The intervals of the threads that are on have not ended.
unfoldable pub unended : ℕ → Assoc ℕ ℕ → ℕ
unended now [] = 0
unended now ((id, tp) ∷ on) = to_seconds now tp + unended now on

unfoldable pub total_times : ℕ → Account → Times
total_times now a = record {
  astronomical = to_seconds now a.since;
  idling = a.idled + (if none_on a.on then to_seconds now a.free else 0);
  working = a.worked + unended now a.on;
}

abbrev pub times_of_run : ℕ → Option TimeCounter → Option Times
times_of_run now none = none
times_of_run now (some c) = some (get_times now c)

abbrev pub times_of_account : ℕ → Option Account → Option Times
times_of_account now none = none
times_of_account now (some a) = some (total_times now a)
