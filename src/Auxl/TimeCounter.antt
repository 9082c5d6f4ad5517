-- ===== src/Auxl/TimeCounter.antt =====
-- src/sched-lib/auxl/time_counter.{h,cpp}: the counter of the time that threads work. What is done
-- under `locker_` is one step, and a thread is known by its number. A reading of the clock is an
-- argument, in nanoseconds, and each call has as many as the source takes. `to_seconds` gives whole
-- microseconds; their factor of 1e-6 is left out, so that the times are numbers and not doubles. An
-- exception is `none`, and leaves the object as it is.
pub mod Records
pub mod Periods
pub mod Threads
pub mod Agreement
pub mod Accounts
pub mod Idling
mod Tests
use swm_sched.Prelude.{
  ℕ, ◌+◌, ◌-◌, ◌/◌, Bool, true, false, not, ◌&&◌, ◌||◌, List, [], ◌∷◌, Option, none, some, ℕ_eq,
  if◌then◌else◌, ◌==◌, Assoc, insert,
}

pub record TimeCounter : Type 0 where
  pub thread_tps : Assoc ℕ (Bool × ℕ)
  pub start_tp : ℕ
  pub last_working_tp : ℕ
  pub working_time : ℕ
  pub idling_time : ℕ

pub record Times : Type 0 where
  pub astronomical : ℕ
  pub idling : ℕ
  pub working : ℕ

abbrev pub new_counter : ℕ → TimeCounter
new_counter now = record {
  thread_tps = [];
  start_tp = now;
  last_working_tp = now;
  working_time = 0;
  idling_time = 0;
}

-- A difference of 0 for a clock that went back; the source's would be negative.
unfoldable pub to_seconds : ℕ → ℕ → ℕ
to_seconds stop start = (stop - start) / 1000

-- The loops of `get_times`.
unfoldable pub working_add : ℕ → Assoc ℕ (Bool × ℕ) → ℕ
working_add now [] = 0
working_add now ((id, (true, tp)) ∷ rest) = to_seconds now tp + working_add now rest
working_add now ((id, (false, tp)) ∷ rest) = working_add now rest

unfoldable pub is_idling : Assoc ℕ (Bool × ℕ) → Bool
is_idling [] = true
is_idling ((id, (on, tp)) ∷ rest) = not on && is_idling rest

unfoldable pub get_times : ℕ → TimeCounter → Times
get_times now c =
    let idle = is_idling c.thread_tps in
    record {
      astronomical = to_seconds now c.start_tp;
      idling = c.idling_time + (if idle then to_seconds now c.last_working_tp else 0);
      working = c.working_time + (if idle then 0 else working_add now c.thread_tps);
    }

unfoldable pub reset : ℕ → TimeCounter → Option TimeCounter
reset now c =
    if is_idling c.thread_tps
    then some
        (record c { start_tp = now; last_working_tp = now; working_time = 0; idling_time = 0 })
    else none

-- `i_am_the_first`, `found_my_record` and the records after the loop of `turn_on`.
abbrev add_on :
    (ℕ × (Bool × ℕ))
    → Option (Bool × Bool × Assoc ℕ (Bool × ℕ))
    → Option (Bool × Bool × Assoc ℕ (Bool × ℕ))
add_on r none = none
add_on r (some (first, found, rest)) = some (first, found, r ∷ rest)

unfoldable pub turn_on_loop :
    ℕ → ℕ → Bool → Bool → Assoc ℕ (Bool × ℕ) → Option (Bool × Bool × Assoc ℕ (Bool × ℕ))
turn_on_loop me now first found [] = some (first, found, [])
turn_on_loop me now first found ((id, (on, tp)) ∷ rest) =
    let others = turn_on_loop me now (first && not on) (found || (me == id)) rest in
    if (me == id) && on
    then none
    else add_on (if me == id then (id, (true, now)) else (id, (on, tp))) others

-- `later` is the reading for the idle time.
unfoldable pub turn_on : ℕ → ℕ → ℕ → TimeCounter → Option TimeCounter
turn_on me now later c = elim (turn_on_loop me now true false c.thread_tps) [
  | none ↦ none
  | some (first, found, records) ↦ some (record c {
    thread_tps = if found then records else insert me (true, now) records;
    idling_time = c.idling_time + (if first then to_seconds later c.last_working_tp else 0);
  })
]

-- The state of the loop of `turn_off`, with the `working_time_` that it adds to.
pub record OffLoop : Type 0 where
  pub i_am_the_last : Bool
  pub found_my_record : Bool
  pub working : ℕ
  pub records : Assoc ℕ (Bool × ℕ)

abbrev add_off : (ℕ × (Bool × ℕ)) → Option OffLoop → Option OffLoop
add_off r none = none
add_off r (some s) = some (record s { records = r ∷ s.records })

unfoldable pub turn_off_loop : ℕ → ℕ → Bool → Bool → ℕ → Assoc ℕ (Bool × ℕ) → Option OffLoop
turn_off_loop me now last found working [] =
    some (record { i_am_the_last = last; found_my_record = found; working = working; records = [] })
turn_off_loop me now last found working ((id, (on, tp)) ∷ rest) =
    let mine = me == id in
    let others =
      turn_off_loop me now (last && not (on && not mine)) (found || mine)
        (if mine then working + to_seconds now tp else working) rest in
    if mine && not on then none else add_off (id, (on && not mine, tp)) others

-- `later` is the reading for the end of the work of all threads.
unfoldable pub turn_off : ℕ → ℕ → ℕ → TimeCounter → Option TimeCounter
turn_off me now later c = elim (turn_off_loop me now true false c.working_time c.thread_tps) [
  | none ↦ none
  | some s ↦
      if s.found_my_record
      then some (record c {
        thread_tps = s.records;
        working_time = s.working;
        last_working_tp = if s.i_am_the_last then later else c.last_working_tp;
      })
      else none
]
