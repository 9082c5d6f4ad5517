-- ===== src/Chn/Chain.antt =====
-- src/sched-lib/chn/chain.{h,cpp}: the worker that runs a chain of algorithms, and the requests of the
-- master thread. What a thread does while it holds `locker_` is one step. The algorithms are not part
-- of the chain: that one of them returns, with what, is an event. A timetable is a pointer to a `T`,
-- `none` if it is null.
pub mod Reach
pub mod Safety
pub mod Requests
mod Tests
use swm_sched.Prelude.{
  ℕ, zero, ◌+◌, ◌-◌, String, ℕ_eq, Bool, true, false, not, ◌&&◌, ◌||◌, List, [], ◌∷◌, Option, none,
  some, if◌then◌else◌, ◌==◌, ltb,
}

pub data StatusType : Type 0 where
  not_started working interrupted finished : StatusType

pub data AsyncOperationType : Type 0 where
  no_op interrupt inject_tt : AsyncOperationType

-- Where the worker is: not running, inside the algorithm `i`, behind the loop but with `status_` still
-- to be set, or out of the loop.
pub data Phase : Type 0 where
  idle : Phase
  calling : ℕ → Phase
  leaving : Phase
  returned : Phase

pub record Chain {ℓ} (T : Type ℓ) : Type ℓ where
  pub status : StatusType
  pub async_op : AsyncOperationType
  pub algorithms : ℕ
  pub injected_tt : Option T
  pub intermediate_tt : Option T
  pub actual_tt : Option T
  -- The variables of `worker_loop`: the buffers `tt[tt_cur]` and `tt[(tt_cur + 1) % 2]`.
  pub phase : Phase
  pub current : Option T
  pub next : Option T
  pub injected : Bool

abbrev pub is_not_started : StatusType → Bool
is_not_started not_started = true
is_not_started _ = false

abbrev pub is_working : StatusType → Bool
is_working working = true
is_working _ = false

abbrev pub is_none : AsyncOperationType → Bool
is_none no_op = true
is_none _ = false

-- The event of an algorithm: its result, and the timetable that it left in its output buffer.
pub record Answer {ℓ} (T : Type ℓ) : Type ℓ where
  pub succeeded : Bool
  pub tt : Option T

module _ {ℓ} {T : Type ℓ} where
  abbrev pub stopped : Chain T → Bool
  stopped c = not (is_working c.status)

  -- `Chain::Chain`
  abbrev pub new_chain : Chain T
  new_chain = record {
    status = not_started;
    async_op = no_op;
    algorithms = 0;
    injected_tt = none;
    intermediate_tt = none;
    actual_tt = none;
    phase = idle;
    current = none;
    next = none;
    injected = false;
  }

  -- The loop's condition: the next algorithm, or the end of the loop.
  abbrev pub enter_round : ℕ → Chain T → Chain T
  enter_round i c =
      if ltb i c.algorithms then record c { phase = calling i } else record c { phase = leaving }

  -- `init` with the number of algorithms. `none` is the exception; `no_info` stands for a null `info`.
  unfoldable pub init : Bool → ℕ → Chain T → Option (Chain T)
  init no_info number c =
      if no_info || number == 0
      then none
      else if not (is_not_started c.status)
      then none
      else some
          (enter_round 0 (record c { status = working; async_op = no_op; algorithms = number }))

  -- The getters throw on a chain that was not initialized.
  abbrev pub checked {κ} : {A : Type κ} → A → Chain T → Option A
  checked a c = if is_not_started c.status then none else some a

  unfoldable pub intermediate_timetable : Chain T → Option (Option T)
  intermediate_timetable c = checked c.intermediate_tt c

  unfoldable pub actual_timetable : Chain T → Option (Option T)
  actual_timetable c = checked c.actual_tt c

  unfoldable pub ready_for_async_operation : Chain T → Option Bool
  ready_for_async_operation c = checked (is_none c.async_op) c

  unfoldable pub interrupt_async : Chain T → Option (Chain T)
  interrupt_async c =
      if is_not_started c.status
      then none
      else if not (is_none c.async_op)
      then none
      else some (if stopped c then c else record c { async_op = interrupt })

  unfoldable pub inject_timetable_async : Option T → Chain T → Option (Chain T)
  inject_timetable_async tt c =
      if is_not_started c.status
      then none
      else if not (is_none c.async_op)
      then none
      else some (
          if stopped c
          then record c { actual_tt = tt }
          else record c { async_op = inject_tt; injected_tt = tt })

  -- What the running algorithm asks for and hands over.
  unfoldable pub forced_to_interrupt : Chain T → Bool
  forced_to_interrupt c = not (is_none c.async_op)

  unfoldable pub commit_intermediate_timetable : Option T → Chain T → Chain T
  commit_intermediate_timetable tt c = record c { intermediate_tt = tt }

  -- Whether the round creates a timetable, and the timetable that it improves if it does not.
  unfoldable pub creates : ℕ → Chain T → Bool
  creates i c = i == 0 && not c.injected

  unfoldable pub input : ℕ → Chain T → Option T
  input i c = if creates i c then none else c.current

  -- "Store timetable as actual and clear intermidiate version"
  abbrev pub store : Bool → Chain T → Chain T
  store succeeded c = record c {
    actual_tt = if succeeded then c.next else c.actual_tt;
    intermediate_tt = none;
  }

  -- The injected timetable is the actual one, and is in the buffer that is switched to.
  abbrev pub with_injected : Chain T → Chain T
  with_injected c = record c {
    async_op = no_op;
    status = working;
    actual_tt = c.injected_tt;
    injected = true;
    current = c.injected_tt;
    next = c.current;
  }

  -- "Switch buffers with actual and obsolete timetables"
  abbrev pub switched : Chain T → Chain T
  switched c = record c { current = c.next; next = c.current }

  -- The operation that is asked for. The loop goes on with the buffers switched, or returns.
  abbrev pub check_async : Bool → ℕ → AsyncOperationType → Chain T → Chain T
  check_async succeeded i interrupt c = record c {
    async_op = no_op;
    status = interrupted;
    phase = returned;
  }
  check_async succeeded i inject_tt c =
      enter_round (if succeeded then i + 1 else i) (with_injected c)
  check_async succeeded i no_op c = enter_round (if succeeded then i + 1 else i) (switched c)

  -- One round, from the return of the algorithm on.
  unfoldable pub end_round : ℕ → Answer T → Chain T → Chain T
  end_round i a c =
      let filled = record c { next = a.tt } in
      if not a.succeeded && is_none c.async_op
      then record filled { async_op = no_op; status = interrupted; phase = returned }
      else check_async a.succeeded i c.async_op (store a.succeeded filled)

  -- `status_ = FINISHED`, outside of the lock.
  unfoldable pub leave : Chain T → Chain T
  leave c = record c { status = finished; phase = returned }
