-- ===== src/Chn/ChainController/Exchange.antt =====
-- The function that `invoke_exchange` of src/sched-lib/chn/chain_controller.cpp delegates, on two
-- controllers that exchange with each other. Each is a thread of its own; a step is an access of what
-- the other one writes, or an iteration of a loop.
use swm_sched.Prelude.{
  Bool, true, false, not, ◌&&◌, ◌||◌, List, [], ◌∷◌, Option, none, some, if◌then◌else◌,
}
use swm_sched.Chn.Chain.{
  Chain, stopped, actual_timetable, ready_for_async_operation, inject_timetable_async,
}

-- `ExchangeStage`
pub data ExchangeStage : Type 0 where
  waiting tt_taken tt_injecting failed : ExchangeStage

-- Where the function is: before its start, in one of its four loops or behind it, before it takes or
-- injects a timetable, or at its end with what it told the callback.
pub data ExchangePhase : Type 0 where
  asked waits_target checks_target takes waits_taken checks_taken : ExchangePhase
  waits_ready checks_ready waits_injecting checks_injecting injects threw : ExchangePhase
  told : Bool → ExchangePhase

-- A controller: its chain, `exchange_stage_`, whether `exchange_traget_` is the other's chain, and the
-- function's place.
pub record Side {ℓ} (T : Type ℓ) : Type ℓ where
  pub chain : Chain T
  pub stage : ExchangeStage
  pub points : Bool
  pub phase : ExchangePhase

abbrev pub is_taken : ExchangeStage → Bool
is_taken tt_taken = true
is_taken _ = false

abbrev pub is_injecting : ExchangeStage → Bool
is_injecting tt_injecting = true
is_injecting _ = false

abbrev pub is_failed : ExchangeStage → Bool
is_failed failed = true
is_failed _ = false

-- What happens next: a step of one of the two functions, with whether its time is up, or something
-- that other threads do to a chain.
pub data Event {ℓ} (T : Type ℓ) : Type ℓ where
  left_step right_step : Bool → Event T
  left_chain right_chain : (Chain T → Chain T) → Event T

module _ {ℓ} {T : Type ℓ} where
  abbrev pub goes_to : ExchangePhase → Side T → Side T
  goes_to p s = record s { phase = p }

  -- "*exch_stage = FAILED; *exch_chain_ptr = nullptr; clb(false)"
  abbrev pub fails : Side T → Side T
  fails s = record s { stage = failed; points = false; phase = told false }

  -- The target's timetable is taken before the target has injected ours, and not used any more.
  abbrev pub take : Option (Option T) → Side T → Side T
  take none s = goes_to threw s
  take (some none) s = fails s
  take (some (some tt)) s = record s { stage = tt_taken; phase = waits_taken }

  abbrev pub wait_ready : Bool → Option Bool → Side T → Side T
  wait_ready expired none s = goes_to (if stopped s.chain then checks_ready else threw) s
  wait_ready expired (some ready) s =
      goes_to
        (if not (stopped s.chain) && not ready && not expired then waits_ready else checks_ready) s

  abbrev pub check_ready : Option Bool → Side T → Side T
  check_ready none s = goes_to threw s
  check_ready (some ready) s =
      if not ready || stopped s.chain
      then fails s
      else record s { stage = tt_injecting; phase = waits_injecting }

  abbrev pub injected : Option (Chain T) → Side T → Side T
  injected none s = record s { stage = failed; points = false; phase = told true }
  injected (some c) s = record s { chain = c; points = false; phase = told true }

  -- An exception of the injection is caught, and the callback is told true all the same.
  abbrev pub inject : Option (Option T) → Side T → Side T
  inject none s = record s { stage = failed; points = false; phase = told true }
  inject (some tt) s = injected (inject_timetable_async tt s.chain) s

  -- A step of `s`, whose target is `target`.
  abbrev pub exchange_at : ExchangePhase → Bool → Bool → Side T → Side T → Side T
  exchange_at asked skipped expired target s =
      if not skipped && not (stopped s.chain) && not (stopped target.chain)
      then record s { stage = waiting; points = true; phase = waits_target }
      else goes_to (told false) s
  exchange_at waits_target skipped expired target s =
      goes_to (if not target.points && not expired then waits_target else checks_target) s
  exchange_at checks_target skipped expired target s =
      if not target.points then fails s else goes_to takes s
  exchange_at takes skipped expired target s = take (actual_timetable target.chain) s
  exchange_at waits_taken skipped expired target s =
      goes_to
        (if not (is_taken target.stage)
            && not (is_injecting target.stage)
            && not (is_failed target.stage)
            && not expired
          then waits_taken
          else checks_taken)
        s
  exchange_at checks_taken skipped expired target s =
      if not (is_taken target.stage) && not (is_injecting target.stage)
      then fails s
      else goes_to waits_ready s
  exchange_at waits_ready skipped expired target s =
      wait_ready expired (ready_for_async_operation s.chain) s
  exchange_at checks_ready skipped expired target s =
      check_ready (ready_for_async_operation s.chain) s
  exchange_at waits_injecting skipped expired target s =
      goes_to
        (if not (is_injecting target.stage) && not (is_failed target.stage) && not expired
          then waits_injecting
          else checks_injecting)
        s
  exchange_at checks_injecting skipped expired target s =
      if not (is_injecting target.stage) then fails s else goes_to injects s
  exchange_at injects skipped expired target s = inject (actual_timetable target.chain) s
  exchange_at _ skipped expired target s = s

  unfoldable pub exchange_step : Bool → Bool → Side T → Side T → Side T
  exchange_step skipped expired target s = exchange_at s.phase skipped expired target s

  unfoldable pub exchange_event : Event T → Side T × Side T → Side T × Side T
  unfolding exchange_step
  exchange_event (left_step expired) (l, r) = (exchange_step false expired r l, r)
  exchange_event (right_step expired) (l, r) = (l, exchange_step false expired l r)
  exchange_event (left_chain others) (l, r) = (record l { chain = others l.chain }, r)
  exchange_event (right_chain others) (l, r) = (l, record r { chain = others r.chain })

  unfoldable pub exchange_run : List (Event T) → Side T × Side T → Side T × Side T
  unfolding exchange_event
  exchange_run [] sides = sides
  exchange_run (e ∷ es) sides = exchange_run es (exchange_event e sides)
