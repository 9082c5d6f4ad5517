-- ===== src/Chn/ChainController/Interruption.antt =====
-- The function that `invoke_interrupt` of src/sched-lib/chn/chain_controller.cpp delegates.
use swm_sched.Prelude.{
  Bool, true, false, not, ◌&&◌, List, [], ◌∷◌, Option, none, some, if◌then◌else◌,
}
use swm_sched.Chn.Chain.{
  StatusType, interrupted, is_working, Chain, stopped, ready_for_async_operation, interrupt_async,
}

-- Where the function is: before its first test, in one of its two loops or behind it, before
-- `interrupt_async`, at its end with what it told the callback, or left with an exception.
pub data InterruptPhase : Type 0 where
  asked waits_ready checks_ready asks waits_stopped checks_stopped threw : InterruptPhase
  told : Bool → InterruptPhase

abbrev pub is_interrupted : StatusType → Bool
is_interrupted interrupted = true
is_interrupted _ = false

-- The chain, `stopped_` of the controller, and the function's place.
pub record Interruption {ℓ} (T : Type ℓ) : Type ℓ where
  pub chain : Chain T
  pub hard : Bool
  pub phase : InterruptPhase

module _ {ℓ} {T : Type ℓ} where
  abbrev pub at : InterruptPhase → Interruption T → Interruption T
  at p s = record s { phase = p }

  -- "Performing "hard" interruption"
  abbrev pub interrupt_hard : Interruption T → Interruption T
  interrupt_hard s = record s { hard = true; phase = told true }

  abbrev pub ask : Option (Chain T) → Interruption T → Interruption T
  ask none s = record s { phase = told false }
  ask (some c) s = record s { chain = c; phase = waits_stopped }

  abbrev pub wait_ready : Bool → Option Bool → Interruption T → Interruption T
  wait_ready expired none s = at (if stopped s.chain then checks_ready else threw) s
  wait_ready expired (some ready) s =
      at (if not (stopped s.chain) && not ready && not expired then waits_ready else checks_ready) s

  abbrev pub check_ready : Option Bool → Interruption T → Interruption T
  check_ready none s = at threw s
  check_ready (some ready) s = if not ready then interrupt_hard s else at asks s

  -- One step: an iteration of a loop, or the code up to the next access of the chain. `expired`: more
  -- than `timeout` passed since the start.
  abbrev pub step_at : InterruptPhase → Bool → Bool → Interruption T → Interruption T
  step_at asked skipped expired s =
      if not skipped && is_working s.chain.status then at waits_ready s else at (told false) s
  step_at waits_ready skipped expired s = wait_ready expired (ready_for_async_operation s.chain) s
  step_at checks_ready skipped expired s = check_ready (ready_for_async_operation s.chain) s
  step_at asks skipped expired s = ask (interrupt_async s.chain) s
  step_at waits_stopped skipped expired s =
      at (if not (stopped s.chain) && not expired then waits_stopped else checks_stopped) s
  step_at checks_stopped skipped expired s =
      if stopped s.chain then at (told (is_interrupted s.chain.status)) s else interrupt_hard s
  step_at _ skipped expired s = s

  unfoldable pub interrupt_step : Bool → Bool → Interruption T → Interruption T
  interrupt_step skipped expired s = step_at s.phase skipped expired s

  -- Before each step the other threads may do anything to the chain.
  unfoldable pub interrupt_run :
      Bool → List (Bool × (Chain T → Chain T)) → Interruption T → Interruption T
  unfolding interrupt_step
  interrupt_run skipped [] s = s
  interrupt_run skipped ((expired, others) ∷ steps) s =
      interrupt_run skipped steps
        (interrupt_step skipped expired (record s { chain = others s.chain }))
