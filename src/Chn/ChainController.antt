-- ===== src/Chn/ChainController.antt =====
-- src/sched-lib/chn/chain_controller.{h,cpp}: the functions that are delegated to the thread of a chain's
-- controller, and the thread. What is done under `locker_` is one step; a delegated function runs
-- outside of it. What the chain is found in is an argument of the step. Interrupting, Exchanging and
-- the statistics are the delegated functions.
pub mod Reach
pub mod Queue
pub mod Interruption
pub mod Interrupting
pub mod Exchange
pub mod Keeping
pub mod Exchanging
pub mod Timeouts
mod Tests
use swm_sched.Prelude.{
  Bool, true, false, not, ◌&&◌, ◌||◌, List, [], ◌∷◌, ◌++◌, Option, none, some, if◌then◌else◌,
}

-- Where the worker is: not running, before its first assignments, at the head of its loop, in a function, behind the loop with the lock and with
-- `succeeded`, at the callback, or done.
pub data Phase {ℓ} (F : Type ℓ) : Type ℓ where
  idle starting looping : Phase F
  calling : F → Phase F
  draining notifying done : Bool → Phase F

pub record ChainController {ℓ} (F : Type ℓ) : Type ℓ where
  pub initialized : Bool
  pub finished : Bool
  pub stopped : Bool
  pub queue : List F
  pub phase : Phase F

module _ {ℓ} {F : Type ℓ} where
  abbrev pub new_controller : ChainController F
  new_controller = record {
    initialized = false;
    finished = false;
    stopped = false;
    queue = [];
    phase = idle;
  }

  -- `none` is an exception: a null argument, a timeout that is not positive, or a second call.
  unfoldable pub init : Bool → Bool → ChainController F → Option (ChainController F)
  init null_given positive_timeout c =
      if null_given
      then none
      else if not positive_timeout
      then none
      else if c.initialized
      then none
      else some
          (record c { initialized = true; finished = false; stopped = false; phase = starting })

  -- The controller, and whether the function was called at once, with `true`.
  unfoldable pub invoke : F → ChainController F → Option (ChainController F × Bool)
  invoke func c =
      if not c.initialized
      then none
      else if c.stopped
      then some (c, true)
      else some (record c { queue = c.queue ++ func ∷ [] }, false)

  unfoldable pub has_finished : ChainController F → Option Bool
  has_finished c = if not c.initialized then none else some c.finished

  -- The destructor, before it waits for the thread.
  unfoldable pub close : ChainController F → ChainController F
  close c = record c { stopped = true }

  -- The assignments before the loop.
  unfoldable pub start : ChainController F → ChainController F
  start c = record c { stopped = false; finished = false; phase = looping }

  -- The first function of the queue, if there is one.
  abbrev pub take_first : List F → ChainController F → ChainController F
  take_first [] c = c
  take_first (func ∷ rest) c = record c { phase = calling func; queue = rest }

  -- The head of the loop, with whether the chain is stopped, and finished.
  unfoldable pub enter_round : Bool → Bool → ChainController F → ChainController F
  enter_round chain_stopped chain_finished c =
      if not c.stopped && not chain_stopped
      then take_first c.queue c
      else record c { phase = draining (not c.stopped && chain_finished) }

  -- A function returned. It may have set `stopped_`, or have thrown.
  unfoldable pub returned : Bool → ChainController F → ChainController F
  returned stops c = record c { phase = looping; stopped = c.stopped || stops }

  -- "Skipping the last requests"
  abbrev pub skip_first : Bool → List F → ChainController F → ChainController F
  skip_first succeeded [] c = record c { stopped = true; phase = notifying succeeded }
  skip_first succeeded (func ∷ rest) c = record c { queue = rest }

  unfoldable pub drain : Bool → ChainController F → ChainController F
  drain succeeded c = skip_first succeeded c.queue c

  -- "Notifying caller about result"
  unfoldable pub notify : Bool → ChainController F → ChainController F
  notify succeeded c = record c { finished = true; phase = done succeeded }
