-- ===== src/Ctrl/Receiver/Loop.antt =====
-- src/sched-lib/ctrl/receiver.{h,cpp}: the object, and the loop of its thread. How a command is made of
-- the data (Ctrl.Commands has it for a schedule) is a parameter; the commands given to the queue are
-- listed. `closed_` is read once a round, and the readings are an argument. The messages to the log
-- and the timers of the contexts are left out.
use swm_sched.Prelude.{
  ℕ, Bool, true, false, not, ◌||◌, List, [], ◌∷◌, ◌++◌, Option, none, some, if◌then◌else◌, is_empty,
}
use swm_sched.Ctrl.Receiver.{refused, received, throws_length_error, out_of_range, get_data}

-- `queue_` and `input_` are addresses, or null.
pub record Receiver : Type 0 where
  pub closed : Bool
  pub finished_flag : Bool
  pub input : Option ℕ
  pub queue : Option ℕ

abbrev pub new_receiver : Receiver
new_receiver = record { closed = false; finished_flag = false; input = none; queue = none }

abbrev is_null : Option ℕ → Bool
is_null none = true
is_null (some p) = false

-- `none` is an exception. The thread starts.
unfoldable pub init : Option ℕ → Option ℕ → Receiver → Option Receiver
init queue input r =
    if not (is_null r.queue) || not (is_null r.input)
    then none
    else if is_null queue || is_null input
    then none
    else some (record { closed = false; finished_flag = false; input = input; queue = queue })

unfoldable pub finished : Receiver → Option Bool
finished r = if is_null r.queue || is_null r.input then none else some r.finished_flag

-- What `init` of a command does: true, false, or an exception.
pub data Parsed (Command : Type 0) : Type 0 where
  makes : Command → Parsed Command
  refuses raises : Parsed Command

-- What is pushed; a context has the identifier of its request.
pub data Pushed (Command : Type 0) : Type 0 where
  command : ℕ → Command → Pushed Command
  corrupted_command : ℕ → Pushed Command

-- The loop sets `finished_`, or an exception that it does not catch ends the program, or it has
-- accessed a vector out of its range.
pub data LoopEnd : Type 0 where
  ended terminated undefined : LoopEnd

-- "TODO: read uid"
abbrev pub uid : ℕ
uid = 1

module _ {Command : Type 0} (read_exact : ℕ → List ℕ → Option (List ℕ × List ℕ))
    (read_length : List ℕ → Option (ℕ × List ℕ))
    (init_command : ℕ → List (Option (List ℕ)) → Parsed Command) where
  -- The second stage.
  unfoldable pub push_command : ℕ → List (Option (List ℕ)) → List (Pushed Command)
  push_command type data' = elim (init_command type data') [
    | makes c ↦ command uid c ∷ []
    | refuses ↦ corrupted_command uid ∷ []
    | raises ↦ []
  ]

  abbrev pub before :
      List (Pushed Command)
      → Option (LoopEnd × List (Pushed Command))
      → Option (LoopEnd × List (Pushed Command))
  before ps none = none
  before ps (some (last, qs)) = some (last, ps ++ qs)

  -- `none` if the readings are not enough.
  unfoldable pub worker_loop : List Bool → List ℕ → Option (LoopEnd × List (Pushed Command))
  worker_loop [] input = none
  worker_loop (closed ∷ readings) input =
      if is_empty input || closed
      then some (ended, [])
      else elim (get_data read_exact read_length input) [
        | refused e ↦ some (ended, [])
        | throws_length_error ↦ some (terminated, [])
        | out_of_range ↦ some (undefined, [])
        | received type data' rest ↦ before (push_command type data') (worker_loop readings rest)
      ]
