-- ===== src/Ctrl/Sender.antt =====
-- src/sched-lib/ctrl/sender.{h,cpp}: the thread that writes the responses to the output. Whether a
-- response succeeded and how it is serialized are parameters (Ctrl.Responses has the latter), and the
-- data given to `swm_write_exact`, which is from another repository, are listed. The messages to the
-- log and the waiting are left out.
pub mod Draining
mod Tests
use swm_sched.Prelude.{
  ℕ, zero, suc, ℕ_eq, Bool, true, false, not, ◌&&◌, ◌||◌, List, [], ◌∷◌, ◌++◌, Option, none, some,
  if◌then◌else◌, ◌==◌, ltb, is_empty,
}
use swm_sched.Auxl.MyQueue.{MyQueue, element_count, push, pop}

-- `queue_` and `output_` are addresses, or null.
pub record Sender : Type 0 where
  pub closed : Bool
  pub queue : Option ℕ
  pub output : Option ℕ
  pub joinable : Bool

abbrev pub new_sender : Sender
new_sender = record { closed = false; queue = none; output = none; joinable = false }

abbrev is_null : Option ℕ → Bool
is_null none = true
is_null (some p) = false

-- `none` is an exception.
unfoldable pub init : Option ℕ → Option ℕ → Sender → Option Sender
init queue output s =
    if not (is_null s.queue) || not (is_null s.output)
    then none
    else if is_null queue || is_null output
    then none
    else some (record { closed = false; queue = queue; output = output; joinable = true })

-- The thread has ended when it is joined.
unfoldable pub close : Sender → Option Sender
close s =
    if is_null s.queue || is_null s.output
    then none
    else some (record { closed = true; queue = none; output = none; joinable = false })

pub data Serialized : Type 0 where
  throws fails : Serialized
  gives : List ℕ → Serialized

-- What the thread works on: the queue and what was written.
pub record Work (Response : Type 0) : Type 0 where
  pub queue : MyQueue (Option Response)
  pub written : List (List ℕ)

-- Before the object is closed: the thread takes a round, or another one pushes a response.
pub data Event (Response : Type 0) : Type 0 where
  works : Event Response
  pushes : Option Response → Event Response

module _ {Response : Type 0} (succeeded : Response → Bool) (serialize : Response → Serialized) where
  -- The data that are written for an element of the queue.
  unfoldable pub data_of : Option Response → List (List ℕ)
  data_of none = []
  data_of (some r) = if not (succeeded r) then [] else elim (serialize r) [
    | throws ↦ []
    | fails ↦ []
    | gives bytes ↦ if is_empty bytes then [] else bytes ∷ []
  ]

  -- A round of the loop; `none` is its end.
  unfoldable pub worker_round : Bool → Work Response → Option (Work Response)
  worker_round closed w =
      if closed && not (ltb 0 (element_count none w.queue))
      then none
      else if ltb 0 (element_count none w.queue)
      then elim (pop none w.queue) [
        | none ↦ some w
        | some (r, rest) ↦ some (record { queue = rest; written = w.written ++ data_of r })
      ]
      else some w

  -- The loop, with the count of the rounds it may take; `none` if these are not enough.
  unfoldable pub worker_thread : ℕ → Bool → Work Response → Option (Work Response)
  worker_thread zero closed w = none
  worker_thread (suc fuel) closed w = elim (worker_round closed w) [
    | none ↦ some w
    | some w' ↦ worker_thread fuel closed w'
  ]

  -- What an event changes, and the response that the queue took.
  unfoldable pub happen : Event Response → Work Response → Work Response × List (Option Response)
  happen works w = elim (worker_round false w) [ none ↦ (w, []) | some w' ↦ (w', []) ]
  happen (pushes r) w = elim (push none r w.queue) [
    | none ↦ (w, [])
    | some q ↦ (record w { queue = q }, r ∷ [])
  ]

  unfoldable pub run :
      List (Event Response) → Work Response → Work Response × List (Option Response)
  run [] w = (w, [])
  run (e ∷ es) w =
      let (w', took) = happen e w in let (last, rest) = run es w' in (last, took ++ rest)
