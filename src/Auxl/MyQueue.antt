-- ===== src/Auxl/MyQueue.antt =====
-- src/sched-lib/auxl/my_queue.h: the bounded queue between the worker threads, a ring over a
-- vector. Every operation holds `queue_locker_` while it reads and writes the fields, so it is one
-- atomic step here. A call that would spin (a push to a full queue, a pop from an empty one) gives
-- `none` and leaves the queue as it is: the caller tries again.
pub mod Fifo
mod Tests
use swm_sched.Prelude.{
  ℕ, suc, ◌+◌, ◌-◌, ◌%◌, ◌^◌, Bool, true, false, List, [], ◌∷◌, ◌++◌, Option, none, some, length,
  get_or, set, replicate, if◌then◌else◌, ltb, ◌==◌, ℕ_eq,
}

pub record MyQueue {ℓ} (T : Type ℓ) : Type ℓ where
  pub queue : List T
  pub queue_size : ℕ
  pub queue_pos : ℕ

-- `size_t` addition
abbrev pub add_size : ℕ → ℕ → ℕ
add_size a b = (a + b) % 2 ^ 64

-- A client's call, and what the client sees of it.
pub data Call {ℓ} (T : Type ℓ) : Type ℓ where
  pushes : T → Call T
  pops : Call T
  peeks : Call T

-- `blank` is the value-initialised `T()` that `resize` fills the vector with.
module _ {ℓ} {T : Type ℓ} (blank : T) where
  abbrev pub size : MyQueue T → ℕ
  size q = length q.queue

  abbrev pub element_count : MyQueue T → ℕ
  element_count q = q.queue_size

  -- The constructor throws on a size of 0.
  unfoldable pub new : ℕ → Option (MyQueue T)
  new max_size =
      if max_size == 0
      then none
      else some (record { queue = replicate max_size blank; queue_size = 0; queue_pos = 0 })

  unfoldable pub push : T → MyQueue T → Option (MyQueue T)
  push value q =
      if ltb q.queue_size (size q)
      then some (record q {
        queue = set q.queue (add_size q.queue_pos q.queue_size % size q) value;
        queue_size = q.queue_size + 1;
      })
      else none

  pub try_peek : MyQueue T → Option T
  try_peek q = if ltb 0 q.queue_size then some (get_or q.queue q.queue_pos blank) else none

  unfoldable pub pop : MyQueue T → Option (T × MyQueue T)
  pop q =
      if ltb 0 q.queue_size
      then some (
        get_or q.queue q.queue_pos blank,
        record q { queue_pos = add_size q.queue_pos 1 % size q; queue_size = q.queue_size - 1 },
      )
      else none

  -- One attempt of a thread: the queue after it, and what it handed back. A push that went
  -- through hands back its value.
  pub attempt : Call T → MyQueue T → Option T × MyQueue T
  unfolding push pop try_peek
  attempt (pushes v) q = elim (push v q) [ none ↦ (none, q) | some q' ↦ (some v, q') ]
  attempt pops q = elim (pop q) [ none ↦ (none, q) | some (v, q') ↦ (some v, q') ]
  attempt peeks q = (try_peek q, q)

  -- The attempts of all threads, in the order in which they took the lock.
  pub run : List (Call T) → MyQueue T → List (Option T) × MyQueue T
  unfolding attempt
  run [] q = ([], q)
  run (c ∷ cs) q = let (r, q') = attempt c q in let (rs, last) = run cs q' in (r ∷ rs, last)
