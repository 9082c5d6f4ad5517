-- ===== src/Chn/Chain/Reach.antt =====
-- The states that src/sched-lib/chn/chain.cpp can reach: the requests of the master thread and the rounds
-- of the worker, in any order in which they take the lock.
use swm_sched.Prelude.{
  ℕ, ◌+◌, ◌≤◌, ◌<◌, ◌≡◌, ◌≢◌, ◌⊎◌, inl, inr, true, false, List, [], ◌∷◌, Option, none, some, arith,
  ℕ_eq, ltb, ltb→lt, lt→ltb, Elem, Bool-cases,
}
use swm_sched.Chn.Chain.{
  working, interrupted, finished, inject_tt, idle, calling, leaving, returned, Chain, new_chain,
  enter_round, init, interrupt_async, inject_timetable_async, commit_intermediate_timetable,
  creates, end_round, leave,
}

module _ {T : Type 0} where
  -- The chain after `init`, with the timetables that were supplied so far (by a successful algorithm
  -- or by an injection) and the number of algorithms that succeeded.
  pub data Reached (number : ℕ) : List (Option T) → ℕ → Chain T → Type 0 where
    starts : (c : Chain T) → init false number new_chain ≡ some c → Reached number [] 0 c
    interrupts :
        (given : List (Option T)) (wins : ℕ) (c d : Chain T)
        → Reached number given wins c
        → interrupt_async c ≡ some d
        → Reached number given wins d
    injects :
        (given : List (Option T)) (wins : ℕ) (c d : Chain T) (tt : Option T)
        → Reached number given wins c
        → inject_timetable_async tt c ≡ some d
        → Reached number (tt ∷ given) wins d
    commits :
        (given : List (Option T)) (wins : ℕ) (c : Chain T) (tt : Option T)
        → Reached number given wins c
        → Reached number given wins (commit_intermediate_timetable tt c)
    succeeds :
        (given : List (Option T)) (wins : ℕ) (c : Chain T) (i : ℕ) (tt : Option T)
        → Reached number given wins c
        → c.phase ≡ calling i
        → Reached number
            (tt ∷ given)
            (wins + 1)
            (end_round i (record { succeeded = true; tt = tt }) c)
    fails :
        (given : List (Option T)) (wins : ℕ) (c : Chain T) (i : ℕ) (tt : Option T)
        → Reached number given wins c
        → c.phase ≡ calling i
        → Reached number given wins (end_round i (record { succeeded = false; tt = tt }) c)
    leaves :
        (given : List (Option T)) (wins : ℕ) (c : Chain T)
        → Reached number given wins c
        → c.phase ≡ leaving
        → Reached number given wins (leave c)

  pub record IsConsistent (given : List (Option T)) (wins : ℕ) (c : Chain T) : Type 0 where
    -- A running algorithm is in turn, and improves the actual timetable.
    pub calling_at :
        (i : ℕ)
        → c.phase ≡ calling i
        → (c.status ≡ working)
          × ((i < c.algorithms) × ((wins ≡ i) × (creates i c ≡ false → c.current ≡ c.actual_tt)))
    -- The chain is only finished when all algorithms succeeded.
    pub leaving_at : c.phase ≡ leaving → (c.status ≡ working) × (wins ≡ c.algorithms)
    pub returned_at :
        c.phase ≡ returned
        → (c.status ≡ interrupted) ⊎ ((c.status ≡ finished) × (wins ≡ c.algorithms))
    pub running : c.phase ≢ idle
    -- The actual timetable is one that was supplied.
    pub supplied : (c.actual_tt ≡ none) ⊎ Elem c.actual_tt given
    pub pending : c.async_op ≡ inject_tt → Elem c.injected_tt given

  pub enter_round-IsConsistent :
      (given : List (Option T)) (i : ℕ) (c : Chain T)
      → i ≤ c.algorithms
      → c.status ≡ working
      → (creates i c ≡ false → c.current ≡ c.actual_tt)
      → (c.actual_tt ≡ none) ⊎ Elem c.actual_tt given
      → (c.async_op ≡ inject_tt → Elem c.injected_tt given)
      → IsConsistent given i (enter_round i c)
  unfolding creates
  enter_round-IsConsistent given i c le w improves s p = elim (Bool-cases (ltb i c.algorithms)) [
    | inl more ↦ rw more (record {
      calling_at = λ j e.
          let same : i ≡ j = cc in
          (w, (omega (arith, same, ltb→lt i c.algorithms more), (same, λ h. improves (rw same h))));
      leaving_at = λ e. cc;
      returned_at = λ e. cc;
      running = λ e. cc;
      supplied = s;
      pending = p;
    })
    | inr last ↦ rw last (record {
      calling_at = λ j e. cc;
      leaving_at = λ e. (w, ground (arith, lt→ltb i c.algorithms));
      returned_at = λ e. cc;
      running = λ e. cc;
      supplied = s;
      pending = p;
    })
  ]
