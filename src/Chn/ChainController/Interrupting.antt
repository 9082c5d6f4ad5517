-- ===== src/Chn/ChainController/Interrupting.antt =====
-- How an interruption by src/sched-lib/chn/chain_controller.cpp ends.
use swm_sched.Prelude.{
  ℕ, zero, suc, ◌-◌, ◌≤◌, ◌≡◌, refl, ◌⊎◌, inl, inr, Bool, true, false, not, ◌&&◌, List, [], ◌∷◌,
  ◌++◌, Option, none, some, arith, if◌then◌else◌, length, replicate, All, ap, ◌∙◌,
}
use swm_sched.Chn.Chain.{
  working, interrupted, no_op, is_working, Chain, Answer, ready_for_async_operation,
  interrupt_async, end_round,
}
use swm_sched.Chn.Chain.Requests.{commit_all, interrupt_async-stops}
use swm_sched.Chn.ChainController.Interruption.{
  InterruptPhase, asked, waits_ready, checks_ready, asks, waits_stopped, checks_stopped, threw,
  told, Interruption, at, wait_ready, check_ready, ask, step_at, interrupt_run,
}

-- The steps that are left, if time is up.
abbrev rank : InterruptPhase → ℕ
rank asked = 6
rank waits_ready = 5
rank checks_ready = 4
rank asks = 3
rank waits_stopped = 2
rank checks_stopped = 1
rank _ = 0

rank-zero : (p : InterruptPhase) → rank p ≡ 0 → ((b : Bool) × (p ≡ told b)) ⊎ (p ≡ threw)
rank-zero threw h = inr refl
rank-zero (told b) h = inl (b, refl)
rank-zero asked h = absurd (omega arith)
rank-zero waits_ready h = absurd (omega arith)
rank-zero checks_ready h = absurd (omega arith)
rank-zero asks h = absurd (omega arith)
rank-zero waits_stopped h = absurd (omega arith)
rank-zero checks_stopped h = absurd (omega arith)

module _ {T : Type 0} where
  wait_ready-rank :
      (ready : Option Bool) (s : Interruption T) → rank (wait_ready true ready s).phase ≤ 4
  wait_ready-rank none s = ground arith
  wait_ready-rank (some ready) s = ground arith

  check_ready-rank :
      (ready : Option Bool) (s : Interruption T) → rank (check_ready ready s).phase ≤ 3
  check_ready-rank none s = omega arith
  check_ready-rank (some ready) s = ground arith

  ask-rank : (c : Option (Chain T)) (s : Interruption T) → rank (ask c s).phase ≤ 2
  ask-rank none s = omega arith
  ask-rank (some c) s = omega arith

  step_at-rank :
      (p : InterruptPhase) (skipped : Bool) (s : Interruption T)
      → s.phase ≡ p
      → rank (step_at p skipped true s).phase ≤ rank p - 1
  step_at-rank asked skipped s e = ground arith
  step_at-rank waits_ready skipped s e = wait_ready-rank (ready_for_async_operation s.chain) s
  step_at-rank checks_ready skipped s e = check_ready-rank (ready_for_async_operation s.chain) s
  step_at-rank asks skipped s e = ask-rank (interrupt_async s.chain) s
  step_at-rank waits_stopped skipped s e = ground arith
  step_at-rank checks_stopped skipped s e = ground arith
  step_at-rank threw skipped s e = rw e (omega arith)
  step_at-rank (told b) skipped s e = rw e (omega arith)

  interrupt_run-rank :
      (skipped : Bool) (steps : List (Bool × (Chain T → Chain T))) (s : Interruption T)
      → All (λ step. step.0 ≡ true) steps
      → rank (interrupt_run skipped steps s).phase ≤ rank s.phase - length steps
  unfolding interrupt_run
  interrupt_run-rank skipped [] s h = omega arith
  interrupt_run-rank skipped ((expired, others) ∷ steps) s h =
      let s' = record s { chain = others s.chain } in
      rw (h.0) (
        omega (
          arith,
          step_at-rank s.phase skipped s' refl,
          interrupt_run-rank skipped steps (step_at s.phase skipped true s') h.1,
        ))

  -- Once the timeout has passed, six steps end the interruption, whatever the other threads do to the
  -- chain before each of them: the callback was told, or an exception left the function.
  pub interrupt_run-ends :
      (skipped : Bool) (steps : List (Bool × (Chain T → Chain T))) (s : Interruption T)
      → All (λ step. step.0 ≡ true) steps
      → 6 ≤ length steps
      → ((b : Bool) × ((interrupt_run skipped steps s).phase ≡ told b))
        ⊎ ((interrupt_run skipped steps s).phase ≡ threw)
  interrupt_run-ends skipped steps s h long =
      rank-zero _ (omega (arith, interrupt_run-rank skipped steps s h, rank-le s.phase))
    where
      rank-le : (p : InterruptPhase) → rank p ≤ 6
      rank-le p = ground arith

  -- A step in which the other threads leave the chain alone, and time is not up.
  abbrev pub quiet : Bool × (Chain T → Chain T)
  quiet = (false, λ c. c)

  waits-quiet :
      (n : ℕ) (steps : List (Bool × (Chain T → Chain T))) (c : Chain T) (h : Bool)
      → c.status ≡ working
      → interrupt_run false
          (replicate n quiet ++ steps)
          (record { chain = c; hard = h; phase = waits_stopped })
        ≡ interrupt_run false steps (record { chain = c; hard = h; phase = waits_stopped })
  unfolding interrupt_run
  waits-quiet zero steps c h w = refl
  waits-quiet (suc n) steps c h w =
      let waiting : Interruption T = record { chain = c; hard = h; phase = waits_stopped } in
      ap
        (λ st. interrupt_run false (replicate n quiet ++ steps) (
          at (if not (not (is_working st)) && true then waits_stopped else checks_stopped) waiting))
        w
      ∙ waits-quiet n steps c h w

  -- The other threads leave the chain at work with no request pending, step by step.
  abbrev pub AreAtWork : List (Chain T → Chain T) → Chain T → Type 0
  AreAtWork [] c = Unit
  AreAtWork (others ∷ rest) c =
      ((others c).status ≡ working) × (((others c).async_op ≡ no_op) × AreAtWork rest (others c))

  -- The chain is asked to stop, and time for it is left.
  asks-AreAtWork :
      (steps : List (Bool × (Chain T → Chain T))) (o1 o2 o3 o4 : Chain T → Chain T) (c d : Chain T)
      (h : Bool)
      → AreAtWork (o1 ∷ o2 ∷ o3 ∷ o4 ∷ []) c
      → interrupt_async (o4 (o3 (o2 (o1 c)))) ≡ some d
      → interrupt_run false
          ((false, o1) ∷ (false, o2) ∷ (false, o3) ∷ (false, o4) ∷ steps)
          (record { chain = c; hard = h; phase = asked })
        ≡ interrupt_run false steps (record { chain = d; hard = h; phase = waits_stopped })
  unfolding interrupt_run ready_for_async_operation
  asks-AreAtWork steps o1 o2 o3 o4 c d h (w1, (n1, (w2, (n2, (w3, (n3, (w4, (n4, u)))))))) e =
      ground (arith, w1, w2, n2, w3, n3, e)

  interrupt_async-working :
      (c d : Chain T) → c.status ≡ working → interrupt_async c ≡ some d → d.status ≡ working
  unfolding interrupt_async
  interrupt_async-working c d w e = ground (arith, w, e)

  ends-quiet :
      (c : Chain T) (h : Bool) (others : Chain T → Chain T)
      → (others c).status ≡ interrupted
      → interrupt_run false
          ((false, others) ∷ quiet ∷ [])
          (record { chain = c; hard = h; phase = waits_stopped })
        ≡ record { chain = others c; hard = h; phase = told true }
  unfolding interrupt_run
  ends-quiet c h others e = ground (arith, e)

  -- An interruption finds an algorithm running and no other request pending, and whatever the other
  -- threads do to the chain until `interrupt_async` was called, they leave it so at each step. It is
  -- soft, if the algorithm returns after that and before time is up, however long it takes, whatever
  -- timetables it commits meanwhile and whatever it answers: the callback is told true, the controller
  -- is not stopped, and the chain is interrupted and ready for the next request.
  pub interrupt_run-soft :
      (o1 o2 o3 o4 : Chain T → Chain T) (c d : Chain T) (h : Bool) (i : ℕ) (a : Answer T)
      (tts : List (Option T)) (waits : ℕ)
      → AreAtWork (o1 ∷ o2 ∷ o3 ∷ o4 ∷ []) c
      → interrupt_async (o4 (o3 (o2 (o1 c)))) ≡ some d
      → let ended = end_round i a (commit_all tts d) in
        (interrupt_run false
            ((false, o1)
              ∷ (false, o2)
              ∷ (false, o3)
              ∷ (false, o4)
              ∷ (replicate waits quiet
                  ++ (false, λ k. end_round i a (commit_all tts k)) ∷ quiet ∷ []))
            (record { chain = c; hard = h; phase = asked })
          ≡ record { chain = ended; hard = h; phase = told true })
        × ((ended.status ≡ interrupted) × (ready_for_async_operation ended ≡ some true))
  unfolding interrupt_run
  interrupt_run-soft o1 o2 o3 o4 c d h i a tts waits at_work e =
      let asked_of = o4 (o3 (o2 (o1 c))) in
      let w : asked_of.status ≡ working = at_work.1.1.1.1.1.1.0 in
      let stops = interrupt_async-stops asked_of d i a tts w e in
      let still = interrupt_async-working asked_of d w e in
      let last : List (Bool × (Chain T → Chain T)) =
        (false, λ k. end_round i a (commit_all tts k)) ∷ quiet ∷ [] in
      (
        asks-AreAtWork (replicate waits quiet ++ last) o1 o2 o3 o4 c d h at_work e
            ∙ waits-quiet waits last d h still
            ∙ ends-quiet d h (λ k. end_round i a (commit_all tts k)) stops.1.0,
        (stops.1.0, stops.1.1.1.0),
      )
