-- ===== src/Chn/ChainController/Timeouts.antt =====
-- That time ends an exchange by src/sched-lib/chn/chain_controller.cpp, and what becomes of the timetables
-- when a chain goes on between the two injections.
use swm_sched.Prelude.{
  ℕ, suc, ◌-◌, ◌≤◌, ◌≡◌, refl, ◌⊎◌, inl, inr, Bool, true, false, List, [], ◌∷◌, Option, none, some,
  arith, All, ap, ◌∙◌,
}
use swm_sched.Chn.Chain.{
  working, no_op, inject_tt, Chain, Answer, actual_timetable, ready_for_async_operation,
  inject_timetable_async, end_round,
}
use swm_sched.Chn.Chain.Requests.{inject_timetable_async-replaces}
use swm_sched.Chn.ChainController.Exchange.{
  ExchangePhase, asked, waits_target, checks_target, takes, waits_taken, checks_taken, waits_ready,
  checks_ready, waits_injecting, checks_injecting, injects, threw, told, Side, take, wait_ready,
  check_ready, injected, inject, exchange_at, exchange_step, Event, left_step, right_step,
  left_chain, right_chain, exchange_run,
}

-- The steps that are left, if time is up.
abbrev rank : ExchangePhase → ℕ
rank asked = 11
rank waits_target = 10
rank checks_target = 9
rank takes = 8
rank waits_taken = 7
rank checks_taken = 6
rank waits_ready = 5
rank checks_ready = 4
rank waits_injecting = 3
rank checks_injecting = 2
rank injects = 1
rank _ = 0

rank-le : (p : ExchangePhase) → rank p ≤ 11
rank-le p = ground arith

rank-zero : (p : ExchangePhase) → rank p ≡ 0 → ((b : Bool) × (p ≡ told b)) ⊎ (p ≡ threw)
rank-zero threw h = inr refl
rank-zero (told b) h = inl (b, refl)
rank-zero asked h = absurd (omega arith)
rank-zero waits_target h = absurd (omega arith)
rank-zero checks_target h = absurd (omega arith)
rank-zero takes h = absurd (omega arith)
rank-zero waits_taken h = absurd (omega arith)
rank-zero checks_taken h = absurd (omega arith)
rank-zero waits_ready h = absurd (omega arith)
rank-zero checks_ready h = absurd (omega arith)
rank-zero waits_injecting h = absurd (omega arith)
rank-zero checks_injecting h = absurd (omega arith)
rank-zero injects h = absurd (omega arith)

module _ {T : Type 0} where
  take-rank : (o : Option (Option T)) (s : Side T) → rank (take o s).phase ≤ 7
  take-rank none s = omega arith
  take-rank (some none) s = omega arith
  take-rank (some (some tt)) s = omega arith

  wait_ready-rank : (o : Option Bool) (s : Side T) → rank (wait_ready true o s).phase ≤ 4
  wait_ready-rank none s = ground arith
  wait_ready-rank (some ready) s = ground arith

  check_ready-rank : (o : Option Bool) (s : Side T) → rank (check_ready o s).phase ≤ 3
  check_ready-rank none s = omega arith
  check_ready-rank (some ready) s = ground arith

  injected-rank : (o : Option (Chain T)) (s : Side T) → rank (injected o s).phase ≤ 0
  injected-rank none s = omega arith
  injected-rank (some c) s = omega arith

  inject-rank : (o : Option (Option T)) (s : Side T) → rank (inject o s).phase ≤ 0
  inject-rank none s = omega arith
  inject-rank (some tt) s = injected-rank (inject_timetable_async tt s.chain) s

  exchange_at-rank :
      (p : ExchangePhase) (target s : Side T)
      → s.phase ≡ p
      → rank (exchange_at p false true target s).phase ≤ rank p - 1
  exchange_at-rank asked target s e = ground arith
  exchange_at-rank waits_target target s e = ground arith
  exchange_at-rank checks_target target s e = ground arith
  exchange_at-rank takes target s e = take-rank (actual_timetable target.chain) s
  exchange_at-rank waits_taken target s e = ground arith
  exchange_at-rank checks_taken target s e = ground arith
  exchange_at-rank waits_ready target s e = wait_ready-rank (ready_for_async_operation s.chain) s
  exchange_at-rank checks_ready target s e = check_ready-rank (ready_for_async_operation s.chain) s
  exchange_at-rank waits_injecting target s e = ground arith
  exchange_at-rank checks_injecting target s e = ground arith
  exchange_at-rank injects target s e = inject-rank (actual_timetable target.chain) s
  exchange_at-rank threw target s e = rw e (omega arith)
  exchange_at-rank (told b) target s e = rw e (omega arith)

  -- The steps of the left side, and that its time is up at each.
  abbrev pub left_steps : List (Event T) → ℕ
  left_steps [] = 0
  left_steps (left_step expired ∷ es) = suc (left_steps es)
  left_steps (_ ∷ es) = left_steps es

  abbrev pub IsLate : Event T → Type 0
  IsLate (left_step expired) = expired ≡ true
  IsLate _ = Unit

  exchange_run-rank :
      (es : List (Event T)) (l r : Side T)
      → All IsLate es
      → rank (exchange_run es (l, r)).0.phase ≤ rank l.phase - left_steps es
  unfolding exchange_run
  exchange_run-rank [] l r h = omega arith
  exchange_run-rank (left_step expired ∷ es) l r h = rw (h.0) (
      omega (
        arith,
        exchange_at-rank l.phase r l refl,
        exchange_run-rank es (exchange_at l.phase false true r l) r h.1,
      ))
  exchange_run-rank (right_step expired ∷ es) l r h =
      exchange_run-rank es l (exchange_at r.phase false expired l r) h.1
  exchange_run-rank (left_chain others ∷ es) l r h =
      exchange_run-rank es (record l { chain = others l.chain }) r h.1
  exchange_run-rank (right_chain others ∷ es) l r h =
      exchange_run-rank es l (record r { chain = others r.chain }) h.1

  -- Once its time is up, eleven steps of a side end its exchange, whatever the other side does and
  -- whatever happens to the chains: the callback was told, or an exception left the function.
  pub exchange_run-ends :
      (es : List (Event T)) (l r : Side T)
      → All IsLate es
      → 11 ≤ left_steps es
      → ((b : Bool) × ((exchange_run es (l, r)).0.phase ≡ told b))
        ⊎ ((exchange_run es (l, r)).0.phase ≡ threw)
  exchange_run-ends es l r h long =
      rank-zero _ (omega (arith, exchange_run-rank es l r h, rank-le l.phase))

  actual_timetable-working :
      (c : Chain T) → c.status ≡ working → actual_timetable c ≡ some c.actual_tt
  unfolding actual_timetable
  actual_timetable-working c w = ground (arith, w)

  actual_timetable-ready :
      (c : Chain T)
      → ready_for_async_operation c ≡ some true
      → actual_timetable c ≡ some c.actual_tt
  unfolding actual_timetable ready_for_async_operation
  actual_timetable-ready c h = ground arith

  inject_timetable_async-working :
      (tt : Option T) (c : Chain T)
      → c.status ≡ working
      → c.async_op ≡ no_op
      → (d : Chain T) × (inject_timetable_async tt c ≡ some d) × (d.injected_tt ≡ tt)
  unfolding inject_timetable_async
  inject_timetable_async-working tt c w n =
      (record c { async_op = inject_tt; injected_tt = tt }, ground (arith, w, n), refl)

  exchange_step-injects :
      (target s : Side T) (expired : Bool) (tt : Option T) (d : Chain T)
      → s.phase ≡ injects
      → actual_timetable target.chain ≡ some tt
      → inject_timetable_async tt s.chain ≡ some d
      → exchange_step false expired target s
        ≡ record s { chain = d; points = false; phase = told true }
  unfolding exchange_step
  exchange_step-injects target s expired tt d e o g =
      ap (λ p. exchange_at p false expired target s) e
      ∙ ap (λ k. inject k s) o
      ∙ ap (λ k. injected k s) g

  -- Both sides are about to inject. If the left one does, and its algorithm returns before the right
  -- one injects, the right side is told true, and gets the timetable that it had itself.
  pub exchange_run-own :
      (l r : Side T) (i : ℕ) (a : Answer T)
      → (l.phase ≡ injects) × (r.phase ≡ injects)
      → (l.chain.status ≡ working) × (l.chain.async_op ≡ no_op)
      → (r.chain.status ≡ working) × (r.chain.async_op ≡ no_op)
      → let ended =
          exchange_run
            (left_step false ∷ left_chain (end_round i a) ∷ right_step false ∷ [])
            (l, r) in
        (ended.1.phase ≡ told true) × (ended.1.chain.injected_tt ≡ r.chain.actual_tt)
  unfolding exchange_run
  exchange_run-own l r i a (lp, rp) (lw, ln) (rw', rn) =
      let own = r.chain.actual_tt in
      let (d, asks_left, held) = inject_timetable_async-working own l.chain lw ln in
      let round = inject_timetable_async-replaces l.chain d i a own lw asks_left in
      let left_first =
        exchange_step-injects r l false own d lp (actual_timetable-working r.chain rw') asks_left in
      let (e, asks_right, got) = inject_timetable_async-working own r.chain rw' rn in
      let l' : Side T = record l { chain = end_round i a d; points = false; phase = told true } in
      let right_then =
        exchange_step-injects l' r false own e rp
          (actual_timetable-ready (end_round i a d) round.1.0 ∙ ap (λ k. some k) round.0)
          asks_right in
      let both =
        ap (λ k. exchange_run (left_chain (end_round i a) ∷ right_step false ∷ []) (k, r))
          left_first
        ∙ ap (λ k. (l', k)) right_then in
      (ap (λ k. k.1.phase) both, ap (λ k. k.1.chain.injected_tt) both ∙ got)
