-- ===== src/Chn/ChainController/Queue.antt =====
-- What becomes of the functions that are delegated to src/sched-lib/chn/chain_controller.cpp.
use mathlib.Core.List.{append_assoc, append-nil}
use swm_sched.Prelude.{
  ◌≡◌, refl, sym, ap, ◌∙◌, ◌⊎◌, inl, inr, Bool, true, false, not, ◌&&◌, List, [], ◌∷◌, ◌++◌, map,
  some, arith, Bool-cases,
}
use swm_sched.Chn.ChainController.{
  Phase, starting, looping, calling, draining, notifying, done, ChainController, new_controller,
  take_first, skip_first, init, invoke, close, start, enter_round, returned, drain, notify,
}
use swm_sched.Chn.ChainController.Reach.{
  called, skipped, Reached, begins, places, closes, starts, enters, returns, drains, notifies,
}

module _ {F : Type 0} where
  abbrev functions : List (F × Bool) → List F
  functions = map (λ call. call.0)

  -- What holds in each phase.
  abbrev PhaseHolds : Bool → ChainController F → Phase F → Type 0
  PhaseHolds won c (draining succeeded) = succeeded ≡ true → won ≡ true
  PhaseHolds won c (notifying succeeded) =
      (c.queue ≡ []) × (c.stopped ≡ true) × (succeeded ≡ true → won ≡ true)
  PhaseHolds won c (done succeeded) =
      (c.queue ≡ []) × (c.stopped ≡ true) × (succeeded ≡ true → won ≡ true)
  PhaseHolds won c _ = c.finished ≡ false

  record Inv (placed : List F) (calls : List (F × Bool)) (won : Bool) (c : ChainController F)
      : Type 0 where
    -- Nothing is lost, doubled or overtaken.
    in_order : placed ≡ functions calls ++ c.queue
    holds : PhaseHolds won c c.phase
    ended : c.finished ≡ true → (succeeded : Bool) × (c.phase ≡ done succeeded)
    running : c.initialized ≡ true

  functions-snoc :
      (calls : List (F × Bool)) (func : F) (skip : Bool) (rest : List F)
      → functions (calls ++ (func, skip) ∷ []) ++ rest ≡ functions calls ++ func ∷ rest
  functions-snoc [] func skip rest = refl
  functions-snoc (call ∷ calls) func skip rest =
      ap (◌∷◌ call.0) (functions-snoc calls func skip rest)

  -- The fields that a step leaves or changes, with a phase in which nothing has ended.
  going-Inv :
      (placed : List F) (calls : List (F × Bool)) (won : Bool) (c : ChainController F)
      → placed ≡ functions calls ++ c.queue
      → c.initialized ≡ true
      → c.finished ≡ false
      → (c.phase ≡ starting) ⊎ ((c.phase ≡ looping) ⊎ ((func : F) × (c.phase ≡ calling func)))
      → Inv placed calls won c
  going-Inv placed calls won c o r f (inl e) = record {
    in_order = o;
    holds = rw e f;
    ended = λ h. cc;
    running = r;
  }
  going-Inv placed calls won c o r f (inr (inl e)) = record {
    in_order = o;
    holds = rw e f;
    ended = λ h. cc;
    running = r;
  }
  going-Inv placed calls won c o r f (inr (inr (func, e))) = record {
    in_order = o;
    holds = rw e f;
    ended = λ h. cc;
    running = r;
  }

  looping-unfinished :
      (placed : List F) (calls : List (F × Bool)) (won : Bool) (c : ChainController F)
      → Inv placed calls won c
      → c.phase ≡ looping
      → c.finished ≡ false
  looping-unfinished placed calls won c i e = rw e at i.holds

  take_first-Inv :
      (placed : List F) (calls : List (F × Bool)) (won later : Bool) (c : ChainController F)
      (queue : List F)
      → c.queue ≡ queue
      → c.phase ≡ looping
      → Inv placed calls won c
      → Inv placed (calls ++ called (take_first queue c).phase) later (take_first queue c)
  take_first-Inv placed calls won later c [] q e i =
      going-Inv placed _ later c
        (i.in_order ∙ ap (λ cs. functions cs ++ c.queue) (rw e (sym (append-nil calls)))) i.running
        (looping-unfinished placed calls won c i e) (inr (inl e))
  take_first-Inv placed calls won later c (func ∷ rest) q e i =
      going-Inv placed _ later _
        (i.in_order ∙ ap (λ k. functions calls ++ k) q ∙ sym (functions-snoc calls func false rest))
        i.running (looping-unfinished placed calls won c i e) (inr (inr (func, refl)))

  enter_round-Inv :
      (placed : List F) (calls : List (F × Bool)) (won : Bool) (c : ChainController F)
      (chain_stopped chain_finished : Bool)
      → c.phase ≡ looping
      → Inv placed calls won c
      → Inv placed
          (calls ++ called (enter_round chain_stopped chain_finished c).phase)
          chain_finished
          (enter_round chain_stopped chain_finished c)
  unfolding enter_round
  enter_round-Inv placed calls won c chain_stopped chain_finished e i =
      elim (Bool-cases (not c.stopped && not chain_stopped)) [
        | inl goes ↦ rw goes (take_first-Inv placed calls won chain_finished c c.queue refl e i)
        | inr ends ↦ rw ends (record {
          in_order = i.in_order ∙ ap (λ cs. functions cs ++ c.queue) (sym (append-nil calls));
          holds = λ s. ground arith;
          ended = λ h. cc (looping-unfinished placed calls won c i e);
          running = i.running;
        })
      ]

  drain-Inv :
      (placed : List F) (calls : List (F × Bool)) (won succeeded : Bool) (c : ChainController F)
      (queue : List F)
      → c.queue ≡ queue
      → c.phase ≡ draining succeeded
      → Inv placed calls won c
      → Inv placed (calls ++ skipped queue) won (skip_first succeeded queue c)
  drain-Inv placed calls won succeeded c [] q e i = record {
    in_order = i.in_order ∙ ap (λ cs. functions cs ++ c.queue) (sym (append-nil calls));
    holds = (q, refl, rw e at i.holds);
    ended = λ h. let (s, k) = i.ended h in cc;
    running = i.running;
  }
  drain-Inv placed calls won succeeded c (func ∷ rest) q e i = record {
    in_order =
        i.in_order ∙ ap (λ k. functions calls ++ k) q ∙ sym (functions-snoc calls func true rest);
    holds = rw e (rw e at i.holds);
    ended = i.ended;
    running = i.running;
  }

  PhaseHolds-place :
      (won : Bool) (c : ChainController F) (queue : List F) (phase : Phase F)
      → c.stopped ≡ false
      → PhaseHolds won c phase
      → PhaseHolds won (record c { queue = queue }) phase
  PhaseHolds-place won c queue (draining succeeded) s h = h
  PhaseHolds-place won c queue (notifying succeeded) s h = cc (h.1)
  PhaseHolds-place won c queue (done succeeded) s h = cc (h.1)
  PhaseHolds-place won c queue _ s h = h

  PhaseHolds-close :
      (won : Bool) (c : ChainController F) (phase : Phase F)
      → PhaseHolds won c phase
      → PhaseHolds won (record c { stopped = true }) phase
  PhaseHolds-close won c (draining succeeded) h = h
  PhaseHolds-close won c (notifying succeeded) h = (h.0, refl, h.2)
  PhaseHolds-close won c (done succeeded) h = (h.0, refl, h.2)
  PhaseHolds-close won c _ h = h

  invoke-places :
      (c d : ChainController F) (func : F)
      → invoke func c ≡ some (d, false)
      → (c.stopped ≡ false) × (d ≡ record c { queue = c.queue ++ func ∷ [] })
  unfolding invoke
  invoke-places c d func e = ground arith

  places-Inv :
      (placed : List F) (calls : List (F × Bool)) (won : Bool) (c d : ChainController F) (func : F)
      → Inv placed calls won c
      → invoke func c ≡ some (d, false)
      → Inv (placed ++ func ∷ []) calls won d
  places-Inv placed calls won c d func i e =
      let (open_yet, same) = invoke-places c d func e in
      rw same (record {
        in_order =
            ap (λ fs. fs ++ func ∷ []) i.in_order
            ∙ append_assoc (functions calls) c.queue (func ∷ []);
        holds = PhaseHolds-place won c (c.queue ++ func ∷ []) c.phase open_yet i.holds;
        ended = i.ended;
        running = i.running;
      })

  Reached-Inv :
      {placed : List F} {calls : List (F × Bool)} {won : Bool} {c : ChainController F}
      → Reached placed calls won c
      → Inv placed calls won c
  unfolding init invoke close start returned drain notify
  Reached-Inv (begins c e) =
      let e' : c ≡ record new_controller { initialized = true; phase = starting } = ground arith in
      rw e' (record { in_order = refl; holds = refl; ended = λ h. cc; running = refl })
  Reached-Inv {placed} (places {placed = ps} {calls} {won} {c} {d} func r unlocked e) =
      places-Inv ps calls won c d func (Reached-Inv r) e
  Reached-Inv (closes {placed} {calls} {won} {c} r) =
      let i = Reached-Inv r in
      record {
        in_order = i.in_order;
        holds = PhaseHolds-close won c c.phase i.holds;
        ended = i.ended;
        running = i.running;
      }
  Reached-Inv (starts {placed} {calls} {won} {c} r e) =
      let i = Reached-Inv r in
      going-Inv placed calls won _ i.in_order i.running refl (inr (inl refl))
  Reached-Inv (enters {placed} {calls} {won} {c} chain_stopped chain_finished r e same) =
      rw same (enter_round-Inv placed calls won c chain_stopped chain_finished e (Reached-Inv r))
  Reached-Inv (returns {placed} {calls} {won} {c} func stops r e) =
      let i = Reached-Inv r in
      going-Inv placed calls won _ i.in_order i.running (rw e at i.holds) (inr (inl refl))
  Reached-Inv (drains {placed} {calls} {won} {c} succeeded r e) =
      drain-Inv placed calls won succeeded c c.queue refl e (Reached-Inv r)
  Reached-Inv (notifies {placed} {calls} {won} {c} succeeded r e) =
      let i = Reached-Inv r in
      record {
        in_order = i.in_order;
        holds = rw e at i.holds;
        ended = λ h. (succeeded, refl);
        running = i.running;
      }

  -- Whatever the requests, their moments and what the chain does meanwhile: when the controller has
  -- finished, the worker has called each function that was placed in its queue exactly once, in the
  -- order in which they were placed, and a further one is called at once with `true` and not placed;
  -- the callback was told of a success only if the chain was found finished.
  pub Reached-called :
      {placed : List F} {calls : List (F × Bool)} {won : Bool} {c : ChainController F}
      → Reached placed calls won c
      → c.finished ≡ true
      → (map (λ call. call.0) calls ≡ placed)
        × (((func : F) → invoke func c ≡ some (c, true)) × ((c.phase ≡ done true) → won ≡ true))
  unfolding invoke
  Reached-called {placed} {calls} {won} {c} r f =
      let i = Reached-Inv r in
      let (succeeded, at) = i.ended f in
      let (q, s, w) = rw at at i.holds in
      (
        sym (i.in_order ∙ ap (λ k. functions calls ++ k) q ∙ append-nil (functions calls)),
        (λ func. rw (i.running, s) refl, λ e. w (cc)),
      )
