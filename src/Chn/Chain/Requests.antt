-- ===== src/Chn/Chain/Requests.antt =====
-- What becomes of the requests of the master thread in src/sched-lib/chn/chain.cpp.
use swm_sched.Prelude.{
  some-injective, ℕ, ◌+◌, ◌≡◌, refl, sym, ap, ◌∙◌, inl, inr, Bool, true, false, List, [], ◌∷◌,
  Option, some, arith, if◌then◌else◌, ℕ_eq, ltb, Bool-cases,
}
use swm_sched.Chn.Chain.{
  working, interrupted, no_op, interrupt, inject_tt, calling, leaving, returned, Chain, Answer,
  is_not_started, is_working, is_none, enter_round, with_injected, store, interrupt_async,
  inject_timetable_async, ready_for_async_operation, forced_to_interrupt,
  commit_intermediate_timetable, creates, input, end_round, leave,
}

module _ {T : Type 0} where
  unfoldable pub commit_all : List (Option T) → Chain T → Chain T
  unfolding commit_intermediate_timetable
  commit_all [] c = c
  commit_all (tt ∷ tts) c = commit_all tts (commit_intermediate_timetable tt c)

  commit_all-value :
      (tts : List (Option T)) (c : Chain T)
      → (last : Option T) × (commit_all tts c ≡ record c { intermediate_tt = last })
  unfolding commit_all commit_intermediate_timetable
  commit_all-value [] c = (c.intermediate_tt, refl)
  commit_all-value (tt ∷ tts) c = commit_all-value tts (commit_intermediate_timetable tt c)

  interrupt_async-value :
      (c d : Chain T)
      → c.status ≡ working
      → interrupt_async c ≡ some d
      → d ≡ record c { async_op = interrupt }
  unfolding interrupt_async
  interrupt_async-value c d w e = elim (Bool-cases (is_none c.async_op)) [
    | inl free ↦
        some-injective _ _
          (sym (rw (ap is_not_started w, free, ap is_working w, interrupt_async) at e))
    | inr asked ↦ absurd (ground arith)
  ]

  inject_timetable_async-value :
      (c d : Chain T) (tt : Option T)
      → c.status ≡ working
      → inject_timetable_async tt c ≡ some d
      → d ≡ record c { async_op = inject_tt; injected_tt = tt }
  unfolding inject_timetable_async
  inject_timetable_async-value c d tt w e = elim (Bool-cases (is_none c.async_op)) [
    | inl free ↦
        some-injective _ _
          (sym (rw (ap is_not_started w, free, ap is_working w, inject_timetable_async) at e))
    | inr asked ↦ absurd (ground arith)
  ]

  enter_round-fields :
      (i : ℕ) (c : Chain T)
      → ((enter_round i c).actual_tt ≡ c.actual_tt)
        × (((enter_round i c).async_op ≡ c.async_op)
            × (((enter_round i c).status ≡ c.status)
                × (((enter_round i c).current ≡ c.current)
                    × ((enter_round i c).injected ≡ c.injected))))
  enter_round-fields i c = elim (Bool-cases (ltb i c.algorithms)) [
    | inl more ↦ rw more (refl, (refl, (refl, (refl, refl))))
    | inr last ↦ rw last (refl, (refl, (refl, (refl, refl))))
  ]

  asked_to_stop :
      (c : Chain T) (i : ℕ) (succeeded : Bool) (tt : Option T)
      → end_round i (record { succeeded = succeeded; tt = tt }) (record c { async_op = interrupt })
        ≡ record (store succeeded (record c { next = tt })) {
          async_op = no_op;
          status = interrupted;
          phase = returned;
        }
  unfolding end_round
  asked_to_stop c i true tt = refl
  asked_to_stop c i false tt = refl

  asked_to_inject :
      (c : Chain T) (i : ℕ) (a : Answer T) (tt : Option T)
      → (k : ℕ) × (e : Chain T) × (end_round i a
            (record c { async_op = inject_tt; injected_tt = tt })
          ≡ enter_round k (with_injected e))
        × (e.injected_tt ≡ tt)
  unfolding end_round
  asked_to_inject c i a tt = elim (Bool-cases a.succeeded) [
    | inl good ↦ (
      i + 1,
      store true (record c { async_op = inject_tt; injected_tt = tt; next = a.tt }),
      rw (good, end_round) refl,
      refl,
    )
    | inr bad ↦ (
      i,
      store false (record c { async_op = inject_tt; injected_tt = tt; next = a.tt }),
      rw (bad, end_round) refl,
      refl,
    )
  ]

  -- An interruption that is asked for while an algorithm runs is told to the algorithm, however many
  -- timetables it commits; and when it returns, with whatever answer, the chain stops, is ready for the
  -- next request, and keeps the timetable of a successful answer as the actual one.
  pub interrupt_async-stops :
      (c d : Chain T) (i : ℕ) (a : Answer T) (tts : List (Option T))
      → c.status ≡ working
      → interrupt_async c ≡ some d
      → (forced_to_interrupt (commit_all tts d) ≡ true)
        × (((end_round i a (commit_all tts d)).status ≡ interrupted)
            × (((end_round i a (commit_all tts d)).phase ≡ returned)
                × ((ready_for_async_operation (end_round i a (commit_all tts d)) ≡ some true)
                    × ((end_round i a (commit_all tts d)).actual_tt
                        ≡ (if a.succeeded then a.tt else c.actual_tt)))))
  unfolding forced_to_interrupt ready_for_async_operation
  interrupt_async-stops c d i a tts w e =
      let (last, committed) = commit_all-value tts d in
      let same : commit_all tts d ≡ record c { async_op = interrupt; intermediate_tt = last } =
        committed
        ∙ ap (λ (k : Chain T). record k { intermediate_tt = last })
            (interrupt_async-value c d w e) in
      let stops =
        ap (end_round i a) same
        ∙ asked_to_stop (record c { intermediate_tt = last }) i a.succeeded a.tt in
      (
        ap forced_to_interrupt same,
        (
          ap (λ (k : Chain T). k.status) stops,
          (
            ap (λ (k : Chain T). k.phase) stops,
            (ap ready_for_async_operation stops, ap (λ (k : Chain T). k.actual_tt) stops),
          ),
        ),
      )

  -- A timetable that is injected while an algorithm runs is the actual one when it returns, with
  -- whatever answer, and the chain is ready for the next request; if another round follows, it improves
  -- that timetable.
  pub inject_timetable_async-replaces :
      (c d : Chain T) (i : ℕ) (a : Answer T) (tt : Option T)
      → c.status ≡ working
      → inject_timetable_async tt c ≡ some d
      → ((end_round i a d).actual_tt ≡ tt)
        × ((ready_for_async_operation (end_round i a d) ≡ some true)
            × ((j : ℕ) → (end_round i a d).phase ≡ calling j → input j (end_round i a d) ≡ tt))
  unfolding ready_for_async_operation input creates
  inject_timetable_async-replaces c d i a tt w e =
      let (k, f, next, held) = asked_to_inject c i a tt in
      let ends = ap (end_round i a) (inject_timetable_async-value c d tt w e) ∙ next in
      let fields = enter_round-fields k (with_injected f) in
      (
        ap (λ (g : Chain T). g.actual_tt) ends ∙ fields.0 ∙ held,
        (
          ground (
            arith,
            ap (λ (g : Chain T). g.status) ends,
            ap (λ (g : Chain T). g.async_op) ends,
            fields,
          ),
          λ j at. ground (
            arith,
            ap (λ (g : Chain T). g.injected) ends,
            ap (λ (g : Chain T). g.current) ends,
            fields,
            held,
          ),
        ),
      )

  -- An interruption that is asked for between the last round and the end of the worker is accepted,
  -- and when the worker has ended the chain is not ready for another request.
  pub interrupt_async-late :
      (c : Chain T)
      → c.phase ≡ leaving
      → c.status ≡ working
      → c.async_op ≡ no_op
      → (d : Chain T) × (interrupt_async c ≡ some d)
        × (ready_for_async_operation (leave d) ≡ some false)
  unfolding interrupt_async ready_for_async_operation leave
  interrupt_async-late c at w n =
      (record c { async_op = interrupt }, rw (w, n, interrupt_async) refl, refl)
