-- ===== src/Ctrl/Sender/Draining.antt =====
-- What the thread of src/sched-lib/ctrl/sender.cpp has written when it ends.
use swm_sched.Prelude.{
  not, is_empty, filter_if, true, false, if◌then◌else◌, ℕ, zero, suc, ◌≤◌, ◌^◌, ◌≡◌, refl, sym, ap,
  ◌∙◌, subst, Bool, true, false, List, [], ◌∷◌, ◌++◌, Option, none, some, ◌⊎◌, inl, inr,
  if◌then◌else◌, arith, Option-cases, some-injective, length,
}
use mathlib.Core.List.{append_assoc, append-nil}
use swm_sched.Auxl.MyQueue.{MyQueue, element_count, push, pop, new}
use swm_sched.Auxl.MyQueue.Fifo.{
  IsValid, to_list, push-IsValid, push-to_list, pop-IsValid, pop-to_list, length-to_list,
  new-IsValid,
}
use swm_sched.Ctrl.Sender.{
  throws, fails, gives, Serialized, Work, data_of, worker_round, worker_thread, Event, works,
  pushes, happen, run,
}

module _ {Response : Type 0} (succeeded : Response → Bool) (serialize : Response → Serialized) where
  -- The responses that are no null pointers, and the data of those that can be serialized.
  abbrev pub present : List (Option Response) → List Response
  present [] = []
  present (none ∷ rs) = present rs
  present (some r ∷ rs) = r ∷ present rs

  abbrev pub serialized : List Response → List (List ℕ)
  serialized [] = []
  serialized (r ∷ rs) = elim (serialize r) [
    | gives bytes ↦ bytes ∷ serialized rs
    | throws ↦ serialized rs
    | fails ↦ serialized rs
  ]

  -- What is to be written for responses: of those that are there and succeeded, the data that are not
  -- empty, in their order.
  unfoldable pub data_of_all : List (Option Response) → List (List ℕ)
  data_of_all rs =
      filter_if (λ bytes. not (is_empty bytes)) (serialized (filter_if succeeded (present rs)))

  -- The code takes them one by one.
  data_of-data_of_all :
      (r : Option Response) (rs : List (Option Response))
      → data_of_all (r ∷ rs) ≡ data_of succeeded serialize r ++ data_of_all rs
  unfolding data_of_all data_of
  data_of-data_of_all none rs = refl
  data_of-data_of_all (some r) rs = ground arith

  data_of_all-append :
      (xs ys : List (Option Response)) → data_of_all (xs ++ ys) ≡ data_of_all xs ++ data_of_all ys
  unfolding data_of_all
  data_of_all-append [] ys = refl
  data_of_all-append (x ∷ xs) ys =
      data_of-data_of_all x (xs ++ ys)
      ∙ ap (λ t. data_of succeeded serialize x ++ t) (data_of_all-append xs ys)
      ∙ sym (append_assoc (data_of succeeded serialize x) (data_of_all xs) (data_of_all ys))
      ∙ ap (λ t. t ++ data_of_all ys) (sym (data_of-data_of_all x xs))

  -- What was written and what will be.
  pending : Work Response → List (List ℕ)
  pending w = w.written ++ data_of_all (to_list none w.queue)

  pop-cases :
      (q : MyQueue (Option Response))
      → (element_count none q ≡ 0) × (pop none q ≡ none)
        ⊎ ((r : Option Response) × (rest : MyQueue (Option Response)) × (pop none q
              ≡ some (r, rest))
            × (suc (element_count none rest) ≡ element_count none q))
  unfolding pop
  pop-cases q = elim (Option-cases (pop none q)) [
    | inl stuck ↦ inl (ground arith, stuck)
    | inr ((r, rest), popped) ↦ inr (r, rest, popped, ground arith)
  ]

  -- A round takes the first response, and writes it.
  worker_round-cases :
      (closed : Bool) (w : Work Response)
      → IsValid w.queue
      → ((element_count none w.queue ≡ 0)
          × (worker_round succeeded serialize closed w ≡ (if closed then none else some w)))
        ⊎ ((w' : Work Response) × (worker_round succeeded serialize closed w ≡ some w')
            × IsValid w'.queue
            × (pending w' ≡ pending w)
            × (suc (element_count none w'.queue) ≡ element_count none w.queue))
  unfolding worker_round pending data_of_all
  worker_round-cases closed w v = elim (pop-cases w.queue) [
    | inl (empty, stuck) ↦ inl (empty, ground arith)
    | inr (r, rest, popped, fewer) ↦ inr (
      record { queue = rest; written = w.written ++ data_of succeeded serialize r },
      ground arith,
      pop-IsValid none r w.queue rest v popped,
      append_assoc w.written (data_of succeeded serialize r) (data_of_all (to_list none rest))
          ∙ ap (λ t. w.written ++ t) (sym (data_of-data_of_all r (to_list none rest)))
          ∙ ap (λ rs. w.written ++ data_of_all rs) (sym (pop-to_list none r w.queue rest v popped)),
      fewer,
    )
  ]

  -- As many rounds as there are responses, and one more, end the loop.
  abbrev Drains : ℕ → Work Response → Type 0
  Drains rounds w =
      (w' : Work Response) × (worker_thread succeeded serialize rounds true w ≡ some w')
      × (element_count none w'.queue ≡ 0)
      × (w'.written ≡ pending w)

  length-zero : (rs : List (Option Response)) → length rs ≡ 0 → rs ≡ []
  length-zero [] e = refl
  length-zero (r ∷ rs) e = absurd (omega arith)

  ended :
      (w : Work Response)
      → element_count none w.queue ≡ 0
      → worker_round succeeded serialize true w ≡ none
      → Drains 1 w
  unfolding worker_thread pending data_of_all
  ended w empty ends = (
    w,
    rw (worker_thread, ends) refl,
    empty,
    sym (append-nil w.written)
        ∙ ap (λ rs. w.written ++ data_of_all rs)
            (sym (length-zero (to_list none w.queue) (length-to_list none w.queue ∙ empty))),
  )

  worker_thread-drains :
      (n : ℕ) (w : Work Response)
      → IsValid w.queue
      → element_count none w.queue ≡ n
      → Drains (suc n) w
  unfolding worker_thread pending
  worker_thread-drains zero w v e = elim (worker_round-cases true w v) [
    | inl (empty, ends) ↦ ended w empty ends
    | inr (w', goes_on, v', same, fewer) ↦ absurd (omega arith)
  ]
  worker_thread-drains (suc n) w v e = elim (worker_round-cases true w v) [
    | inl (empty, ends) ↦ absurd (omega arith)
    | inr (w', goes_on, v', same, fewer) ↦
        let (last, ends, empty, wrote) = worker_thread-drains n w' v' (omega arith) in
        (last, rw (worker_thread, goes_on) ends, empty, wrote ∙ same)
  ]

  happen-pending :
      (e : Event Response) (w : Work Response)
      → IsValid w.queue
      → let (w', took) = happen succeeded serialize e w in
        IsValid w'.queue × (pending w' ≡ pending w ++ data_of_all took)
  unfolding happen pending data_of_all
  happen-pending works w v = elim (worker_round-cases false w v) [
    | inl (empty, same) ↦ rw (happen, same) (v, sym (append-nil (pending w)))
    | inr (w', goes_on, v', same, fewer) ↦
        rw (happen, goes_on) (v', same ∙ sym (append-nil (pending w)))
  ]
  happen-pending (pushes r) w v = elim (Option-cases (push none r w.queue)) [
    | inl full ↦ rw (happen, full) (v, sym (append-nil (pending w)))
    | inr (q, pushed) ↦
        rw (happen, pushed)
          (
            push-IsValid none r w.queue q v pushed,
            ap (λ rs. w.written ++ data_of_all rs) (push-to_list none r w.queue q v pushed)
                ∙ ap (λ t. w.written ++ t) (data_of_all-append (to_list none w.queue) (r ∷ []))
                ∙ sym (
                    append_assoc w.written (data_of_all (to_list none w.queue))
                      (data_of_all (r ∷ []))),
          )
  ]

  run-pending :
      (es : List (Event Response)) (w : Work Response)
      → IsValid w.queue
      → let (w', took) = run succeeded serialize es w in
        IsValid w'.queue × (pending w' ≡ pending w ++ data_of_all took)
  unfolding run data_of_all
  run-pending [] w v = (v, sym (append-nil (pending w)))
  run-pending (e ∷ es) w v =
      let (w', took) = happen succeeded serialize e w in
      let (v', now) = happen-pending e w v in
      let (v'', later) = run-pending es w' v' in
      (
        v'',
        later
            ∙ ap (λ t. t ++ data_of_all (run succeeded serialize es w').1) now
            ∙ append_assoc (pending w) (data_of_all took)
                (data_of_all (run succeeded serialize es w').1)
            ∙ ap (λ t. pending w ++ t)
                (sym (data_of_all-append took (run succeeded serialize es w').1)),
      )

  -- For a queue of any size, and whatever the threads do with it in whatever order until the object is
  -- closed, but without a push after it: the thread ends, after at most one round for each response that
  -- waits and one more, with the queue empty. It has written the data of the responses that the queue
  -- took, in their order, each once, and nothing else: nothing for a null pointer, a response that did
  -- not succeed, or one that could not be serialized or has no data.
  pub run-drains :
      (n : ℕ) (q : MyQueue (Option Response)) (es : List (Event Response))
      → n ≤ 2 ^ 63
      → new none n ≡ some q
      → let (w, took) = run succeeded serialize es (record { queue = q; written = [] }) in
        (w' : Work Response) × (worker_thread succeeded serialize
            (suc (element_count none w.queue))
            true
            w
          ≡ some w')
        × (element_count none w'.queue ≡ 0)
        × (w'.written ≡ data_of_all took)
  unfolding pending data_of_all
  run-drains n q es small made = elim (new-IsValid {T = Option Response} none n small) [
    | inl (zero_size, thrown) ↦ ground arith
    | inr (fresh, got, valid, sized, empty) ↦
        let same : fresh ≡ q = some-injective fresh q (sym got ∙ made) in
        let w : Work Response = record { queue = q; written = [] } in
        let (v, all) = run-pending es w (subst IsValid same valid) in
        let (last, ends, drained, wrote) = worker_thread-drains _ _ v refl in
        (
          last,
          ends,
          drained,
          wrote
              ∙ all
              ∙ ap (λ rs. data_of_all rs ++ data_of_all (run succeeded serialize es w).1)
                  (ap (to_list none) (sym same) ∙ empty),
        )
  ]
