-- ===== src/Chn/Chain/Safety.antt =====
-- The steps of src/sched-lib/chn/chain.cpp, one by one.
use swm_sched.Prelude.{
  some-injective, ℕ, ◌+◌, ◌<◌, ◌≡◌, refl, sym, ◌⊎◌, inl, inr, Bool, true, false, List, [], ◌∷◌,
  Option, none, some, arith, if◌then◌else◌, ◌==◌, ℕ_eq, Elem, Bool-cases, subst,
}
use swm_sched.Chn.Chain.{
  working, AsyncOperationType, no_op, interrupt, inject_tt, calling, leaving, Chain, is_not_started,
  is_working, is_none, new_chain, init, interrupt_async, inject_timetable_async,
  commit_intermediate_timetable, creates, store, with_injected, switched, check_async, end_round,
  leave,
}
use swm_sched.Chn.Chain.Reach.{
  Reached, starts, interrupts, injects, commits, succeeds, fails, leaves, IsConsistent,
  enter_round-IsConsistent,
}

module _ {T : Type 0} where
  start-IsConsistent :
      (number : ℕ) (c : Chain T) → init false number new_chain ≡ some c → IsConsistent [] 0 c
  unfolding init creates
  start-IsConsistent number c e = elim (Bool-cases (number == 0)) [
    | inl none_given ↦ absurd (ground arith)
    | inr given ↦ subst (IsConsistent [] 0) (some-injective _ c (rw (given, init) at e)) (
        enter_round-IsConsistent [] 0 (record new_chain { status = working; algorithms = number })
          (omega arith) refl (λ h. refl) (inl refl) (λ h. cc))
  ]

  interrupt_async-IsConsistent :
      (given : List (Option T)) (wins : ℕ) (c d : Chain T)
      → IsConsistent given wins c
      → interrupt_async c ≡ some d
      → IsConsistent given wins d
  unfolding interrupt_async creates
  interrupt_async-IsConsistent given wins c d p e = elim (Bool-cases (is_not_started c.status)) [
    | inl early ↦ absurd (ground arith)
    | inr begun ↦ elim (Bool-cases (is_none c.async_op)) [
      | inr asked ↦ absurd (ground arith)
      | inl free ↦
          subst (IsConsistent given wins)
            (some-injective _ d (rw (begun, free, interrupt_async) at e))
            (elim (Bool-cases (is_working c.status)) [
              | inr stops ↦ rw stops p
              | inl goes ↦ rw goes (record {
                calling_at = p.calling_at;
                leaving_at = p.leaving_at;
                returned_at = p.returned_at;
                running = p.running;
                supplied = p.supplied;
                pending = λ h. cc;
              })
            ])
    ]
  ]

  inject-IsConsistent :
      (given : List (Option T)) (wins : ℕ) (c d : Chain T) (tt : Option T)
      → IsConsistent given wins c
      → inject_timetable_async tt c ≡ some d
      → IsConsistent (tt ∷ given) wins d
  unfolding inject_timetable_async creates
  inject-IsConsistent given wins c d tt p e = elim (Bool-cases (is_not_started c.status)) [
    | inl early ↦ absurd (ground arith)
    | inr begun ↦ elim (Bool-cases (is_none c.async_op)) [
      | inr asked ↦ absurd (ground arith)
      | inl free ↦
          subst (IsConsistent (tt ∷ given) wins)
            (some-injective _ d (rw (begun, free, inject_timetable_async) at e))
            (elim (Bool-cases (is_working c.status)) [
              | inr stops ↦ rw stops (record {
                calling_at = λ i k. absurd (let (w, rest) = p.calling_at i k in ground arith);
                leaving_at = p.leaving_at;
                returned_at = p.returned_at;
                running = p.running;
                supplied = inr (inl refl);
                pending = λ h. absurd (ground arith);
              })
              | inl goes ↦ rw goes (record {
                calling_at = p.calling_at;
                leaving_at = p.leaving_at;
                returned_at = p.returned_at;
                running = p.running;
                supplied = elim p.supplied [ inl n ↦ inl n | inr k ↦ inr (inr k) ];
                pending = λ h. inl refl;
              })
            ])
    ]
  ]

  commit-IsConsistent :
      (given : List (Option T)) (wins : ℕ) (c : Chain T) (tt : Option T)
      → IsConsistent given wins c
      → IsConsistent given wins (commit_intermediate_timetable tt c)
  unfolding commit_intermediate_timetable creates
  commit-IsConsistent given wins c tt p = record {
    calling_at = p.calling_at;
    leaving_at = p.leaving_at;
    returned_at = p.returned_at;
    running = p.running;
    supplied = p.supplied;
    pending = p.pending;
  }

  leave-IsConsistent :
      (given : List (Option T)) (wins : ℕ) (c : Chain T)
      → IsConsistent given wins c
      → c.phase ≡ leaving
      → IsConsistent given wins (leave c)
  unfolding leave creates
  leave-IsConsistent given wins c p at = record {
    calling_at = λ i e. cc;
    leaving_at = λ e. cc;
    returned_at = λ e. inr (refl, (p.leaving_at at).1);
    running = λ e. cc;
    supplied = p.supplied;
    pending = p.pending;
  }

  -- What the worker does when it looks at the requests.
  check_async-IsConsistent :
      (given : List (Option T)) (succeeded : Bool) (i : ℕ) (op : AsyncOperationType) (c : Chain T)
      → i < c.algorithms
      → c.status ≡ working
      → (op ≡ no_op → c.next ≡ c.actual_tt)
      → (c.actual_tt ≡ none) ⊎ Elem c.actual_tt given
      → (op ≡ inject_tt → Elem c.injected_tt given)
      → (op ≡ c.async_op)
      → IsConsistent given (if succeeded then i + 1 else i) (check_async succeeded i op c)
  unfolding creates
  check_async-IsConsistent given succeeded i interrupt c lt w same s q at = record {
    calling_at = λ j e. cc;
    leaving_at = λ e. cc;
    returned_at = λ e. inl refl;
    running = λ e. cc;
    supplied = s;
    pending = λ e. cc;
  }
  check_async-IsConsistent given true i inject_tt c lt w same s q at =
      enter_round-IsConsistent given (i + 1) (with_injected c) (omega (arith, lt)) refl (λ h. refl)
        (inr (q refl)) (λ h. cc)
  check_async-IsConsistent given false i inject_tt c lt w same s q at =
      enter_round-IsConsistent given i (with_injected c) (omega (arith, lt)) refl (λ h. refl)
        (inr (q refl)) (λ h. cc)
  check_async-IsConsistent given true i no_op c lt w same s q at =
      enter_round-IsConsistent given (i + 1) (switched c) (omega (arith, lt)) w (λ h. same refl) s
        (λ h. cc)
  check_async-IsConsistent given false i no_op c lt w same s q at =
      enter_round-IsConsistent given i (switched c) (omega (arith, lt)) w (λ h. same refl) s
        (λ h. cc)

  end_round-IsConsistent :
      (given : List (Option T)) (wins : ℕ) (succeeded : Bool) (tt : Option T) (i : ℕ) (c : Chain T)
      → IsConsistent given wins c
      → c.phase ≡ calling i
      → IsConsistent
          (if succeeded then tt ∷ given else given)
          (if succeeded then wins + 1 else wins)
          (end_round i (record { succeeded = succeeded; tt = tt }) c)
  unfolding end_round creates
  end_round-IsConsistent given wins true tt i c p at =
      let (w, (lt, (same, improves))) = p.calling_at i at in
      subst
        (λ n.
          IsConsistent (tt ∷ given) (n + 1) (end_round i (record { succeeded = true; tt = tt }) c))
        (sym same)
        (check_async-IsConsistent (tt ∷ given) true i c.async_op
          (store true (record c { next = tt })) lt w (λ h. refl) (inr (inl refl))
          (λ h. inr (p.pending h)) refl)
  end_round-IsConsistent given wins false tt i c p at = elim (Bool-cases (is_none c.async_op)) [
    | inl unasked ↦
        rw (unasked, end_round)
          (record {
            calling_at = λ j e. cc;
            leaving_at = λ e. cc;
            returned_at = λ e. inl refl;
            running = λ e. cc;
            supplied = p.supplied;
            pending = λ e. cc;
          })
    | inr asked ↦
        let (w, (lt, (same, improves))) = p.calling_at i at in
        subst (λ n. IsConsistent given n (end_round i (record { succeeded = false; tt = tt }) c))
          (sym same)
          (rw (asked, end_round)
            (check_async-IsConsistent given false i c.async_op
              (store false (record c { next = tt })) lt w (λ h. absurd (ground arith)) p.supplied
              p.pending refl))
  ]

  -- Whatever the requests, their moments and the answers of the algorithms: a running algorithm is in
  -- turn, and if it has a timetable to improve, that is the actual one; the worker only ends the loop,
  -- and sets the status FINISHED, when as many rounds succeeded as there are algorithms, and otherwise
  -- returns with INTERRUPTED; and the actual timetable is null, or was left by a successful round or
  -- injected.
  pub Reached-IsConsistent :
      (number : ℕ) (given : List (Option T)) (wins : ℕ) (c : Chain T)
      → Reached number given wins c
      → IsConsistent given wins c
  Reached-IsConsistent number given wins c (starts d e) = start-IsConsistent number c e
  Reached-IsConsistent number given wins c (interrupts g w b d r e) =
      interrupt_async-IsConsistent given wins b c (Reached-IsConsistent number given wins b r) e
  Reached-IsConsistent number given wins c (injects g w b d tt r e) =
      inject-IsConsistent g wins b c tt (Reached-IsConsistent number g wins b r) e
  Reached-IsConsistent number given wins c (commits g w b tt r) =
      commit-IsConsistent given wins b tt (Reached-IsConsistent number given wins b r)
  Reached-IsConsistent number given wins c (succeeds g w b i tt r at) =
      end_round-IsConsistent g w true tt i b (Reached-IsConsistent number g w b r) at
  Reached-IsConsistent number given wins c (fails g w b i tt r at) =
      end_round-IsConsistent given wins false tt i b (Reached-IsConsistent number given wins b r) at
  Reached-IsConsistent number given wins c (leaves g w b r at) =
      leave-IsConsistent given wins b (Reached-IsConsistent number given wins b r) at
