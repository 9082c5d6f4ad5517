-- ===== src/Auxl/TimeCounter/Agreement.antt =====
-- A counter of src/sched-lib/auxl/time_counter.cpp that agrees with an account of its calls, and each
-- call of it.
use swm_sched.Prelude.{
  ℕ, ◌+◌, ◌≡◌, refl, sym, ap, ◌∙◌, Bool, true, false, [], ◌∷◌, Option, none, some, ℕ_eq, nat_eq_iff,
  if◌then◌else◌, Assoc, lookup, insert, lookup-insert, length, arith,
}
use swm_sched.Auxl.TimeCounter.{
  TimeCounter, to_seconds, working_add, is_idling, reset, turn_on, turn_off,
}
use swm_sched.Auxl.TimeCounter.Records.{
  IsUnique, running, IsUnique-insert, lookup-Fresh, is_idling_iff, on_since, running-on,
  running-off, working_add-on, working_add-off, turn_on_loop_lem, turn_off_loop_lem,
}
use swm_sched.Auxl.TimeCounter.Threads.{
  none_on_iff, length-without, unended-without, IsUnique-without, lookup-without,
}
use swm_sched.Auxl.TimeCounter.Periods.{
  Event, turns_on, turns_off, resets, apply, Account, open_account, none_on, without, enter,
  unended,
}

pub record Agrees (c : TimeCounter) (a : Account) : Type 0 where
  pub unique : IsUnique c.thread_tps
  pub alone : IsUnique a.on
  pub on : (i : ℕ) → on_since (lookup i c.thread_tps) ≡ lookup i a.on
  pub count : running c.thread_tps ≡ length a.on
  pub working : (x : ℕ) → working_add x c.thread_tps ≡ unended x a.on
  pub since : c.start_tp ≡ a.since
  pub free : c.last_working_tp ≡ a.free
  pub worked : c.working_time ≡ a.worked
  pub idled : c.idling_time ≡ a.idled

pub Agrees-idling :
    (c : TimeCounter) (a : Account) → Agrees c a → is_idling c.thread_tps ≡ none_on a.on
Agrees-idling c a h = ground (arith, is_idling_iff c.thread_tps, none_on_iff a.on, h.count)

-- Both throw, or they agree.
abbrev pub BothAgree : Option TimeCounter → Option Account → Type 0
BothAgree none none = Unit
BothAgree (some c) (some a) = Agrees c a
BothAgree none (some a) = ⊥
BothAgree (some c) none = ⊥

-- What `turn_on` and `turn_off` do, by the record of the thread.
abbrev started : ℕ → ℕ → ℕ → TimeCounter → Option (Bool × ℕ) → Option TimeCounter
started me now later c (some (true, tp)) = none
started me now later c r = some (record c {
  thread_tps = insert me (true, now) c.thread_tps;
  idling_time =
      c.idling_time + (if is_idling c.thread_tps then to_seconds later c.last_working_tp else 0);
})

abbrev stopped : ℕ → ℕ → ℕ → TimeCounter → Option (Bool × ℕ) → Option TimeCounter
stopped me now later c (some (true, tp)) =
    let records = insert me (false, tp) c.thread_tps in
    some (record c {
      thread_tps = records;
      working_time = c.working_time + to_seconds now tp;
      last_working_tp = if is_idling records then later else c.last_working_tp;
    })
stopped me now later c r = none

turn_on_lem :
    (me now later : ℕ) (c : TimeCounter)
    → IsUnique c.thread_tps
    → turn_on me now later c ≡ started me now later c (lookup me c.thread_tps)
unfolding turn_on
turn_on_lem me now later c u = ground (arith, turn_on_loop_lem me now true false c.thread_tps u)

turn_off_lem :
    (me now later : ℕ) (c : TimeCounter)
    → IsUnique c.thread_tps
    → turn_off me now later c ≡ stopped me now later c (lookup me c.thread_tps)
unfolding turn_off
turn_off_lem me now later c u =
    ground (arith, turn_off_loop_lem me now true false c.working_time c.thread_tps u)

set_on :
    (me now later : ℕ) (c : TimeCounter) (a : Account)
    → Agrees c a
    → on_since (lookup me c.thread_tps) ≡ none
    → Agrees
        (record c {
          thread_tps = insert me (true, now) c.thread_tps;
          idling_time =
              c.idling_time
              + (if is_idling c.thread_tps then to_seconds later c.last_working_tp else 0);
        })
        (record a {
          on = (me, now) ∷ a.on;
          idled = a.idled + (if none_on a.on then to_seconds later a.free else 0);
        })
unfolding unended
set_on me now later c a h off = record {
  unique = IsUnique-insert me (true, now) c.thread_tps h.unique;
  alone = (lookup-Fresh me a.on (sym (h.on me) ∙ off), h.alone);
  on = λ i. ground (arith, nat_eq_iff i me, lookup-insert i me (true, now) c.thread_tps, h.on i);
  count = omega (arith, running-on me now c.thread_tps off, h.count);
  working = λ x. omega (arith, working_add-on x me now c.thread_tps off, h.working x);
  since = h.since;
  free = h.free;
  worked = h.worked;
  idled = rw (Agrees-idling c a h, h.idled, h.free) refl;
}

set_off :
    (me now later tp : ℕ) (c : TimeCounter) (a : Account)
    → Agrees c a
    → lookup me c.thread_tps ≡ some (true, tp)
    → lookup me a.on ≡ some tp
    → Agrees
        (record c {
          thread_tps = insert me (false, tp) c.thread_tps;
          working_time = c.working_time + to_seconds now tp;
          last_working_tp =
              if is_idling (insert me (false, tp) c.thread_tps) then later else c.last_working_tp;
        })
        (record a {
          on = without me a.on;
          worked = a.worked + to_seconds now tp;
          free = if none_on (without me a.on) then later else a.free;
        })
set_off me now later tp c a h at was = record {
  unique = IsUnique-insert me (false, tp) c.thread_tps h.unique;
  alone = IsUnique-without me a.on h.alone;
  on = λ i. ground (
    arith,
    nat_eq_iff i me,
    lookup-insert i me (false, tp) c.thread_tps,
    lookup-without i me a.on h.alone,
    h.on i,
  );
  count = fewer;
  working = λ x. omega (
    arith,
    working_add-off x me tp c.thread_tps at,
    unended-without x me tp a.on was,
    h.working x,
  );
  since = h.since;
  free = ground (
    arith,
    is_idling_iff (insert me (false, tp) c.thread_tps),
    none_on_iff (without me a.on),
    fewer,
    h.free,
  );
  worked = omega (arith, h.worked);
  idled = h.idled;
}
  where
    fewer : running (insert me (false, tp) c.thread_tps) ≡ length (without me a.on)
    fewer = omega (arith, running-off me tp c.thread_tps at, length-without me tp a.on was, h.count)

turn_on-BothAgree :
    (me now later : ℕ) (c : TimeCounter) (a : Account)
    → Agrees c a
    → BothAgree (turn_on me now later c) (enter (turns_on me now later) a)
unfolding enter
turn_on-BothAgree me now later c a h =
    rw (turn_on_lem me now later c h.unique)
      (go (lookup me c.thread_tps) (lookup me a.on) refl refl)
  where
    go :
        (r : Option (Bool × ℕ)) (t : Option ℕ)
        → lookup me c.thread_tps ≡ r
        → lookup me a.on ≡ t
        → BothAgree
            (started me now later c (lookup me c.thread_tps))
            (enter (turns_on me now later) a)
    go none none at was = rw (enter, at, was) (set_on me now later c a h (ap on_since at))
    go (some (false, tp)) none at was =
        rw (enter, at, was) (set_on me now later c a h (ap on_since at))
    go (some (true, tp)) (some t) at was = rw (enter, at, was) tt
    go none (some t) at was = ground (arith, h.on me)
    go (some (false, tp)) (some t) at was = ground (arith, h.on me)
    go (some (true, tp)) none at was = ground (arith, h.on me)

turn_off-BothAgree :
    (me now later : ℕ) (c : TimeCounter) (a : Account)
    → Agrees c a
    → BothAgree (turn_off me now later c) (enter (turns_off me now later) a)
unfolding enter
turn_off-BothAgree me now later c a h =
    rw (turn_off_lem me now later c h.unique) (go (lookup me c.thread_tps) refl)
  where
    go :
        (r : Option (Bool × ℕ))
        → lookup me c.thread_tps ≡ r
        → BothAgree
            (stopped me now later c (lookup me c.thread_tps))
            (enter (turns_off me now later) a)
    go none at = rw (enter, at, sym (h.on me) ∙ ap on_since at) tt
    go (some (false, tp)) at = rw (enter, at, sym (h.on me) ∙ ap on_since at) tt
    go (some (true, tp)) at =
        let was = sym (h.on me) ∙ ap on_since at in
        rw (enter, at, was) (set_off me now later tp c a h at was)

reset-BothAgree :
    (now : ℕ) (c : TimeCounter) (a : Account)
    → Agrees c a
    → BothAgree (reset now c) (enter (resets now) a)
unfolding reset enter
reset-BothAgree now c a h = rw (Agrees-idling c a h) (go a.on refl)
  where
    go :
        (on : Assoc ℕ ℕ)
        → a.on ≡ on
        → BothAgree
            (if none_on a.on
              then some (record c {
                start_tp = now;
                last_working_tp = now;
                working_time = 0;
                idling_time = 0;
              })
              else none)
            (if none_on a.on then some (open_account now) else none)
    go (t ∷ on) at = rw at tt
    go [] at = rw at (record {
      unique = h.unique;
      alone = tt;
      on = λ i. h.on i ∙ ap (lookup i) at;
      count = h.count ∙ ap length at;
      working = λ x. h.working x ∙ ap (unended x) at;
      since = refl;
      free = refl;
      worked = refl;
      idled = refl;
    })

pub apply-BothAgree :
    (e : Event) (c : TimeCounter) (a : Account) → Agrees c a → BothAgree (apply e c) (enter e a)
unfolding apply
apply-BothAgree (turns_on me now later) c a h = turn_on-BothAgree me now later c a h
apply-BothAgree (turns_off me now later) c a h = turn_off-BothAgree me now later c a h
apply-BothAgree (resets now) c a h = reset-BothAgree now c a h
