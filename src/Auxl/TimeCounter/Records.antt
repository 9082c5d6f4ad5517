-- ===== src/Auxl/TimeCounter/Records.antt =====
-- The records of the threads in src/sched-lib/auxl/time_counter.cpp: one for each thread, and what the
-- loops over them find and write.
use swm_sched.Prelude.{
  ℕ, suc, ◌+◌, ◌≡◌, ◌≢◌, refl, Bool, true, false, not, ◌&&◌, ◌||◌, [], ◌∷◌, Option, none, some,
  ℕ_eq, nat_eq_iff, ◌==◌, Assoc, lookup, insert, arith,
}
use swm_sched.Auxl.TimeCounter.{
  to_seconds, working_add, is_idling, turn_on_loop, turn_off_loop, OffLoop,
}

module _ {ℓ} {V : Type ℓ} where
  abbrev pub Fresh : ℕ → Assoc ℕ V → Type 0
  Fresh me [] = Unit
  Fresh me ((id, v) ∷ rest) = (me ≢ id) × Fresh me rest

  -- No thread has two records.
  abbrev pub IsUnique : Assoc ℕ V → Type 0
  IsUnique [] = Unit
  IsUnique ((id, v) ∷ rest) = Fresh id rest × IsUnique rest

  Fresh-insert : (i me : ℕ) (v : V) (r : Assoc ℕ V) → i ≢ me → Fresh i r → Fresh i (insert me v r)
  Fresh-insert i me v [] n f = (n, tt)
  Fresh-insert i me v ((id, w) ∷ rest) n f = ground (arith, Fresh-insert i me v rest n f.1)

  pub IsUnique-insert : (me : ℕ) (v : V) (r : Assoc ℕ V) → IsUnique r → IsUnique (insert me v r)
  IsUnique-insert me v [] u = (tt, tt)
  IsUnique-insert me v ((id, w) ∷ rest) u =
      ground (arith, Fresh-insert id me v rest, IsUnique-insert me v rest u.1)

  pub lookup-Fresh : (me : ℕ) (r : Assoc ℕ V) → lookup me r ≡ none → Fresh me r
  lookup-Fresh me [] n = tt
  lookup-Fresh me ((id, v) ∷ rest) n = ground (arith, nat_eq_iff me id, lookup-Fresh me rest)

  pub Fresh-lookup : (me : ℕ) (r : Assoc ℕ V) → Fresh me r → lookup me r ≡ none
  Fresh-lookup me [] f = refl
  Fresh-lookup me ((id, v) ∷ rest) f = ground (arith, nat_eq_iff me id, Fresh-lookup me rest f.1)

-- The threads that are on.
unfoldable pub running : Assoc ℕ (Bool × ℕ) → ℕ
running [] = 0
running ((id, (true, tp)) ∷ rest) = suc (running rest)
running ((id, (false, tp)) ∷ rest) = running rest

pub is_idling_iff : (r : Assoc ℕ (Bool × ℕ)) → is_idling r ≡ (0 == running r)
unfolding is_idling running
is_idling_iff [] = refl
is_idling_iff ((id, (true, tp)) ∷ rest) = ground arith
is_idling_iff ((id, (false, tp)) ∷ rest) = ground (arith, is_idling_iff rest)

-- When the thread of the record that was found was turned on.
abbrev pub on_since : Option (Bool × ℕ) → Option ℕ
on_since none = none
on_since (some (false, tp)) = none
on_since (some (true, tp)) = some tp

-- A thread that was off is on.
pub running-on :
    (me now : ℕ) (r : Assoc ℕ (Bool × ℕ))
    → on_since (lookup me r) ≡ none
    → running (insert me (true, now) r) ≡ suc (running r)
unfolding running
running-on me now [] n = ground arith
running-on me now ((id, (true, tp)) ∷ rest) n = ground (arith, running-on me now rest)
running-on me now ((id, (false, tp)) ∷ rest) n = ground (arith, running-on me now rest)

pub working_add-on :
    (x me now : ℕ) (r : Assoc ℕ (Bool × ℕ))
    → on_since (lookup me r) ≡ none
    → working_add x (insert me (true, now) r) ≡ to_seconds x now + working_add x r
unfolding working_add
working_add-on x me now [] n = ground arith
working_add-on x me now ((id, (true, tp)) ∷ rest) n = ground (arith, working_add-on x me now rest)
working_add-on x me now ((id, (false, tp)) ∷ rest) n = ground (arith, working_add-on x me now rest)

-- A thread that was on is off.
pub running-off :
    (me tp' : ℕ) (r : Assoc ℕ (Bool × ℕ))
    → lookup me r ≡ some (true, tp')
    → running r ≡ suc (running (insert me (false, tp') r))
unfolding running
running-off me tp' [] n = ground arith
running-off me tp' ((id, (true, tp)) ∷ rest) n = ground (arith, running-off me tp' rest)
running-off me tp' ((id, (false, tp)) ∷ rest) n = ground (arith, running-off me tp' rest)

pub working_add-off :
    (x me tp' : ℕ) (r : Assoc ℕ (Bool × ℕ))
    → lookup me r ≡ some (true, tp')
    → working_add x r ≡ to_seconds x tp' + working_add x (insert me (false, tp') r)
unfolding working_add
working_add-off x me tp' [] n = ground arith
working_add-off x me tp' ((id, (true, tp)) ∷ rest) n = ground (arith, working_add-off x me tp' rest)
working_add-off x me tp' ((id, (false, tp)) ∷ rest) n =
    ground (arith, working_add-off x me tp' rest)

-- What a loop does when the thread has no record behind.
turn_on_loop-Fresh :
    (me now : ℕ) (first found : Bool) (r : Assoc ℕ (Bool × ℕ))
    → Fresh me r
    → turn_on_loop me now first found r ≡ some (first && is_idling r, found, r)
unfolding turn_on_loop is_idling
turn_on_loop-Fresh me now first found [] f = ground arith
turn_on_loop-Fresh me now first found ((id, (on, tp)) ∷ rest) f =
    ground (arith, turn_on_loop-Fresh me now (first && not on) (found || (me == id)) rest f.1)

abbrev pub after_on :
    ℕ
    → ℕ
    → Bool
    → Bool
    → Assoc ℕ (Bool × ℕ)
    → Option (Bool × ℕ)
    → Option (Bool × Bool × Assoc ℕ (Bool × ℕ))
after_on me now first found r none = some (first && is_idling r, found, r)
after_on me now first found r (some (true, tp)) = none
after_on me now first found r (some (false, tp)) =
    some (first && is_idling r, true, insert me (true, now) r)

pub turn_on_loop_lem :
    (me now : ℕ) (first found : Bool) (r : Assoc ℕ (Bool × ℕ))
    → IsUnique r
    → turn_on_loop me now first found r ≡ after_on me now first found r (lookup me r)
unfolding turn_on_loop is_idling
turn_on_loop_lem me now first found [] u = ground arith
turn_on_loop_lem me now first found ((id, (on, tp)) ∷ rest) u = ground (
  arith,
  nat_eq_iff me id,
  turn_on_loop-Fresh me now (first && not on) (found || (me == id)) rest,
  turn_on_loop_lem me now (first && not on) (found || (me == id)) rest u.1,
)

turn_off_loop-Fresh :
    (me now : ℕ) (last found : Bool) (w : ℕ) (r : Assoc ℕ (Bool × ℕ))
    → Fresh me r
    → turn_off_loop me now last found w r
      ≡ some (record {
        i_am_the_last = last && is_idling r;
        found_my_record = found;
        working = w;
        records = r;
      })
unfolding turn_off_loop is_idling
turn_off_loop-Fresh me now last found w [] f = ground arith
turn_off_loop-Fresh me now last found w ((id, (true, tp)) ∷ rest) f =
    ground (arith, turn_off_loop-Fresh me now false found w rest f.1)
turn_off_loop-Fresh me now last found w ((id, (false, tp)) ∷ rest) f =
    ground (arith, turn_off_loop-Fresh me now last found w rest f.1)

abbrev pub after_off :
    ℕ → ℕ → Bool → Bool → ℕ → Assoc ℕ (Bool × ℕ) → Option (Bool × ℕ) → Option OffLoop
after_off me now last found w r none = some (record {
  i_am_the_last = last && is_idling r;
  found_my_record = found;
  working = w;
  records = r;
})
after_off me now last found w r (some (false, tp)) = none
after_off me now last found w r (some (true, tp)) = some (record {
  i_am_the_last = last && is_idling (insert me (false, tp) r);
  found_my_record = true;
  working = w + to_seconds now tp;
  records = insert me (false, tp) r;
})

pub turn_off_loop_lem :
    (me now : ℕ) (last found : Bool) (w : ℕ) (r : Assoc ℕ (Bool × ℕ))
    → IsUnique r
    → turn_off_loop me now last found w r ≡ after_off me now last found w r (lookup me r)
unfolding turn_off_loop is_idling
turn_off_loop_lem me now last found w [] u = ground arith
turn_off_loop_lem me now last found w ((id, (true, tp)) ∷ rest) u = ground (
  arith,
  nat_eq_iff me id,
  turn_off_loop-Fresh me now last true (w + to_seconds now tp) rest,
  turn_off_loop_lem me now false found w rest u.1,
)
turn_off_loop_lem me now last found w ((id, (false, tp)) ∷ rest) u =
    ground (arith, nat_eq_iff me id, turn_off_loop_lem me now last found w rest u.1)
