-- ===== src/Auxl/MyQueue/Fifo.antt =====
-- What src/sched-lib/auxl/my_queue.h promises: a queue of at most `size()` entries, oldest first.
use swm_sched.Prelude.{
  ℕ, zero, suc, ◌+◌, ◌-◌, ◌%◌, ◌^◌, ◌≤◌, ◌<◌, ◌≡◌, ◌≢◌, refl, ap, sym, ◌∙◌, List, [], ◌∷◌, ◌++◌,
  Option, none, some, arith, length, get_or, set, replicate, length-set, length-replicate,
  get_or-set_self, get_or-set_ne, if◌then◌else◌, ltb, inl, inr, ◌⊎◌,
}
use mathlib.Core.Path.{ap₂}
use mathlib.Core.List.{head?, append-nil, append_assoc}
use native.Mathlib.Numerals.{add-one}
use native.Mathlib.Nat.{mod-eq_of_lt, mod-add-mod, mod-lt, mod-mod}
use swm_sched.Auxl.MyQueue.{
  MyQueue, Call, pushes, pops, peeks, size, new, push, pop, attempt, run, add_size,
}

-- A position and a later one less than a turn away are different slots.
mod-ne : (p i n k : ℕ) → i < n → n < k → p < k → (p + i) % k ≢ (p + n) % k
mod-ne p i n k h g b = grind arith

pub record IsValid {ℓ} {T : Type ℓ} (q : MyQueue T) : Type 0 where
  pub pos_in_range : q.queue_pos < length q.queue
  pub count_in_range : q.queue_size ≤ length q.queue
  pub addressable : length q.queue ≤ 2 ^ 63

module _ {T : Type 0} (blank : T) where
  -- `n` entries of the ring from a position on.
  pub slots : List T → ℕ → ℕ → List T
  slots st pos zero = []
  slots st pos (suc n) = get_or st (pos % length st) blank ∷ slots st (pos + 1) n

  -- The entries in the order in which they will leave.
  pub to_list : MyQueue T → List T
  to_list q = slots q.queue q.queue_pos q.queue_size

  slots-set :
      (st : List T) (v : T) (k pos n : ℕ)
      → ((i : ℕ) → i < n → (pos + i) % length st ≢ k)
      → slots (set st k v) pos n ≡ slots st pos n
  unfolding slots
  slots-set st v k pos zero h = refl
  slots-set st v k pos (suc n) h =
      let away : k ≢ pos % length st =
        λ e. h 0 (omega arith) (ap (λ x. x % length st) (omega arith) ∙ sym e) in
      let rest : (i : ℕ) → i < n → (pos + 1 + i) % length st ≢ k =
        λ i l e. h (suc i) (omega arith) (ap (λ x. x % length st) (omega arith) ∙ e) in
      rw (length-set st k v) (
        ap₂ ◌∷◌ (get_or-set_ne st k (pos % length st) v blank away)
          (slots-set st v k (pos + 1) n rest))

  slots-snoc :
      (st : List T) (pos n : ℕ)
      → slots st pos (suc n) ≡ slots st pos n ++ get_or st ((pos + n) % length st) blank ∷ []
  unfolding slots
  slots-snoc st pos zero = ap (λ x. get_or st (x % length st) blank ∷ []) (omega arith)
  slots-snoc st pos (suc n) = ap (◌∷◌ (get_or st (pos % length st) blank)) (
      slots-snoc st (pos + 1) n
      ∙ ap (λ x. slots st (pos + 1) n ++ get_or st (x % length st) blank ∷ []) (omega arith))

  slots-wrap : (st : List T) (pos n : ℕ) → slots st (pos % length st) n ≡ slots st pos n
  unfolding slots
  slots-wrap st pos zero = refl
  slots-wrap st pos (suc n) = ap₂ ◌∷◌ (ap (λ x. get_or st x blank) (mod-mod pos (length st))) (
      sym (slots-wrap st (pos % length st + 1) n)
      ∙ ap (λ x. slots st x n) (mod-add-mod pos (length st) 1)
      ∙ slots-wrap st (pos + 1) n)

  length-slots : (st : List T) (pos n : ℕ) → length (slots st pos n) ≡ n
  unfolding slots
  length-slots st pos zero = refl
  length-slots st pos (suc n) = ap suc (length-slots st (pos + 1) n)

  add_size-pos :
      (q : MyQueue T) (n : ℕ)
      → IsValid q
      → n ≤ length q.queue
      → add_size q.queue_pos n ≡ q.queue_pos + n
  add_size-pos q n v h = mod-eq_of_lt (omega arith)

  -- The slot that a push writes.
  abbrev free_slot : MyQueue T → ℕ
  free_slot q = add_size q.queue_pos q.queue_size % length q.queue

  slots-push :
      (value : T) (q : MyQueue T)
      → IsValid q
      → q.queue_size < length q.queue
      → slots (set q.queue (free_slot q) value) q.queue_pos (q.queue_size + 1)
        ≡ to_list q ++ value ∷ []
  unfolding to_list
  slots-push value q v h =
      let st = q.queue in
      let n = q.queue_size in
      let slot : free_slot q ≡ (q.queue_pos + n) % length st =
        ap (λ x. x % length st) (add_size-pos q n v v.count_in_range) in
      rw
        (
          add-one n,
          slots-snoc (set st (free_slot q) value) q.queue_pos n,
          length-set st (free_slot q) value,
        )
        (ap₂ (λ xs x. xs ++ x ∷ [])
          (slots-set st value (free_slot q) q.queue_pos n
            (λ i l e. mod-ne q.queue_pos i n (length st) l h v.pos_in_range (e ∙ slot)))
          (ap (λ k. get_or (set st (free_slot q) value) k blank) (sym slot)
            ∙ get_or-set_self st (free_slot q) value blank (mod-lt _ (omega arith))))

  pub push-IsValid :
      (value : T) (q q' : MyQueue T) → IsValid q → push blank value q ≡ some q' → IsValid q'
  unfolding push
  push-IsValid value q q' v e = ground (arith, length-set q.queue (free_slot q) value)

  -- A push that goes through adds its value at the end.
  pub push-to_list :
      (value : T) (q q' : MyQueue T)
      → IsValid q
      → push blank value q ≡ some q'
      → to_list q' ≡ to_list q ++ value ∷ []
  unfolding push to_list
  push-to_list value q q' v e = ground (arith, slots-push value q v)

  pub pop-IsValid : (x : T) (q q' : MyQueue T) → IsValid q → pop blank q ≡ some (x, q') → IsValid q'
  unfolding pop
  pop-IsValid x q q' v e = ground (arith, mod-lt (add_size q.queue_pos 1) {m = length q.queue})

  slots-cons :
      (st : List T) (pos n : ℕ)
      → 0 < n
      → slots st pos n ≡ get_or st (pos % length st) blank ∷ slots st (pos + 1) (n - 1)
  unfolding slots
  slots-cons st pos zero h = elim h [ ]
  slots-cons st pos (suc n) h =
      ap (λ k. get_or st (pos % length st) blank ∷ slots st (pos + 1) k) (omega arith)

  slots-pop :
      (q : MyQueue T)
      → IsValid q
      → 0 < q.queue_size
      → to_list q
        ≡ get_or q.queue q.queue_pos blank
          ∷ slots q.queue (add_size q.queue_pos 1 % length q.queue) (q.queue_size - 1)
  unfolding to_list
  slots-pop q v h =
      slots-cons q.queue q.queue_pos q.queue_size h
      ∙ ap₂ (λ k xs. get_or q.queue k blank ∷ xs) (mod-eq_of_lt v.pos_in_range)
          (sym (slots-wrap q.queue (q.queue_pos + 1) (q.queue_size - 1))
            ∙ ap (λ k. slots q.queue (k % length q.queue) (q.queue_size - 1))
                (sym (add_size-pos q 1 v (omega arith))))

  -- A pop that goes through takes the first entry off.
  pub pop-to_list :
      (x : T) (q q' : MyQueue T)
      → IsValid q
      → pop blank q ≡ some (x, q')
      → to_list q ≡ x ∷ to_list q'
  unfolding pop to_list
  pop-to_list x q q' v e = ground (arith, slots-pop q v)

  -- The promise: a list of at most `cap` values, the oldest first.
  pub serve : ℕ → Call T → List T → Option T × List T
  serve cap (pushes v) xs = if ltb (length xs) cap then (some v, xs ++ v ∷ []) else (none, xs)
  serve cap pops [] = (none, [])
  serve cap pops (x ∷ xs) = (some x, xs)
  serve cap peeks xs = (head? xs, xs)

  pub serve_all : ℕ → List (Call T) → List T → List (Option T) × List T
  unfolding serve
  serve_all cap [] xs = ([], xs)
  serve_all cap (c ∷ cs) xs =
      let (r, ys) = serve cap c xs in let (rs, last) = serve_all cap cs ys in (r ∷ rs, last)

  attempt-IsValid : (c : Call T) (q : MyQueue T) → IsValid q → IsValid (attempt blank c q).1
  unfolding attempt
  attempt-IsValid (pushes x) q v = ground (arith, length-set q.queue (free_slot q) x)
  attempt-IsValid pops q v = ground (arith, mod-lt (add_size q.queue_pos 1) {m = length q.queue})
  attempt-IsValid peeks q v = v

  size-attempt : (c : Call T) (q : MyQueue T) → size blank (attempt blank c q).1 ≡ size blank q
  unfolding attempt
  size-attempt (pushes x) q = ground (arith, length-set q.queue (free_slot q) x)
  size-attempt pops q = ground arith
  size-attempt peeks q = refl

  pub length-to_list : (q : MyQueue T) → length (to_list q) ≡ q.queue_size
  unfolding to_list
  length-to_list q = length-slots q.queue q.queue_pos q.queue_size

  attempt-refines :
      (c : Call T) (q : MyQueue T)
      → IsValid q
      → ((attempt blank c q).0, to_list (attempt blank c q).1) ≡ serve (size blank q) c (to_list q)
  unfolding attempt serve to_list
  attempt-refines (pushes x) q v =
      ground (arith, slots-push x q v, length-slots q.queue q.queue_pos q.queue_size)
  attempt-refines pops q v =
      ground (arith, slots-pop q v, length-slots q.queue q.queue_pos q.queue_size)
  attempt-refines peeks q v = ground (
    arith,
    slots-pop q v,
    length-slots q.queue q.queue_pos q.queue_size,
    mod-eq_of_lt v.pos_in_range,
  )

  run-eq-serve_all :
      (cs : List (Call T)) (q : MyQueue T)
      → IsValid q
      → ((run blank cs q).0, to_list (run blank cs q).1) ≡ serve_all (size blank q) cs (to_list q)
  unfolding run serve_all
  run-eq-serve_all [] q v = refl
  run-eq-serve_all (c ∷ cs) q v = ground (
    arith,
    attempt-refines c q v,
    size-attempt c q,
    run-eq-serve_all cs (attempt blank c q).1 (attempt-IsValid c q v),
  )

  -- From a valid queue, calls that the threads interleave in any order get the answers of a list
  -- of at most `size()` values, and leave the queue with the list's final entries.
  pub run-refines :
      (cs : List (Call T)) (q : MyQueue T)
      → IsValid q
      → ((run blank cs q).0 ≡ (serve_all (size blank q) cs (to_list q)).0)
        × (to_list (run blank cs q).1 ≡ (serve_all (size blank q) cs (to_list q)).1)
  run-refines cs q v =
      (ap (λ p. p.0) (run-eq-serve_all cs q v), ap (λ p. p.1) (run-eq-serve_all cs q v))

  -- For a size of at most 2 ^ 63, the constructor throws if it is 0, and otherwise gives a valid queue
  -- of that size, empty.
  pub new-IsValid :
      (n : ℕ)
      → n ≤ 2 ^ 63
      → (n ≡ 0) × (new blank n ≡ none)
        ⊎ ((q : MyQueue T) × (new blank n ≡ some q)
            × IsValid q
            × (size blank q ≡ n)
            × (to_list q ≡ []))
  unfolding new to_list slots
  new-IsValid zero h = inl (refl, refl)
  new-IsValid (suc n) h = inr (
    record { queue = replicate (suc n) blank; queue_size = 0; queue_pos = 0 },
    ground arith,
    ground (arith, length-replicate (suc n) blank),
    ap suc (length-replicate n blank),
    refl,
  )

  pub taken : List (Call T) → List (Option T) → List T
  taken (pops ∷ cs) (some x ∷ rs) = x ∷ taken cs rs
  taken (c ∷ cs) (r ∷ rs) = taken cs rs
  taken _ _ = []

  pub accepted : List (Call T) → List (Option T) → List T
  accepted (pushes v ∷ cs) (some x ∷ rs) = x ∷ accepted cs rs
  accepted (c ∷ cs) (r ∷ rs) = accepted cs rs
  accepted _ _ = []

  serve_all-conserves :
      (cap : ℕ) (cs : List (Call T)) (xs : List T)
      → taken cs (serve_all cap cs xs).0 ++ (serve_all cap cs xs).1
        ≡ xs ++ accepted cs (serve_all cap cs xs).0
  unfolding serve_all taken accepted
  serve_all-conserves cap [] xs = sym (append-nil xs)
  serve_all-conserves cap (pushes v ∷ cs) xs = ground (
    arith,
    serve_all-conserves cap cs (xs ++ v ∷ []),
    serve_all-conserves cap cs xs,
    append_assoc xs (v ∷ []) (accepted cs (serve_all cap cs (xs ++ v ∷ [])).0),
  )
  serve_all-conserves cap (pops ∷ cs) [] = serve_all-conserves cap cs []
  serve_all-conserves cap (pops ∷ cs) (x ∷ xs) = ap (◌∷◌ x) (serve_all-conserves cap cs xs)
  serve_all-conserves cap (peeks ∷ cs) xs = ground (arith, serve_all-conserves cap cs xs)

  -- From a valid queue, nothing is lost or doubled and the order is kept: the values handed out by
  -- pops, followed by what is left, are the old entries followed by the accepted values.
  pub run-conserves :
      (cs : List (Call T)) (q : MyQueue T)
      → IsValid q
      → taken cs (run blank cs q).0 ++ to_list (run blank cs q).1
        ≡ to_list q ++ accepted cs (run blank cs q).0
  run-conserves cs q v =
      rw ((run-refines cs q v).0, (run-refines cs q v).1)
        (serve_all-conserves (size blank q) cs (to_list q))
