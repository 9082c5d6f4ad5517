-- ===== src/PluginLib/Fcfs/History.antt =====
-- The runs that src/plugin-lib/fcfs_implementation.cpp has planned, in the order of its result: those
-- that are settled, then those of the gang that is still open.
use swm_sched.Prelude.{
  ℕ, suc, ◌+◌, ◌≤◌, ◌≡◌, ◌≢◌, refl, sym, ap, ◌∙◌, inl, inr, ℕ_eq, List, [], ◌∷◌, ◌++◌, map, arith,
  length, Bool, String, All, find_if, some, String_eq, ◌==◌, get_or, set, take, Elem, Elem-append,
  subst,
}
use swm_sched.PluginLib.Entities.{EiBuffer, SwmJob, SwmResource, SwmTimetable}
use swm_sched.PluginLib.Fcfs.Selection.{NodeRef, node_id}
use swm_sched.PluginLib.Fcfs.Schedule.{JobRef}
use swm_sched.PluginLib.Fcfs.Choice.{IsSuitable}

pub record Run : Type 0 where
  pub job : SwmJob
  pub start : ℕ
  pub nodes : List NodeRef

abbrev pub finish : Run → ℕ
finish r = r.start + r.job.duration

abbrev pub tt_of : Run → SwmTimetable
tt_of r = record { job_id = r.job.id; start_time = r.start; job_nodes = map node_id r.nodes }

-- It has as many nodes as the first resource called "node" of its job's request counts, and each
-- suits the job.
abbrev pub Served : (EiBuffer → Bool × String) → Run → Type 0
Served ei_buffer_to_str r =
    (res : SwmResource) × (find_if (λ res. res.name == "node") r.job.request ≡ some res)
    × (res.count ≡ length r.nodes)
    × All (IsSuitable ei_buffer_to_str r.job []) r.nodes

-- If the runs share a node, the first has ended when the second starts.
abbrev pub Before : Run → Run → Type 0
Before r s =
    (x y : NodeRef) → Elem x r.nodes → Elem y s.nodes → node_id x ≡ node_id y → finish r ≤ s.start

abbrev pub Disjoint : Run → Run → Type 0
Disjoint r s = (x y : NodeRef) → Elem x r.nodes → Elem y s.nodes → node_id x ≢ node_id y

abbrev pub Ordered : List Run → Type 0
Ordered [] = Unit
Ordered (r ∷ rs) = ((s : Run) → Elem s rs → Before r s) × Ordered rs

abbrev pub Apart : List Run → Type 0
Apart [] = Unit
Apart (r ∷ rs) = ((s : Run) → Elem s rs → Disjoint r s) × Apart rs

pub Ordered-append :
    (rs ss : List Run)
    → Ordered rs
    → Ordered ss
    → ((r s : Run) → Elem r rs → Elem s ss → Before r s)
    → Ordered (rs ++ ss)
Ordered-append [] ss o p c = p
Ordered-append (r ∷ rs) ss o p c = (
  λ s m. elim (Elem-append s rs ss m) [
    | inl left ↦ o.0 s left
    | inr right ↦ c r s (inl refl) right
  ],
  Ordered-append rs ss o.1 p (λ x s mx ms. c x s (inr mx) ms),
)

pub Apart-Ordered : (rs : List Run) → Apart rs → Ordered rs
Apart-Ordered [] a = tt
Apart-Ordered (r ∷ rs) a = (λ s m x y mx my e. absurd (a.0 s m x y mx my e), Apart-Ordered rs a.1)

pub Apart-snoc :
    (rs : List Run) (s : Run)
    → Apart rs
    → ((r : Run) → Elem r rs → Disjoint r s)
    → Apart (rs ++ s ∷ [])
Apart-snoc [] s a d = (λ x m. absurd m, tt)
Apart-snoc (r ∷ rs) s a d = (
  λ x m. elim (Elem-append x rs (s ∷ []) m) [
    | inl left ↦ a.0 x left
    | inr (inl e) ↦ subst (Disjoint r) (sym e) (d r (inl refl))
    | inr (inr none_left) ↦ absurd none_left
  ],
  Apart-snoc rs s a.1 (λ x m. d x (inr m)),
)

-- Runs of an open gang that share a node are one run.
pub Apart-same :
    (rs : List Run) (r s : Run) (x y : NodeRef)
    → Apart rs
    → Elem r rs
    → Elem s rs
    → Elem x r.nodes
    → Elem y s.nodes
    → node_id x ≡ node_id y
    → r ≡ s
Apart-same [] r s x y a mr ms mx my e = absurd mr
Apart-same (q ∷ rs) r s x y a (inl er) (inl es) mx my e = er ∙ sym es
Apart-same (q ∷ rs) r s x y a (inl er) (inr ms) mx my e =
    absurd (a.0 s ms x y (subst (λ (k : Run). Elem x k.nodes) er mx) my e)
Apart-same (q ∷ rs) r s x y a (inr mr) (inl es) mx my e =
    absurd (a.0 r mr y x (subst (λ (k : Run). Elem y k.nodes) es my) mx (sym e))
Apart-same (q ∷ rs) r s x y a (inr mr) (inr ms) mx my e = Apart-same rs r s x y a.1 mr ms mx my e

-- The alignment of a gang.
abbrev pub at_start : ℕ → Run → Run
at_start t r = record r { start = t }

abbrev pub aligned : ℕ → List Run → List Run
aligned t = map (at_start t)

pub Elem-aligned :
    (t : ℕ) (s : Run) (rs : List Run)
    → Elem s (aligned t rs)
    → (r : Run) × Elem r rs × (s ≡ at_start t r)
Elem-aligned t s [] m = absurd m
Elem-aligned t s (r ∷ rs) (inl e) = (r, inl refl, e)
Elem-aligned t s (r ∷ rs) (inr m) = let (q, mq, e) = Elem-aligned t s rs m in (q, inr mq, e)

pub Apart-aligned : (t : ℕ) (rs : List Run) → Apart rs → Apart (aligned t rs)
Apart-aligned t [] a = tt
Apart-aligned t (r ∷ rs) a = (
  λ s m x y mx my e.
      let (q, mq, eq) = Elem-aligned t s rs m in
      a.0 q mq x y mx (subst (λ (k : Run). Elem y k.nodes) eq my) e,
  Apart-aligned t rs a.1,
)

-- The `JobRef`s of a gang whose first timetable has the index `n`.
abbrev pub refs : ℕ → List Run → List JobRef
refs n [] = []
refs n (r ∷ rs) = record { tt = n; job = r.job; nodes = r.nodes } ∷ refs (suc n) rs

pub refs-snoc :
    (n : ℕ) (rs : List Run) (r : Run)
    → refs n (rs ++ r ∷ [])
      ≡ refs n rs ++ record { tt = n + length rs; job = r.job; nodes = r.nodes } ∷ []
refs-snoc n [] r = ap (λ k. record { tt = k; job = r.job; nodes = r.nodes } ∷ []) (omega arith)
refs-snoc n (q ∷ rs) r = ap (◌∷◌ (record { tt = n; job = q.job; nodes = q.nodes })) (
    refs-snoc (suc n) rs r
    ∙ ap (λ k. refs (suc n) rs ++ record { tt = k; job = r.job; nodes = r.nodes } ∷ [])
        (omega arith))

module _ {ℓ} {A : Type ℓ} where
  pub set-append :
      (xs : List A) (y v : A) (ys : List A) → set (xs ++ y ∷ ys) (length xs) v ≡ xs ++ v ∷ ys
  set-append [] y v ys = refl
  set-append (x ∷ xs) y v ys = ap (◌∷◌ x) (set-append xs y v ys)

  pub get_or-append :
      (xs : List A) (y d : A) (ys : List A) → get_or (xs ++ y ∷ ys) (length xs) d ≡ y
  get_or-append [] y d ys = refl
  get_or-append (x ∷ xs) y d ys = get_or-append xs y d ys

  pub take-append : (xs ys : List A) → take (length xs) (xs ++ ys) ≡ xs
  take-append [] ys = refl
  take-append (x ∷ xs) ys = ap (◌∷◌ x) (take-append xs ys)
