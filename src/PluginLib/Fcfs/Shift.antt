-- ===== src/PluginLib/Fcfs/Shift.antt =====
-- The first loop of `align_jobs` in src/plugin-lib/fcfs_implementation.cpp on the runs of a gang.
use mathlib.Core.List.{append_assoc}
use native.Mathlib.Nat.{mod-eq_of_lt}
use swm_sched.Prelude.{
  ℕ, suc, ◌+◌, ◌^◌, ◌≤◌, ◌<◌, ◌≡◌, ◌≢◌, refl, sym, ◌∙◌, ◌⊎◌, inl, inr, String, String_eq, ℕ_eq,
  true, false, List, [], ◌∷◌, ◌++◌, map, some, arith, ◌==◌, length, contains, Elem, Bool-cases,
  lookup, lookup-insert, add64, subst, length-append,
}
use swm_sched.PluginLib.Entities.{SwmTimetable}
use swm_sched.PluginLib.Fcfs.Selection.{NodeRef}
use swm_sched.PluginLib.Fcfs.Schedule.{
  Loop, JobRef, blank_timetable, set_start_time, shift_job, shift_jobs,
}
use swm_sched.PluginLib.Fcfs.Placing.{set_when_free-at}
use swm_sched.PluginLib.Fcfs.History.{
  Run, tt_of, at_start, aligned, refs, set-append, get_or-append,
}

pub touched :
    (r : ℕ) (nrs : List NodeRef)
    → contains r (map (λ nr. nr.ref) nrs) ≡ true
    → (x : NodeRef) × Elem x nrs × (x.ref ≡ r)
touched r [] h = cc
touched r (nr ∷ nrs) h = elim (Bool-cases (r == nr.ref)) [
  | inl e ↦ (nr, inl refl, ground arith)
  | inr ne ↦ let (x, m, e) = touched r nrs (ground arith) in (x, inr m, e)
]

pub untouched :
    (r : ℕ) (nrs : List NodeRef)
    → contains r (map (λ nr. nr.ref) nrs) ≡ false
    → (x : NodeRef) → Elem x nrs
    → x.ref ≢ r
untouched r [] h x m = absurd m
untouched r (nr ∷ nrs) h x (inl e) = λ p. ground arith
untouched r (nr ∷ nrs) h x (inr m) = untouched r nrs (ground arith) x m

module _ (start_time : ℕ) where
  abbrev ref_of : ℕ → Run → JobRef
  ref_of n g = record { tt = n; job = g.job; nodes = g.nodes }

  -- One round, at a reference.
  shift_job-when_free :
      (n : ℕ) (g : Run) (l : Loop) (r : ℕ)
      → start_time + g.job.duration < 2 ^ 64
      → (((shift_job start_time (ref_of n g) l).fcfs.when_free r ≡ l.fcfs.when_free r)
          × ((x : NodeRef) → Elem x g.nodes → x.ref ≢ r))
        ⊎ ((x : NodeRef) × Elem x g.nodes
            × (x.ref ≡ r)
            × ((shift_job start_time (ref_of n g) l).fcfs.when_free r
                ≡ start_time + g.job.duration))
  shift_job-when_free n g l r fits = elim (Bool-cases (contains r (map (λ nr. nr.ref) g.nodes))) [
    | inl hit ↦
        let (x, m, e) = touched r g.nodes hit in
        inr (x, m, e, set_when_free-at _ g.nodes l.fcfs.when_free r ∙ rw hit (mod-eq_of_lt fits))
    | inr miss ↦
        inl (set_when_free-at _ g.nodes l.fcfs.when_free r ∙ rw miss refl, untouched r g.nodes miss)
  ]

  -- A reference after the loop: at the end of a run of the gang that uses it, or as before.
  pub shift_jobs-when_free :
      (n : ℕ) (gang : List Run) (l : Loop) (r : ℕ)
      → ((g : Run) → Elem g gang → start_time + g.job.duration < 2 ^ 64)
      → (((shift_jobs start_time (refs n gang) l).fcfs.when_free r ≡ l.fcfs.when_free r)
          × ((g : Run) (x : NodeRef) → Elem g gang → Elem x g.nodes → x.ref ≢ r))
        ⊎ ((g : Run) × (x : NodeRef) × Elem g gang
            × Elem x g.nodes
            × (x.ref ≡ r)
            × ((shift_jobs start_time (refs n gang) l).fcfs.when_free r
                ≡ start_time + g.job.duration))
  shift_jobs-when_free n [] l r fits = inl (refl, λ g x m. absurd m)
  shift_jobs-when_free n (g ∷ gang) l r fits =
      elim (shift_jobs-when_free (suc n) gang (shift_job start_time (ref_of n g) l) r
        (λ k m. fits k (inr m))) [
          | inr (k, x, mk, mx, e, at) ↦ inr (k, x, inr mk, mx, e, at)
          | inl (same, miss) ↦ elim (shift_job-when_free n g l r (fits g (inl refl))) [
            | inr (x, mx, e, at) ↦ inr (g, x, inl refl, mx, e, same ∙ at)
            | inl (kept, miss_g) ↦ inl (
              same ∙ kept,
              λ k x mk mx. elim mk [
                | inl ek ↦ miss_g x (subst (λ (q : Run). Elem x q.nodes) ek mx)
                | inr mk' ↦ miss k x mk' mx
              ],
            )
          ]
        ]

  set_start_time-append :
      (before : List SwmTimetable) (r : Run) (ys : List SwmTimetable)
      → set_start_time (length before) start_time (before ++ tt_of r ∷ ys)
        ≡ before ++ tt_of (at_start start_time r) ∷ ys
  set_start_time-append before r ys =
      rw (get_or-append before (tt_of r) blank_timetable ys) (set-append before (tt_of r) _ ys)

  pub shift_jobs-tts :
      (n : ℕ) (before : List SwmTimetable) (gang : List Run) (rest : List SwmTimetable) (l : Loop)
      → length before ≡ n
      → l.tts ≡ before ++ (map tt_of gang ++ rest)
      → (shift_jobs start_time (refs n gang) l).tts
        ≡ before ++ (map tt_of (aligned start_time gang) ++ rest)
  shift_jobs-tts n before [] rest l h e = e
  shift_jobs-tts n before (g ∷ gang) rest l h e =
      shift_jobs-tts (suc n) (before ++ tt_of (at_start start_time g) ∷ []) gang rest
        (shift_job start_time (ref_of n g) l)
        (omega (arith, length-append before (tt_of (at_start start_time g) ∷ []), h))
        (rw (e, ← h)
          (set_start_time-append before g (map tt_of gang ++ rest)
            ∙ sym (
                append_assoc before (tt_of (at_start start_time g) ∷ []) (map tt_of gang ++ rest))))
      ∙ append_assoc before (tt_of (at_start start_time g) ∷ [])
          (map tt_of (aligned start_time gang) ++ rest)

  pub shift_jobs-endtimes :
      (n : ℕ) (gang : List Run) (l : Loop) (m : ℕ)
      → ((g : Run) → Elem g gang → start_time + g.job.duration < 2 ^ 64)
      → ((g : Run) → Elem g gang → start_time + g.job.duration ≤ m)
      → ((k : String) (t : ℕ) → lookup k l.jobs_to_endtimes ≡ some t → t ≤ m)
      → (k : String) (t : ℕ)
      → lookup k (shift_jobs start_time (refs n gang) l).jobs_to_endtimes ≡ some t
      → t ≤ m
  shift_jobs-endtimes n [] l m fits b h k t e = h k t e
  shift_jobs-endtimes n (g ∷ gang) l m fits b h k t e =
      shift_jobs-endtimes (suc n) gang (shift_job start_time (ref_of n g) l) m
        (λ q i. fits q (inr i)) (λ q i. b q (inr i))
        (λ j u p. ground (
          arith,
          lookup-insert j g.job.id (add64 start_time g.job.duration) l.jobs_to_endtimes,
          h j u,
          b g (inl refl),
          mod-eq_of_lt (fits g (inl refl)),
        ))
        k t e

  -- It leaves the other fields alone.
  pub shift_jobs-same :
      (jrs : List JobRef) (l : Loop)
      → ((shift_jobs start_time jrs l).fcfs.nodes_per_cluster ≡ l.fcfs.nodes_per_cluster)
        × ((shift_jobs start_time jrs l).fcfs.rh ≡ l.fcfs.rh)
        × ((shift_jobs start_time jrs l).tt_number ≡ l.tt_number)
        × ((shift_jobs start_time jrs l).known_gang_ids ≡ l.known_gang_ids)
  shift_jobs-same [] l = (refl, refl, refl, refl)
  shift_jobs-same (jr ∷ jrs) l = shift_jobs-same jrs _
