-- ===== src/Ctrl/Responses/ResultTerms.antt =====
-- The terms of an answer of src/sched-lib/ctrl/responses.cpp, and their tokens.
use mathlib.Core.List.{reverse, reverse_aux}
use swm_sched.Prelude.{
  ℕ, suc, ◌+◌, ◌<◌, ◌≡◌, refl, sym, ap, ◌∙◌, String, ℕ_eq, Bool, true, not, List, [], ◌∷◌, ◌++◌,
  length, is_empty, filter_if, arith,
}
use swm_sched.PluginLib.Entities.{SwmTimetable}
use swm_sched.Ctrl.Responses.{SwmMetric, SwmSchedulerResult}
use swm_sched.Ctrl.Responses.Tokens.{
  Token, version, list_end, list_header, tuple_header, number, atom, text, real, Term, Terms, tuple,
  list, nil, cons, number_of, spell, spell_all, terms,
}

abbrev pub has_nodes : SwmTimetable → Bool
has_nodes table = not (is_empty table.job_nodes)

module _ {D : Type 0} where
  abbrev pub texts : List String → Terms D
  texts names = terms (λ s. Term.text s) names

  abbrev pub names_term : List String → Term D
  names_term names = list (texts (reverse names))

  abbrev pub timetable_term : SwmTimetable → Term D
  timetable_term table = tuple (
      cons (Term.atom "timetable") (
        cons (Term.number table.start_time)
          (cons (Term.text table.job_id) (cons (names_term table.job_nodes) nil))))

  abbrev pub metric_term : SwmMetric D → Term D
  metric_term m = tuple (
      cons (Term.atom "metric") (
        cons (Term.atom m.name)
          (cons (Term.number m.value_integer) (cons (Term.real m.value_float64) nil))))

  abbrev pub end_token {κ} : {A : Type κ} → List A → List (Token D)
  end_token [] = []
  end_token (x ∷ xs) = list_end ∷ []

  -- The header counts all timetables, and only those with nodes follow.
  abbrev pub timetables_tokens : List SwmTimetable → List (Token D)
  timetables_tokens tables =
      list_header (length tables)
      ∷ (spell_all (terms timetable_term (filter_if has_nodes tables)) ++ end_token tables)

  abbrev pub metrics_tokens : List (SwmMetric D) → List (Token D)
  metrics_tokens metrics =
      list_header (length metrics) ∷ (spell_all (terms metric_term metrics) ++ end_token metrics)

  abbrev pub last_tokens : SwmSchedulerResult D → List (Token D)
  last_tokens result =
      text result.request_id
      ∷ number result.status
      ∷ real result.astro_time
      ∷ real result.idle_time
      ∷ real result.work_time
      ∷ []

  abbrev pub result_tokens :
      SwmSchedulerResult D → List SwmTimetable → List (SwmMetric D) → List (Token D)
  result_tokens result tables metrics =
      version
      ∷ tuple_header 8
      ∷ atom "scheduler_result"
      ∷ (timetables_tokens tables ++ (metrics_tokens metrics ++ last_tokens result))

pub number_of-terms :
    {A D : Type 0} (f : A → Term D) (xs : List A) → number_of (terms f xs) ≡ length xs
number_of-terms f [] = refl
number_of-terms f (x ∷ xs) = ap suc (number_of-terms f xs)

pub length-reverse_aux :
    {A : Type 0} (xs ys : List A) → length (reverse_aux xs ys) ≡ length xs + length ys
length-reverse_aux [] ys = omega arith
length-reverse_aux (x ∷ xs) ys = omega (arith, length-reverse_aux xs (x ∷ ys))

-- How the names are written, where there are some.
pub names-spell :
    {D : Type 0} (n : ℕ) (names : List String)
    → n ≡ length names
    → 0 < n
    → list_header n ∷ (spell_all (texts {D = D} names) ++ list_end ∷ [])
      ≡ spell (list (texts {D = D} names))
unfolding spell
names-spell n [] e pos = absurd (omega arith)
names-spell {D} n (s ∷ names) e pos =
    ap (λ k. list_header k ∷ (spell_all (texts {D = D} (s ∷ names)) ++ list_end ∷ []))
      (e ∙ sym (number_of-terms (λ x. Term.text x) (s ∷ names)))

pub length-pos : {A : Type 0} (xs : List A) → not (is_empty xs) ≡ true → 0 < length xs
length-pos [] h = cc
length-pos (x ∷ xs) h = omega arith
