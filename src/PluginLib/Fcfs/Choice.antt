-- ===== src/PluginLib/Fcfs/Choice.antt =====
-- Which nodes src/plugin-lib/fcfs_implementation.cpp chooses for a job.
use swm_sched.Prelude.{
  some, filter_if, not, ◌&&◌, ℕ, ◌+◌, ◌-◌, ◌≤◌, ◌<◌, ◌≡◌, refl, ◌⊎◌, inl, inr, String, String_eq,
  ℕ_eq, Bool, true, false, List, [], ◌∷◌, ◌++◌, none, arith, ltb, ltb→lt, length, take, drop,
  is_empty, contains, erase, Assoc, sort, All, All-take, total, SubList, total-append,
  total-take-le, total-length, total-sort, length-take, length-append, Bool-cases, Option-cases,
  String_discrete, ℕ_discrete,
}
use swm_sched.PluginLib.Entities.{EiBuffer, SwmJob}
use swm_sched.PluginLib.ExtendedRh.{ExtendedRh, node_to_part}
use swm_sched.PluginLib.Fcfs.Errors.{Outcome, done, interrupted, threw, ◌>>=◌}
use swm_sched.PluginLib.Fcfs.Requests.{is_node_owned_by_other_job, does_node_fit_request}
use swm_sched.PluginLib.Fcfs.Selection.{
  NodeRef, Store, node_id, Verdict, fits, judge, ids_left, add_fit, select_nodes, ties,
  when_free_at, extend_choice, add_to_group, group_by_part, larger, fill_up, groups_of,
  prefer_parts,
}

module _ (ei_buffer_to_str : EiBuffer → Bool × String) (job : SwmJob)
    (busy_nodes : List String) where
  -- What every node chosen for a job meets.
  pub record IsSuitable (nr : NodeRef) : Type 0 where
    pub not_busy : contains (node_id nr) busy_nodes ≡ false
    pub not_owned : is_node_owned_by_other_job ei_buffer_to_str job nr.node.value.resources ≡ false
    pub provides_all :
        does_node_fit_request ei_buffer_to_str job.request nr.node.value.resources ≡ none
    pub as_preset : (is_empty job.nodes ≡ true) ⊎ (contains (node_id nr) job.nodes ≡ true)

  erase-contains :
      (a b : String) (xs : List String) → contains a (erase b xs) ≡ true → contains a xs ≡ true
  erase-contains a b [] h = h
  erase-contains a b (x ∷ xs) h = ground (arith, erase-contains a b xs)

  abbrev Within : List String → Type 0
  Within ids = (a : String) → contains a ids ≡ true → contains a job.nodes ≡ true

  ids_left-Within :
      (v : Verdict) (nr : NodeRef) (ids : List String)
      → Within ids
      → Within (ids_left ei_buffer_to_str job busy_nodes v nr ids)
  ids_left-Within v nr ids w a h = ground (arith, w a, erase-contains a (node_id nr) ids)

  judge-IsSuitable :
      (ids : List String) (nr : NodeRef)
      → Within ids
      → judge ei_buffer_to_str job busy_nodes ids nr ≡ fits
      → IsSuitable nr
  unfolding judge
  judge-IsSuitable ids nr w e = ground (arith, w (node_id nr))

  add_fit-All {ℓ} :
      (P : NodeRef → Type ℓ) (v : Verdict) (nr : NodeRef) (nrs : List NodeRef)
      → (v ≡ fits → P nr)
      → All P nrs
      → All P (add_fit ei_buffer_to_str job busy_nodes v nr nrs)
  add_fit-All P fits nr nrs p h = (p refl, h)
  add_fit-All P _ nr nrs p h = h

  total-add_fit-le :
      (w : NodeRef → ℕ) (v : Verdict) (nr : NodeRef) (nrs : List NodeRef)
      → total w (add_fit ei_buffer_to_str job busy_nodes v nr nrs) ≤ w nr + total w nrs
  total-add_fit-le w fits nr nrs = omega arith
  total-add_fit-le w _ nr nrs = omega arith

  pub select_nodes-IsSuitable :
      (ids : List String) (nodes : List NodeRef)
      → Within ids
      → All IsSuitable (select_nodes ei_buffer_to_str job busy_nodes ids nodes).0
  unfolding select_nodes
  select_nodes-IsSuitable ids [] w = tt
  select_nodes-IsSuitable ids (nr ∷ nodes) w =
      let v = judge ei_buffer_to_str job busy_nodes ids nr in
      add_fit-All IsSuitable v nr _ (λ e. judge-IsSuitable ids nr w e)
        (select_nodes-IsSuitable (ids_left ei_buffer_to_str job busy_nodes v nr ids) nodes
          (ids_left-Within v nr ids w))

  pub select_nodes-sub :
      (ids : List String) (nodes : List NodeRef)
      → SubList (select_nodes ei_buffer_to_str job busy_nodes ids nodes).0 nodes
  unfolding select_nodes
  select_nodes-sub ids [] w = omega arith
  select_nodes-sub ids (nr ∷ nodes) w =
      let v = judge ei_buffer_to_str job busy_nodes ids nr in
      let rest = ids_left ei_buffer_to_str job busy_nodes v nr ids in
      omega (
        arith,
        total-add_fit-le w v nr (select_nodes ei_buffer_to_str job busy_nodes rest nodes).0,
        select_nodes-sub rest nodes w,
      )

  pub select_nodes-All {ℓ} :
      (P : NodeRef → Type ℓ) (ids : List String) (nodes : List NodeRef)
      → All P nodes
      → All P (select_nodes ei_buffer_to_str job busy_nodes ids nodes).0
  unfolding select_nodes
  select_nodes-All P ids [] h = tt
  select_nodes-All P ids (nr ∷ nodes) h =
      let v = judge ei_buffer_to_str job busy_nodes ids nr in
      let rest = ids_left ei_buffer_to_str job busy_nodes v nr ids in
      add_fit-All P v nr _ (λ e. h.0) (select_nodes-All P rest nodes h.1)

  -- May the job run on the node, leaving preset nodes aside?
  pub suits : NodeRef → Bool
  suits nr =
      not (contains (node_id nr) busy_nodes)
      && (not (is_node_owned_by_other_job ei_buffer_to_str job nr.node.value.resources)
          && elim (does_node_fit_request ei_buffer_to_str job.request nr.node.value.resources) [
            | none ↦ true
            | some m ↦ false
          ])

  pub select_nodes-eq-filter_if :
      (ids : List String) (nodes : List NodeRef)
      → is_empty job.nodes ≡ true
      → (select_nodes ei_buffer_to_str job busy_nodes ids nodes).0 ≡ filter_if suits nodes
  unfolding select_nodes judge suits
  select_nodes-eq-filter_if ids [] h = refl
  select_nodes-eq-filter_if ids (nr ∷ nodes) h =
      let v = judge ei_buffer_to_str job busy_nodes ids nr in
      ground (
        arith,
        select_nodes-eq-filter_if (ids_left ei_buffer_to_str job busy_nodes v nr ids) nodes h,
      )

-- Steps 3 and 4 keep elements that all meet a predicate, and make up none.
module _ (when_free : Store) (node_num : ℕ) (selected : List NodeRef) where
  pub extend_choice-sub : SubList (extend_choice when_free node_num selected) selected
  unfolding extend_choice
  extend_choice-sub w = total-take-le w _ selected

  extend_choice-All {ℓ} :
      (P : NodeRef → Type ℓ) → All P selected → All P (extend_choice when_free node_num selected)
  unfolding extend_choice
  extend_choice-All P h = All-take P _ selected h

  pub extend_choice-length :
      node_num ≤ length selected → node_num ≤ length (extend_choice when_free node_num selected)
  unfolding extend_choice
  extend_choice-length h = omega (
    arith,
    length-take
        (node_num
          + ties when_free (when_free_at when_free selected (node_num - 1))
              (drop node_num selected))
        selected,
  )

abbrev groups_total : (NodeRef → ℕ) → Assoc ℕ (List NodeRef) → ℕ
groups_total w [] = 0
groups_total w ((k, nrs) ∷ groups) = total w nrs + groups_total w groups

add_to_group-total :
    (w : NodeRef → ℕ) (k : ℕ) (nr : NodeRef) (groups : Assoc ℕ (List NodeRef))
    → groups_total w (add_to_group k nr groups) ≡ w nr + groups_total w groups
add_to_group-total w k nr [] = omega arith
add_to_group-total w k nr ((j, nrs) ∷ groups) =
    ground (arith, add_to_group-total w k nr groups, total-append w nrs (nr ∷ []))

group_by_part-total :
    (w : NodeRef → ℕ) (rh : ExtendedRh) (nrs : List NodeRef)
    (groups grouped : Assoc ℕ (List NodeRef))
    → group_by_part rh nrs groups ≡ done grouped
    → groups_total w grouped ≡ total w nrs + groups_total w groups
unfolding group_by_part
group_by_part-total w rh [] groups grouped e = ground arith
group_by_part-total w rh (nr ∷ nrs) groups grouped e =
    elim (Option-cases (node_to_part rh nr.node)) [
      | inl e' ↦ ground arith
      | inr (part, e') ↦ ground (
        arith,
        add_to_group-total w part.address nr groups,
        group_by_part-total w rh nrs (add_to_group part.address nr groups) grouped,
      )
    ]

abbrev total_all : (NodeRef → ℕ) → List (List NodeRef) → ℕ
total_all w = total (total w)

fill_up-total-le :
    (w : NodeRef → ℕ) (node_num : ℕ) (parts : List (List NodeRef)) (chosen : List NodeRef)
    → total w (fill_up node_num parts chosen) ≤ total w chosen + total_all w parts
fill_up-total-le w n [] chosen = omega arith
fill_up-total-le w n (p ∷ parts) chosen =
    ground (arith, total-append w chosen p, fill_up-total-le w n parts (chosen ++ p))

-- Enough nodes, or all of them.
fill_up-length :
    (node_num : ℕ) (parts : List (List NodeRef)) (chosen : List NodeRef)
    → node_num ≤ length chosen + total_all (λ x. 1) parts
    → node_num ≤ length (fill_up node_num parts chosen)
fill_up-length n [] chosen h = omega arith
fill_up-length n (p ∷ parts) chosen h =
    ground (arith, length-append chosen p, total-length p, fill_up-length n parts (chosen ++ p))

total-groups_of :
    (w : NodeRef → ℕ) (groups : Assoc ℕ (List NodeRef))
    → total_all w (groups_of groups) ≡ groups_total w groups
total-groups_of w [] = refl
total-groups_of w ((k, nrs) ∷ groups) = omega (arith, total-groups_of w groups)

pub NodeRef-discrete : Discrete NodeRef
NodeRef-discrete = hlevel (ℕ_discrete, String_discrete)

pub >>=-eq-done {ℓ κ} :
    {A : Type ℓ} {B : Type κ} (m : Outcome A) (f : A → Outcome B) (b : B)
    → (m >>= f) ≡ done b
    → (a : A) × (m ≡ done a) × (f a ≡ done b)
>>=-eq-done (done a) f b h = (a, refl, h)
>>=-eq-done interrupted f b h = cc
>>=-eq-done (threw e) f b h = cc

module _ (rh : ExtendedRh) (node_num : ℕ) (selected chosen : List NodeRef) where
  abbrev filled : Assoc ℕ (List NodeRef) → List NodeRef
  filled groups = fill_up node_num (sort larger (groups_of groups)) []

  prefer_parts-cases :
      prefer_parts rh node_num selected ≡ done chosen
      → ((length selected ≤ node_num) × (chosen ≡ selected))
        ⊎ ((groups : Assoc ℕ (List NodeRef)) × (node_num < length selected)
            × (group_by_part rh selected [] ≡ done groups)
            × (chosen ≡ take node_num (filled groups)))
  unfolding prefer_parts
  prefer_parts-cases e = elim (Bool-cases (ltb node_num (length selected))) [
    | inl more ↦
        let (groups, grouped, rest) =
          >>=-eq-done (group_by_part rh selected []) _ chosen (rw more at e) in
        inr (groups, ltb→lt _ _ more, grouped, ground (arith, rest))
    | inr few ↦ inl (ground arith, ground arith)
  ]

  module _ (preferred : prefer_parts rh node_num selected ≡ done chosen) where
    pub prefer_parts-sub : SubList chosen selected
    prefer_parts-sub w = elim (prefer_parts-cases preferred) [
      | inl (few, e) ↦ rw e (omega arith)
      | inr (groups, more, grouped, e) ↦ rw e (
          omega (
            arith,
            total-take-le w node_num (filled groups),
            fill_up-total-le w node_num (sort larger (groups_of groups)) [],
            total-sort larger (total w) (groups_of groups),
            total-groups_of w groups,
            group_by_part-total w rh selected [] groups grouped,
          ))
    ]

    pub prefer_parts-length : node_num ≤ length selected → length chosen ≡ node_num
    prefer_parts-length h = elim (prefer_parts-cases preferred) [
      | inl (few, e) ↦ rw e (omega arith)
      | inr (groups, more, grouped, e) ↦ rw e (
          omega (
            arith,
            length-take node_num (filled groups),
            fill_up-length node_num (sort larger (groups_of groups)) [],
            total-sort larger (total (λ x. 1)) (groups_of groups),
            total-groups_of (λ x. 1) groups,
            group_by_part-total (λ x. 1) rh selected [] groups grouped,
            total-length selected,
          ))
    ]
