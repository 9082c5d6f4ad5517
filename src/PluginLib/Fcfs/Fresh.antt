-- ===== src/PluginLib/Fcfs/Fresh.antt =====
-- The object that `init` of src/plugin-lib/fcfs_implementation.cpp leaves.
use swm_sched.Prelude.{
  ◌+◌, ◌<◌, ◌≡◌, ◌≢◌, refl, sym, ap, ◌∙◌, ◌⊎◌, inl, inr, String, String_eq, List, [], ◌∷◌, ◌++◌,
  map, none, some, Option-cases, arith, ◌==◌, Elem, Distinct, Elem-append, Bool-cases, lookup,
  insert, lookup-insert, Assoc, subst,
}
use swm_sched.PluginLib.Entities.{SwmNode, SwmCluster, Pointer, SchedulingInfo}
use swm_sched.PluginLib.ExtendedRh.{
  ExtendedRh, Result, RhError, ok, err, node_to_cluster, node_to_part,
}
use swm_sched.PluginLib.ExtendedRh
use swm_sched.PluginLib.Fcfs.Selection.{NodeRef, node_id}
use swm_sched.PluginLib.Fcfs.Single.{
  Fcfs, ready, insert_new, empty_vectors, append_node, is_active, add_nodes, init,
}
use swm_sched.PluginLib.Fcfs.Plan.{FromPool, Elem-map}
use swm_sched.PluginLib.Fcfs.Guarantee.{IsFresh}

record Filled (pool : List NodeRef) (f : Fcfs) : Type 0 where
  fresh : IsFresh pool f
  below : (x : NodeRef) → Elem x pool → x.ref < f.next_ref

append_node-FromPool :
    (pool : List NodeRef) (nr : NodeRef) (c : String) (m : Assoc String (List NodeRef))
    → FromPool pool m
    → FromPool (nr ∷ pool) (append_node c nr m)
append_node-FromPool pool nr c m h k nodes e x kx = elim (Option-cases (lookup c m)) [
  | inl missing ↦
      let at = lookup-insert k c (nr ∷ []) m in
      let e' : lookup k (insert c (nr ∷ []) m) ≡ some nodes = rw (missing, append_node) at e in
      elim (Bool-cases (k == c)) [
        | inl hit ↦
            let same : nodes ≡ nr ∷ [] = ground arith in
            elim (subst (Elem x) same kx) [ inl q ↦ inl q | inr q ↦ absurd q ]
        | inr miss ↦ inr (h k nodes (ground arith) x kx)
      ]
  | inr (old, found) ↦
      let at = lookup-insert k c (old ++ nr ∷ []) m in
      let e' : lookup k (insert c (old ++ nr ∷ []) m) ≡ some nodes = rw (found, append_node) at e in
      elim (Bool-cases (k == c)) [
        | inl hit ↦
            let same : nodes ≡ old ++ nr ∷ [] = ground arith in
            elim (Elem-append x old (nr ∷ []) (subst (Elem x) same kx)) [
              | inl q ↦ inr (h c old found x q)
              | inr (inl q) ↦ inl q
              | inr (inr q) ↦ absurd q
            ]
        | inr miss ↦ inr (h k nodes (ground arith) x kx)
      ]
]

empty_vectors-FromPool :
    (clusters : List (Pointer SwmCluster)) (m : Assoc String (List NodeRef))
    → FromPool [] m
    → FromPool [] (empty_vectors clusters m)
empty_vectors-FromPool [] m h = h
empty_vectors-FromPool (c ∷ cs) m h =
    empty_vectors-FromPool cs (insert_new c.value.id [] m)
      (elim (Option-cases (lookup c.value.id m)) [
        | inr (old, found) ↦ rw (found, insert_new) h
        | inl missing ↦
            rw (missing, insert_new)
              (λ k nodes e x kx.
                let at = lookup-insert k c.value.id [] m in
                elim (Bool-cases (k == c.value.id)) [
                  | inl hit ↦ let same : nodes ≡ [] = ground arith in subst (Elem x) same kx
                  | inr miss ↦ h k nodes (ground arith) x kx
                ])
      ])

-- A reference for one more node.
snoc-Filled :
    (pool : List NodeRef) (f : Fcfs) (node : Pointer SwmNode) (c : String)
    → Filled pool f
    → node_to_part f.rh node ≢ none
    → ((x : NodeRef) → Elem x pool → node_id x ≢ node.value.id)
    → Filled (record { ref = f.next_ref; node = node } ∷ pool) (record f {
      nodes_per_cluster =
          append_node c (record { ref = f.next_ref; node = node }) f.nodes_per_cluster;
      next_ref = f.next_ref + 1;
    })
snoc-Filled pool f node c filled known new = record {
  fresh = record {
    is_pool = λ x y mx my. elim mx [
      | inl ex ↦ elim my [
        | inl ey ↦ (λ _. ap (λ (z : NodeRef). z.ref) (ex ∙ sym ey), λ _. ap node_id (ex ∙ sym ey))
        | inr ky ↦ (
          λ e. absurd (new y ky (sym e ∙ ap node_id ex)),
          λ e. absurd (omega (arith, filled.below y ky, ap (λ (z : NodeRef). z.ref) ex, e)),
        )
      ]
      | inr kx ↦ elim my [
        | inl ey ↦ (
          λ e. absurd (new x kx (e ∙ ap node_id ey)),
          λ e. absurd (omega (arith, filled.below x kx, ap (λ (z : NodeRef). z.ref) ey, e)),
        )
        | inr ky ↦ filled.fresh.is_pool x y kx ky
      ]
    ];
    vectors = append_node-FromPool pool _ c f.nodes_per_cluster filled.fresh.vectors;
    holds = λ x m. elim m [
      | inl e ↦ λ gone. known (ap (λ (z : NodeRef). node_to_part f.rh z.node) (sym e) ∙ gone)
      | inr k ↦ filled.fresh.holds x k
    ];
    free = filled.fresh.free;
  };
  below = λ x m. elim m [
    | inl e ↦ omega (arith, ap (λ (z : NodeRef). z.ref) e)
    | inr k ↦ omega (arith, filled.below x k)
  ];
}

add_nodes-Filled :
    (nodes : List (Pointer SwmNode)) (pool : List NodeRef) (f g : Fcfs)
    → Filled pool f
    → Distinct (map (λ n. n.value.id) nodes)
    → ((x : NodeRef) (n : Pointer SwmNode) → Elem x pool → Elem n nodes → node_id x ≢ n.value.id)
    → add_nodes nodes f ≡ some g
    → (last : List NodeRef) × Filled last g
unfolding add_nodes
add_nodes-Filled [] pool f g filled d apart e = (pool, subst (Filled pool) (ground arith) filled)
add_nodes-Filled (node ∷ nodes) pool f g filled d apart e =
    elim (Option-cases (node_to_cluster f.rh node)) [
      | inl missing ↦ absurd (ground arith)
      | inr (cluster, found) ↦ elim (Option-cases (node_to_part f.rh node)) [
        | inl missing ↦ absurd (ground arith)
        | inr (part, found') ↦ elim (Bool-cases (is_active node.value cluster.value part.value)) [
          | inl active ↦
              add_nodes-Filled nodes (record { ref = f.next_ref; node = node } ∷ pool) _ g
                (snoc-Filled pool f node cluster.value.id filled (λ gone. ground arith)
                  (λ x k. apart x node k (inl refl)))
                d.1
                (λ x n kx kn same. elim kx [
                  | inl ex ↦ d.0 (
                      subst (λ i. Elem i (map (λ n. n.value.id) nodes)) (sym same ∙ ap node_id ex)
                        (Elem-map (λ n. n.value.id) n nodes kn))
                  | inr k ↦ apart x n k (inr kn) same
                ])
                (rw (found, found', active, add_nodes) at e)
          | inr idle ↦
              add_nodes-Filled nodes pool f g filled d.1 (λ x n kx kn. apart x n kx (inr kn))
                (rw (found, found', idle, add_nodes) at e)
        ]
      ]
    ]

Result-cases :
    (r : Result ExtendedRh) → ((k : RhError) × (r ≡ err k)) ⊎ ((rh : ExtendedRh) × (r ≡ ok rh))
Result-cases (err k) = inl (k, refl)
Result-cases (ok rh) = inr (rh, refl)

-- After an `init` that gives true, on nodes with different identifiers: a node has one reference, the
-- vectors hold such references, of nodes that the hierarchy holds, and each is free at 0.
pub init-IsFresh :
    (info : SchedulingInfo) (f : Fcfs)
    → Distinct (map (λ n. n.value.id) info.nodes)
    → init info ≡ ready f
    → (pool : List NodeRef) × IsFresh pool f
unfolding init
init-IsFresh info f d e = elim (Result-cases (ExtendedRh.init info)) [
  | inl (k, bad) ↦ absurd (ground arith)
  | inr (rh, parsed) ↦ elim (Option-cases (add_nodes info.nodes (start rh))) [
    | inl missing ↦ absurd (ground arith)
    | inr (g, added) ↦
        let same : g ≡ f = ground arith in
        let (pool, filled) =
          add_nodes-Filled info.nodes [] (start rh) f (start-Filled rh) d (λ x n k. absurd k)
            (added ∙ ap some same) in
        (pool, filled.fresh)
  ]
]
  where
    start : ExtendedRh → Fcfs
    start rh = record {
      nodes_per_cluster = empty_vectors info.clusters [];
      rh = rh;
      when_free = λ r. 0;
      next_ref = 0;
    }

    start-Filled : (rh : ExtendedRh) → Filled [] (start rh)
    start-Filled rh = record {
      fresh = record {
        is_pool = λ x y k. absurd k;
        vectors = empty_vectors-FromPool info.clusters [] (λ k nodes e. absurd (ground arith));
        holds = λ x k. absurd k;
        free = λ r. refl;
      };
      below = λ x k. absurd k;
    }
