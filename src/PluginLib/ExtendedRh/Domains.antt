-- ===== src/PluginLib/ExtendedRh/Domains.antt =====
-- The nodes that src/plugin-lib/extended_rh.cpp maps to a partition are those it maps to a cluster.
use swm_sched.Prelude.{
  ℕ, ◌≡◌, refl, subst, ◌↔◌, ℕ_eq, String_eq, true, false, none, arith, lookup, lookup-insert, ◌==◌,
  Bool-cases, inl, inr,
}
use swm_sched.PluginLib.Entities.{
  SwmNode, SwmPartition, SwmCluster, Pointer, RhItem, RhItems, item, nil, cons, SchedulingInfo,
}
use swm_sched.PluginLib.ExtendedRh.{
  ExtendedRh, Parse, Result, ok, err, ◌>>=◌, name, children, check_rh_and_extract_item, parse_node,
  enter_part, leave_part, parse_part, parse_children, parse_parts, parse_cluster, parse_clusters,
  root_rh, init, node_to_cluster, node_to_part,
}

-- Inversion of a step that succeeded.
pub >>=-eq-ok {ℓ κ} :
    {A : Type ℓ} {B : Type κ} (m : Result A) (f : A → Result B) (b : B)
    → (m >>= f) ≡ ok b
    → (a : A) × (m ≡ ok a) × (f a ≡ ok b)
>>=-eq-ok (ok a) f b h = (a, refl, h)
>>=-eq-ok (err e) f b h = cc

ok-injective {ℓ} : {A : Type ℓ} (a b : A) → ok a ≡ ok b → a ≡ b
ok-injective a b h = cc

pub SameDomain : Parse → Type 0
SameDomain s =
    (a : ℕ) → (lookup a s.0.nodes_to_clusters ≡ none) ↔ (lookup a s.0.nodes_to_parts ≡ none)

parse_node-SameDomain :
    (rh : RhItem) (c : Pointer SwmCluster) (p : Pointer SwmPartition) (s s' : Parse)
    → SameDomain s
    → parse_node rh c p s ≡ ok s'
    → SameDomain s'
unfolding SameDomain parse_node
parse_node-SameDomain rh c p (x, known) s' d e =
    let (found, checked, rest) =
      >>=-eq-ok (check_rh_and_extract_item rh x.ids_to_nodes "node" known.nodes) _ s' e in
    λ a. ground (
      arith,
      d a,
      rest,
      lookup-insert a found.0.address c x.nodes_to_clusters,
      lookup-insert a found.0.address p x.nodes_to_parts,
    )

enter_part-SameDomain :
    (rh : RhItem) (p : Pointer SwmPartition) (s s' : Parse)
    → SameDomain s
    → enter_part rh s ≡ ok (p, s')
    → SameDomain s'
unfolding SameDomain enter_part
enter_part-SameDomain rh p (x, known) s' d e =
    let (found, checked, rest) =
      >>=-eq-ok (check_rh_and_extract_item rh x.ids_to_parts "partition" known.parts) _ _ e in
    λ a. ground (arith, d a, rest)

leave_part-SameDomain :
    (p : Pointer SwmPartition) (c : Pointer SwmCluster) (s s' : Parse)
    → SameDomain s
    → leave_part p c s ≡ ok s'
    → SameDomain s'
unfolding SameDomain leave_part
leave_part-SameDomain p c (x, known) s' d e = λ a. ground (arith, d a)

mutual
  unfolding parse_part parse_children

  parse_part-SameDomain :
      (rh : RhItem) (c : Pointer SwmCluster) (s s' : Parse)
      → SameDomain s
      → parse_part rh c s ≡ ok s'
      → SameDomain s'
  parse_part-SameDomain (item n i ch) c s s' d e =
      let (e1, e2, e3) = >>=-eq-ok (enter_part (item n i ch) s) _ s' e in
      let (m1, m2, m3) = >>=-eq-ok (parse_children ch c e1.0 e1.1) _ s' e3 in
      leave_part-SameDomain e1.0 c m1 s'
        (parse_children-SameDomain ch c e1.0 e1.1 m1
          (enter_part-SameDomain (item n i ch) e1.0 s e1.1 d e2) m2)
        m3

  parse_children-SameDomain :
      (rhs : RhItems) (c : Pointer SwmCluster) (p : Pointer SwmPartition) (s s' : Parse)
      → SameDomain s
      → parse_children rhs c p s ≡ ok s'
      → SameDomain s'
  parse_children-SameDomain nil c p s s' d e = subst SameDomain (ok-injective s s' e) d
  parse_children-SameDomain (cons child rest) c p s s' d e =
      let (m1, m2, m3) =
        >>=-eq-ok
          ((elim (name child == "partition") as (λ b. Result Parse) [
            | true ↦ parse_part child c s
            | false ↦ parse_node child c p s
          ]))
          _ s' e in
      parse_children-SameDomain rest c p m1 s'
        (elim (Bool-cases (name child == "partition")) [
          | inl t ↦ parse_part-SameDomain child c s m1 d (rw t at m2)
          | inr f ↦ parse_node-SameDomain child c p s m1 d (rw f at m2)
        ])
        m3

parse_parts-SameDomain :
    (rhs : RhItems) (c : Pointer SwmCluster) (s s' : Parse)
    → SameDomain s
    → parse_parts rhs c s ≡ ok s'
    → SameDomain s'
unfolding parse_parts
parse_parts-SameDomain nil c s s' d e = subst SameDomain (ok-injective s s' e) d
parse_parts-SameDomain (cons part rest) c s s' d e =
    let (m1, m2, m3) = >>=-eq-ok (parse_part part c s) _ s' e in
    parse_parts-SameDomain rest c m1 s' (parse_part-SameDomain part c s m1 d m2) m3

parse_cluster-SameDomain :
    (rh : RhItem) (s s' : Parse) → SameDomain s → parse_cluster rh s ≡ ok s' → SameDomain s'
unfolding parse_cluster SameDomain
parse_cluster-SameDomain rh (x, known) s' d e =
    let (found, checked, rest) =
      >>=-eq-ok (check_rh_and_extract_item rh x.ids_to_clusters "cluster" known.clusters) _ s' e in
    parse_parts-SameDomain (children rh) found.0 (x, record known { clusters = found.1 }) s' d rest

parse_clusters-SameDomain :
    (rhs : RhItems) (s s' : Parse) → SameDomain s → parse_clusters rhs s ≡ ok s' → SameDomain s'
unfolding parse_clusters
parse_clusters-SameDomain nil s s' d e = subst SameDomain (ok-injective s s' e) d
parse_clusters-SameDomain (cons c rest) s s' d e =
    let (m1, m2, m3) = >>=-eq-ok (parse_cluster c s) _ s' e in
    parse_clusters-SameDomain rest m1 s' (parse_cluster-SameDomain c s m1 d m2) m3

-- After a successful `init` a node has a partition exactly when it has a cluster.
pub init-same-domain :
    (info : SchedulingInfo) (x : ExtendedRh) (node : Pointer SwmNode)
    → init info ≡ ok x
    → (node_to_cluster x node ≡ none) ↔ (node_to_part x node ≡ none)
unfolding init node_to_cluster node_to_part SameDomain
init-same-domain info x node e =
    let (s, parsed, done) = >>=-eq-ok (parse_clusters (root_rh info.resource_hierarchy) _) _ x e in
    subst
      (λ (y : ExtendedRh).
        (lookup node.address y.nodes_to_clusters ≡ none)
        ↔ (lookup node.address y.nodes_to_parts ≡ none))
      (ok-injective s.0 x done)
      (parse_clusters-SameDomain (root_rh info.resource_hierarchy) _ s (λ a. (λ _. refl, λ _. refl))
        parsed node.address)
