-- ===== src/Ctrl/Commands/Hierarchy.antt =====
-- The resource hierarchy that src/sched-lib/ctrl/commands.cpp reads: `apply_rh_helper`.
use swm_sched.Prelude.{ℕ, zero, suc, ◌+◌, ◌≤◌, ◌≡◌, refl, ℕ_eq, List, [], ◌∷◌, ◌++◌, arith}
use swm_sched.PluginLib.Entities.{RhItem, RhItems, item, nil, cons}
use swm_sched.Ctrl.Commands.{Ei, CommandError, empty_list, parsed, rh_elements, apply_rh}
use swm_sched.Ctrl.Commands.Terms.{
  Piece, Reads, length_items, rh_list, rh_item, rh_items, encode_rh, depth_item, depth_items,
}
use swm_sched.Ctrl.Commands.Terms
use swm_sched.Ctrl.Commands.Lists.{Gives}

module _ (ei : Ei) (At : ei.Buffer → ℕ → List (Piece ei.SwmGrid) → Type 0) (reads : Reads ei At)
    (b : ei.Buffer) where
  -- The items that are read, and the pieces behind them.
  abbrev Leaves : RhItems → ℕ → ℕ → List CommandError → List (Piece ei.SwmGrid) → Type 0
  Leaves xs fuel i errors ps =
      (j : ℕ) × (after : List CommandError) × (apply_rh ei fuel b i errors ≡ parsed xs j after)
      × At b j ps

  apply_rh-list :
      (xs : RhItems) (ps : List (Piece ei.SwmGrid)) (fuel i : ℕ) (errors : List CommandError)
      → ((ps' : List (Piece ei.SwmGrid)) (i' : ℕ)
          → At b i' (rh_items xs ps')
          → (j : ℕ) × (after : List CommandError) × (rh_elements
                (apply_rh ei fuel b)
                (length_items xs)
                0
                i'
                errors
              ≡ parsed xs j after)
            × At b j ps')
      → At b i (rh_list (rh_items xs) xs ps)
      → Leaves xs (suc fuel) i errors ps
  unfolding apply_rh
  apply_rh-list nil ps fuel i errors all a =
      let t = reads.type_of_empty_list b i ps a in
      let (j, h, a') = reads.reads_empty_list b i ps a in
      (j, errors ++ empty_list "RH" ∷ [], ground (arith, t, h), a')
  apply_rh-list (cons x xs) ps fuel i errors all a =
      let t = reads.type_of_list b i (length_items (cons x xs)) _ a in
      let (j, h, a') = reads.reads_list b i (length_items (cons x xs)) _ a in
      let (k, after, es, a'') = all (Terms.empty_list ∷ ps) j a' in
      let (l, s, a''') = reads.skips_empty_list b k ps a'' in
      (l, after, ground (arith, t, h, es, s), a''')

  mutual
    unfolding rh_item rh_items depth_item depth_items rh_elements apply_rh

    apply_rh-item :
        (x : RhItem) (ps : List (Piece ei.SwmGrid)) (fuel i : ℕ) (errors : List CommandError)
        → depth_item x ≤ fuel
        → At b i (rh_item x ps)
        → Leaves (cons x nil) fuel i errors ps
    apply_rh-item (item name id xs) ps zero i errors le a = absurd (omega arith)
    apply_rh-item (item name id xs) ps (suc zero) i errors le a = absurd (omega arith)
    apply_rh-item (item name id xs) ps (suc (suc fuel)) i errors le a =
        let t = reads.type_of_tuple b i 2 _ a in
        let (j, h, a') = reads.reads_tuple b i 2 _ a in
        let (k, n, a'') = reads.reads_atom_str b j name id _ a' in
        let (l, after, cs, a''') =
          apply_rh-list xs ps fuel k errors
            (λ ps' i'. rh_elements-items xs 0 ps' fuel i' errors (omega arith)) a'' in
        (l, after, ground (arith, t, h, n, cs), a''')

    rh_elements-items :
        (xs : RhItems) (n : ℕ) (ps : List (Piece ei.SwmGrid)) (fuel i : ℕ)
        (errors : List CommandError)
        → depth_items xs ≤ fuel
        → At b i (rh_items xs ps)
        → (j : ℕ) × (after : List CommandError) × (rh_elements
              (apply_rh ei fuel b)
              (length_items xs)
              n
              i
              errors
            ≡ parsed xs j after)
          × At b j ps
    rh_elements-items nil n ps fuel i errors le a = (i, errors, refl, a)
    rh_elements-items (cons x xs) n ps fuel i errors le a =
        let (j, after, e, a') = apply_rh-item x (rh_items xs ps) fuel i errors (omega arith) a in
        let (k, last, es, a'') = rh_elements-items xs (n + 1) ps fuel j after (omega arith) a' in
        (k, last, ground (arith, e, es), a'')

  pub apply_rh-encode_rh :
      (xs : RhItems) (fuel i : ℕ) (errors : List CommandError)
      → depth_items xs ≤ fuel
      → At b i (encode_rh xs)
      → Gives (apply_rh ei (suc fuel) b) xs i errors
  unfolding encode_rh
  apply_rh-encode_rh xs fuel i errors le a =
      let (j, after, e, a') =
        apply_rh-list xs [] fuel i errors (λ ps' i'. rh_elements-items xs 0 ps' fuel i' errors le)
          a in
      (j, after, e)
