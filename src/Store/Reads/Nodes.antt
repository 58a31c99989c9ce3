-- ===== src/Store/Reads/Nodes.antt =====
-- `with_tree_nodes` of src/store.rs: what a builder's result rests on.
use ahl_mirror.Prelude.{ℕ, none, some, false, ◌≡◌, arith, sym, ◌∙◌, ◌⊎◌, inl, inr, Option-cases}
use ahl_mirror.Error.{ok, Result-cases}
use ahl_mirror.Deps.{Hash, Walk, returns, asks}
use ahl_mirror.Store.Schema.{Connection}
use ahl_mirror.Store.Nodes.{tree_node_raw}
use ahl_mirror.Store.Reads.{
  TreeReadCost, node_is_complete, Reader, get_node, run_walk, with_tree_nodes,
}

get_node_cases :
    (c : Connection) (bound level index : ℕ) (r : Reader)
    → ((node : Hash) × ((get_node c bound level index r).0 ≡ some node)
        × (tree_node_raw c level index ≡ ok (some node))
        × ((get_node c bound level index r).1.failure ≡ r.failure))
      ⊎ (((get_node c bound level index r).0 ≡ none)
          × ((get_node c bound level index r).1.failure ≡ none
              → (tree_node_raw c level index ≡ ok none)
                × (node_is_complete level index bound ≡ false)
                × ((get_node c bound level index r).1.failure ≡ r.failure)))
unfolding get_node
get_node_cases c bound level index r = elim (Result-cases (tree_node_raw c level index)) [
  | inl (some node, found) ↦ inl (node, ground (arith, found), found, ground (arith, found))
  | inl (none, found) ↦
      inr (ground (arith, found), λ clean. (found, ground (arith, found), ground (arith, found)))
  | inr (e, failed) ↦ inr (ground (arith, failed), λ clean. absurd (ground (arith, failed)))
]

module _ {A : Type 0} (c : Connection) (bound : ℕ) where
  -- The walk comes to `a` when each node it asks for is answered by the store, and the store lacks
  -- none of them that is complete within the bound.
  abbrev pub ComesTo : Walk A → A → Type 0
  ComesTo (returns computed) a = computed ≡ inr a
  ComesTo (asks level index k) a =
      ((node : Hash) × (tree_node_raw c level index ≡ ok (some node)) × ComesTo (k (some node)) a)
      ⊎ ((tree_node_raw c level index ≡ ok none)
          × (node_is_complete level index bound ≡ false)
          × ComesTo (k none) a)

  run_walk_lem :
      (f : Walk A) (a : A) (r : Reader)
      → (run_walk c bound f r).1.failure ≡ none
      → (run_walk c bound f r).0 ≡ inr a
      → (r.failure ≡ none) × ComesTo f a
  unfolding run_walk
  run_walk_lem (returns computed) a r h e = (h, e)
  run_walk_lem (asks level index k) a r h e =
      let after = (get_node c bound level index r).1 in
      elim (get_node_cases c bound level index r) [
        | inl (node, answer, found, same) ↦
            let (clean, comes) =
              run_walk_lem (k (some node)) a after (rw (run_walk, answer) at h)
                (rw (run_walk, answer) at e) in
            (sym same ∙ clean, inl (node, found, comes))
        | inr (answer, cases) ↦
            let (clean, comes) =
              run_walk_lem (k none) a after (rw (run_walk, answer) at h)
                (rw (run_walk, answer) at e) in
            let (missing, incomplete, same) = cases clean in
            (sym same ∙ clean, inr (missing, incomplete, comes))
      ]

  -- A builder that runs over the stored tree material and succeeds has read only what the store holds:
  -- every node that it asked for was answered with the stored one, or is one that the store lacks and
  -- that is not complete within the bound, and its result is what the walk comes to on those answers.
  pub with_tree_nodes_sound :
      (f : Walk A) (a : A) (cost : TreeReadCost)
      → with_tree_nodes c bound f ≡ ok (a, cost)
      → ComesTo f a
  unfolding with_tree_nodes
  with_tree_nodes_sound f a cost h =
      let first : Reader = record { failure = none; reads = 0 } in
      elim (Option-cases (run_walk c bound f first).1.failure) [
        | inr (e, failed) ↦ absurd (ground (arith, failed))
        | inl clean ↦ (run_walk_lem f a first clean (ground (arith, clean))).1
      ]
