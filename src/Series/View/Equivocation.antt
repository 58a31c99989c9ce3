-- ===== src/Series/View/Equivocation.antt =====
-- The view of src/checkpoint.rs keeps clear of every tree size at which two roots are on record.
use ahl_mirror.Prelude.{
  ℕ, none, some, List, [], ◌∷◌, ◌≡◌, ◌≢◌, ◌≤◌, ◌<◌, arith, ◌⊎◌, inl, inr, ◌∙◌, subst, In,
  In-append_left, In-append_right, In-map,
}
use ahl_mirror.Error.{ok, Result-cases}
use ahl_mirror.Deps.{Deps}
use ahl_mirror.Config.{Config}
use ahl_mirror.Store.Schema.{Connection, Checkpoint, RotationRow}
use ahl_mirror.Store.Rows.{at_most}
use ahl_mirror.Store.Checkpoints.{all_checkpoints, all_rotation_checkpoints}
use ahl_mirror.Store.Checkpoints.Order.{InOrder, order_by-InOrder, In-order_by}
use ahl_mirror.Series.Divergence.{find_root_divergences, minimum}
use ahl_mirror.Series.Divergence.Complete.{BySize, scan_complete, minimum_least}
use ahl_mirror.Series.Frontier.{compute_gap_free_frontier}
use ahl_mirror.Series.Frontier.Reach.{compute_gap_free_frontier_sound}
use ahl_mirror.Series.View.{
  SeriesView, usable_of, label, authenticated_checkpoints, series_view, itub,
}
use ahl_mirror.Series.View.Bound.{itub_lem}

-- The checkpoint is on record: a member of the series, or the anchor of a rotation.
abbrev pub OnRecord : Connection → Checkpoint → Type 0
OnRecord c cp =
    In cp c.checkpoints
    ⊎ ((row : RotationRow) × In row c.rotation_checkpoints × (row.checkpoint ≡ cp))

InOrder-BySize : (rows : List Checkpoint) → InOrder rows → BySize rows
unfolding at_most
InOrder-BySize [] s = tt
InOrder-BySize (a ∷ []) s = tt
InOrder-BySize (a ∷ b ∷ rows) s = (ground (arith, s.0), InOrder-BySize (b ∷ rows) s.1)

module _ (d : Deps) where
  authenticated_checkpoints-OnRecord :
      (c : Connection) (cp : Checkpoint) → OnRecord c cp → In cp (authenticated_checkpoints d c)
  unfolding authenticated_checkpoints all_checkpoints all_rotation_checkpoints
  authenticated_checkpoints-OnRecord c cp (inl h) =
      In-order_by at_most cp _ (In-append_left cp _ _ (In-order_by at_most cp c.checkpoints h))
  authenticated_checkpoints-OnRecord c cp (inr (row, h, e)) =
      let sorted =
        In-order_by (λ a b. at_most a.checkpoint b.checkpoint) row c.rotation_checkpoints h in
      let paired =
        In-map (λ (r : RotationRow). (r.manifest_entry_index, r.checkpoint)) row _ sorted in
      subst (λ y. In y (authenticated_checkpoints d c)) e
        (In-order_by at_most row.checkpoint _ (
          In-append_right row.checkpoint _ _ (
            In-map (λ (r : ℕ × Checkpoint). r.1) (row.manifest_entry_index, row.checkpoint) _
              paired)))

  divergence_floor :
      (c : Connection) (x y : Checkpoint)
      → OnRecord c x
      → OnRecord c y
      → x.tree_size ≡ y.tree_size
      → x.root_hash ≢ y.root_hash
      → (floor : ℕ) × (minimum (find_root_divergences (authenticated_checkpoints d c)) ≡ some floor)
        × (floor ≤ x.tree_size)
  unfolding find_root_divergences
  divergence_floor c x y hx hy same apart =
      let sorted : BySize (authenticated_checkpoints d c) =
        unfold authenticated_checkpoints in InOrder-BySize _ (order_by-InOrder _) in
      minimum_least _ x.tree_size (
        scan_complete (authenticated_checkpoints d c) x y [] sorted
          (authenticated_checkpoints-OnRecord c x hx) (authenticated_checkpoints-OnRecord c y hy)
          same apart)

  series_view_cases :
      (c : Connection) (config : Config d) (view : SeriesView)
      → series_view d c config ≡ ok view
      → (view.equivocation_floor ≡ minimum (find_root_divergences (authenticated_checkpoints d c)))
        × ((frontier : ℕ)
            → view.gap_free_frontier ≡ some frontier
            → (floor : ℕ) → view.equivocation_floor ≡ some floor
            → frontier < floor)
  unfolding series_view
  series_view_cases c config view h = elim (Result-cases (label d c none (all_checkpoints c))) [
    | inr (e, failed) ↦ absurd (ground (arith, failed))
    | inl (members, labelled) ↦
        let lowest = minimum (find_root_divergences (authenticated_checkpoints d c)) in
        elim (Result-cases (compute_gap_free_frontier d c config (usable_of members) lowest)) [
          | inr (e, failed) ↦ absurd (ground (arith, labelled, failed))
          | inl (result, computed) ↦ (
            ground (arith, labelled, computed),
            λ frontier f floor g.
                let (below, run) =
                  compute_gap_free_frontier_sound d c config lowest (usable_of members) result
                    frontier computed (ground (arith, labelled, computed)) in
                let same : lowest ≡ some floor = ground (arith, labelled, computed) in
                ground (arith, below, same),
          )
        ]
  ]

  -- When two checkpoints on record, series members or rotation anchors, have the same size and
  -- different roots, the view has an equivocation floor at or below that size; its gap-free frontier
  -- lies below that size, and so does every checkpoint that `itub` returns for any entry.
  pub series_view_avoids_equivocation :
      (c : Connection) (config : Config d) (view : SeriesView) (x y : Checkpoint)
      → series_view d c config ≡ ok view
      → OnRecord c x
      → OnRecord c y
      → x.tree_size ≡ y.tree_size
      → x.root_hash ≢ y.root_hash
      → ((floor : ℕ) × (view.equivocation_floor ≡ some floor) × (floor ≤ x.tree_size))
        × ((frontier : ℕ) → view.gap_free_frontier ≡ some frontier → frontier < x.tree_size)
        × ((index : ℕ) (cp : Checkpoint) → itub view index ≡ some cp → cp.tree_size < x.tree_size)
  series_view_avoids_equivocation c config view x y h hx hy same apart =
      let (floored, limited) = series_view_cases c config view h in
      let (floor, lowest, below) = divergence_floor c x y hx hy same apart in
      (
        (floor, floored ∙ lowest, below),
        λ frontier f. let under = limited frontier f floor (floored ∙ lowest) in omega arith,
        λ index cp found.
            let (frontier, f, inside, covered, usable) = (itub_lem view index).0 cp found in
            let under = limited frontier f floor (floored ∙ lowest) in omega arith,
      )
