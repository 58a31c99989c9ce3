-- ===== src/Http/Rotations.antt =====
-- src/http.rs: what a rotation proof element vouches for.
use ahl_mirror.Prelude.{
  ℕ, not, refl, sym, ap, ◌∙◌, some, List, [], true, ◌==◌, ◌≡◌, ◌<◌, arith, saturating_add,
}
use ahl_mirror.Error.{
  ok, ok_or, refuse_if, succeeds, ok-injective, ok_or-some, unknown_rotation_proof,
  incomplete_entries, tree_material_missing, checkpoint_root_mismatch,
}
use ahl_mirror.Deps.{Deps, Hash, from_ahl, from_atl}
use ahl_mirror.Config.{Config}
use ahl_mirror.Store.Schema.{Connection}
use ahl_mirror.Store.Reads.{count_entries_raw, inclusion_proof_raw, leaf_hashes_range_raw}
use ahl_mirror.Store.Checkpoints.{get_rotation_checkpoint, first}
use ahl_mirror.Series.View.{SeriesView, series_view}
use ahl_mirror.Range.{RangeProofs}
use ahl_mirror.Http.Wire.{RotationProofElement}
use ahl_mirror.Http.Series.{below_floor}
use ahl_mirror.Http.Proofs.{rotation_proof_element}
use ahl_mirror.Http.Usable.{below_floor_lem}

module _ (d : Deps) (proofs : RangeProofs) (config : Config d) where
  -- The inclusion proof that an element carries was computed for the entry in the checkpoint's tree,
  -- and opens the checkpoint's root for the entry's stored leaf hash.
  pub record Opens (c : Connection) (index : ℕ) (element : RotationProofElement d proofs)
      : Type 0 where
    pub root : Hash
    pub leaf : Hash
    pub leaves : List Hash
    pub proof : d.InclusionProof
    pub root_parses : from_ahl (d.parse_hash_hex element.checkpoint.root_hash) ≡ ok root
    pub stored : leaf_hashes_range_raw c index (saturating_add index 1) ≡ ok leaves
    pub leaf_stored : first leaves ≡ some leaf
    pub generated : inclusion_proof_raw d c index element.checkpoint.tree_size ≡ ok proof
    pub verifies : from_atl (d.verify_inclusion leaf proof root) ≡ ok true
    pub path_is : element.inclusion_path ≡ d.proof_path_hex proof

  -- A rotation proof element is served only with the checkpoint held for the rotation, while the
  -- mirror holds every entry of that checkpoint's tree, which lies below the equivocation floor; its
  -- path was just computed from the stored tree and verified against the checkpoint's root.
  pub rotation_proof_element_sound :
      (c : Connection) (index : ℕ) (element : RotationProofElement d proofs)
      → rotation_proof_element d proofs config c index ≡ ok element
      → (element.manifest_entry_index ≡ index)
        × (get_rotation_checkpoint c index ≡ ok (some element.checkpoint))
        × (count_entries_raw c 0 element.checkpoint.tree_size ≡ ok element.checkpoint.tree_size)
        × Opens c index element
        × (view : SeriesView) × (series_view d c config ≡ ok view)
        × ((floor : ℕ)
            → view.equivocation_floor ≡ some floor
            → element.checkpoint.tree_size < floor)
  unfolding rotation_proof_element
  rotation_proof_element_sound c index element h =
      let (held, looked_up, h) = succeeds (get_rotation_checkpoint c index) h in
      let (cp, known, h) = succeeds (ok_or (unknown_rotation_proof index) held) h in
      let (view, viewed, h) = succeeds (series_view d c config) h in
      let (passed, below, h) = succeeds (below_floor view.equivocation_floor cp.tree_size) h in
      let (have, counted, h) = succeeds (count_entries_raw c 0 cp.tree_size) h in
      let (whole, full, h) =
        succeeds (refuse_if (not (have == cp.tree_size)) (incomplete_entries have cp.tree_size))
          h in
      let (proof, generated, h) = succeeds (inclusion_proof_raw d c index cp.tree_size) h in
      let (root, parsed, h) = succeeds (from_ahl (d.parse_hash_hex cp.root_hash)) h in
      let (leaves, stored, h) =
        succeeds (leaf_hashes_range_raw c index (saturating_add index 1)) h in
      let (leaf, first_leaf, h) =
        succeeds (ok_or (tree_material_missing 0 index) (first leaves)) h in
      let (opens, verified, h) = succeeds (from_atl (d.verify_inclusion leaf proof root)) h in
      let (checked, opened, h) =
        succeeds (refuse_if (not opens) (checkpoint_root_mismatch cp.tree_size)) h in
      let built : element ≡ record {
        manifest_entry_index = index;
        checkpoint = cp;
        inclusion_path = d.proof_path_hex proof;
        witnesses = [];
      } =
        ok-injective (sym h) in
      let size : have ≡ cp.tree_size = ground (arith, full) in
      let open_now : opens ≡ true = ground (arith, opened) in
      let cp_held = ok_or-some (unknown_rotation_proof index) held known in
      rw built (
        refl,
        looked_up ∙ ap ok cp_held,
        rw size at counted,
        record {
          root = root;
          leaf = leaf;
          leaves = leaves;
          proof = proof;
          root_parses = parsed;
          stored = stored;
          leaf_stored = ok_or-some (tree_material_missing 0 index) (first leaves) first_leaf;
          generated = generated;
          verifies = rw open_now at verified;
          path_is = refl;
        },
        view,
        viewed,
        below_floor_lem d view.equivocation_floor cp.tree_size below,
      )
