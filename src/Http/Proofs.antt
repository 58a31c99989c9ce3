-- ===== src/Http/Proofs.antt =====
-- src/http.rs: rotation proofs, `ITUB` and consistency proofs.
use ahl_mirror.Prelude.{
  ℕ, Text, Option, none, some, List, [], ◌++◌, not, ◌==◌, ltb, map, codes, saturating_add,
}
use ahl_mirror.Error.{
  MirrorResult, ok, ok_or, refuse_if, unknown_rotation_proof, incomplete_entries,
  tree_material_missing, checkpoint_root_mismatch, consistency_order, ◌>>=◌, ◌>>◌,
}
use ahl_mirror.Deps.{Deps, Hash, from_ahl, from_atl}
use ahl_mirror.Config.{Config}
use ahl_mirror.Store.Schema.{Connection, Checkpoint}
use ahl_mirror.Store.Exec
use ahl_mirror.Store.Exec.{Exec, pure, lift, query}
use ahl_mirror.Store.Reads.{
  count_entries_raw, inclusion_proof_raw, leaf_hashes_range_raw, consistency_proof_measured_raw,
}
use ahl_mirror.Store.Checkpoints.{get_rotation_checkpoint, first}
use ahl_mirror.Range.{RangeProofs}
use ahl_mirror.Series.View
use ahl_mirror.Series.View.{SeriesView, series_view}
use ahl_mirror.Http.Series.{below_floor, series_usable_checkpoint}
use ahl_mirror.Http.Wire
use ahl_mirror.Http.Wire.{status_ok, status_not_found, Web, Response, RotationProofElement}

pub record ConsistencyQuery : Type 0 where
  pub from : ℕ
  pub to : ℕ

module _ (d : Deps) (proofs : RangeProofs) (config : Config d) where
  unfoldable pub rotation_proof_element :
      Connection → ℕ → MirrorResult (RotationProofElement d proofs)
  rotation_proof_element c manifest_entry_index = do
    held ← get_rotation_checkpoint c manifest_entry_index
    checkpoint ← ok_or (unknown_rotation_proof manifest_entry_index) held
    view ← series_view d c config
    below_floor view.equivocation_floor checkpoint.tree_size
    have ← count_entries_raw c 0 checkpoint.tree_size
    refuse_if (not (have == checkpoint.tree_size)) (incomplete_entries have checkpoint.tree_size)
    proof ← inclusion_proof_raw d c manifest_entry_index checkpoint.tree_size
    root ← from_ahl (d.parse_hash_hex checkpoint.root_hash)
    leaves ← leaf_hashes_range_raw c manifest_entry_index (saturating_add manifest_entry_index 1)
    leaf ← ok_or (tree_material_missing 0 manifest_entry_index) (first leaves)
    opens ← from_atl (d.verify_inclusion leaf proof root)
    refuse_if (not opens) (checkpoint_root_mismatch checkpoint.tree_size)
    ok (record {
      manifest_entry_index = manifest_entry_index;
      checkpoint = checkpoint;
      inclusion_path = d.proof_path_hex proof;
      witnesses = [];
    })

  unfoldable pub rotation_proof_handler : ℕ → Exec (Response d proofs)
  rotation_proof_handler manifest_entry_index =
      Exec.◌>>=◌ (query (λ c. rotation_proof_element c manifest_entry_index))
        (λ element. pure (record { status = status_ok; body = Wire.rotation_proof element }))

  -- `found.map_or_else(..)`
  unfoldable pub itub_response : SeriesView → ℕ → Option Checkpoint → Response d proofs
  itub_response view index none = record {
    status = status_not_found;
    body = Wire.itub_undefined index view.frontier_stop;
  }
  itub_response view index (some cp) = record {
    status = status_ok;
    body = Wire.itub index cp.checkpoint_time cp;
  }

  unfoldable pub itub_handler : ℕ → Exec (Response d proofs)
  unfolding itub_response
  itub_handler index =
      Exec.◌>>=◌ (query (λ c. series_view d c config))
        (λ view. pure (itub_response view index (View.itub view index)))

  module _ (web : Web d) where
    -- `format!("sha256:{}", hex::encode(h))`
    abbrev node_text : Hash → Text
    node_text h = codes "sha256:" ++ d.hex_encode h

    -- `consistency_proof(..)` and the rendering of its path.
    unfoldable pub consistency_path :
        Connection → (from_size to_size : ℕ) → MirrorResult (List Text)
    consistency_path c from_size to_size = do
      (proof, cost) ← consistency_proof_measured_raw d c from_size to_size
      ok (map node_text (web.path proof))

    -- The two checkpoints, in one task.
    unfoldable pub consistency_ends :
        Connection → ConsistencyQuery → MirrorResult (Checkpoint × Checkpoint)
    consistency_ends c q = do
      from_cp ← series_usable_checkpoint d c config q.from
      to_cp ← series_usable_checkpoint d c config q.to
      ok (from_cp, to_cp)

    unfoldable pub consistency_handler : ConsistencyQuery → Exec (Response d proofs)
    consistency_handler q =
        Exec.◌>>=◌ (lift (refuse_if (ltb q.to q.from) (consistency_order q.from q.to))) (λ ordered.
          Exec.◌>>=◌ (query (λ c. consistency_ends c q)) (λ ends.
            Exec.◌>>=◌ (query (λ c. consistency_path c ends.0.tree_size ends.1.tree_size)) (λ path.
              pure (record { status = status_ok; body = Wire.consistency q.from q.to path }))))
