-- ===== src/Tests/View.antt =====
-- Instances of the theorems on the frontier and the view of the series.
use ahl_mirror.Prelude.{
  ℕ, ◌≤◌, ◌<◌, ◌-◌, ◌+◌, ◌++◌, List, [], ◌∷◌, Bytes, Text, Option, none, some, Bool, true, false,
  ◌≡◌, ◌≢◌, ◌⊎◌, refl, arith, inl, inr, In, i64_max, codes, map,
}
use ahl_mirror.Error.{ok}
use ahl_mirror.Store.Schema.{Connection, Checkpoint, empty}
use ahl_mirror.Store.Rows.{at_most}
use ahl_mirror.Tests.Reading.{opened_checkpoint}
use ahl_mirror.Store.Checkpoints.{
  member_at, all_checkpoints, insert_checkpoint_raw, insert_rotation_checkpoint_raw,
  get_rotation_checkpoint,
}
use ahl_mirror.Manifest.State.{GovernanceState, rotates}
use ahl_mirror.Manifest.Walk.{versions}
use ahl_mirror.Series.Time.{parse_checkpoint_time}
use ahl_mirror.Series.Frontier.{
  GapFreeResult, FrontierStop, equivocation, reaches, resolve_governance_for,
  compute_gap_free_frontier,
}
use ahl_mirror.Series.Frontier.Reach.{Reached, compute_gap_free_frontier_sound}
use ahl_mirror.Series.View.{
  CheckpointState, series_usable, authenticated, ReportedCheckpoint, SeriesView, series_view, itub,
}
use ahl_mirror.Series.View.Bound.{UsableIn, itub-series_view}
use ahl_mirror.Series.View.Equivocation.{series_view_avoids_equivocation}
use ahl_mirror.Tests.Toy.{toy, hash_of, write_time}
use ahl_mirror.Tests.Data.{checkpoint_at, checkpoint, entry_store, config}

abbrev pub other : Checkpoint
other = checkpoint_at 1 (hash_of 4)

abbrev reached : GapFreeResult
reached = record { frontier = some 1; stop = none }

compute_gap_free_frontier_sound_example :
    (reaches toy none 1 ≡ false)
    × ((first : Checkpoint) × (rest : List Checkpoint) × (governance genesis : GovernanceState toy)
        × (first_time : ℕ) × (checkpoint ∷ [] ≡ first ∷ rest)
        × (resolve_governance_for toy entry_store config first.tree_size ≡ ok (some governance))
        × (resolve_governance_for toy entry_store config (governance.genesis_entry_index + 1)
            ≡ ok (some genesis))
        × (parse_checkpoint_time toy first.checkpoint_time ≡ ok first_time)
        × (genesis.cadence_epoch_nanos ≤ first_time)
        × (first_time - genesis.cadence_epoch_nanos ≤ genesis.cadence_nanos)
        × Reached toy entry_store config none first first_time rest 1)
unfolding ahl_mirror.Prelude.find_row ahl_mirror.Prelude.select ahl_mirror.Prelude.eq_bytes
    ahl_mirror.Prelude.le_bytes ahl_mirror.Manifest.State.key_with_id
    ahl_mirror.Manifest.State.remove_key ahl_mirror.Manifest.State.insert_key
    ahl_mirror.Manifest.State.resolve_log_key ahl_mirror.Manifest.State.eq_tuple
    ahl_mirror.Manifest.State.log_key_set ahl_mirror.Manifest.State.witness_key_set
    ahl_mirror.Manifest.State.has_tuple ahl_mirror.Manifest.State.all_in
    ahl_mirror.Manifest.State.same_set ahl_mirror.Manifest.State.rotates
    ahl_mirror.Manifest.Parse.parse_rfc3339_nanos ahl_mirror.Manifest.Parse.producer_map
    ahl_mirror.Manifest.Parse.witness_block_keys ahl_mirror.Manifest.Parse.all_witness_keys
    ahl_mirror.Manifest.Parse.parse_witnesses ahl_mirror.Manifest.Parse.parse_governance
    ahl_mirror.Manifest.Parse.check_statement_version ahl_mirror.Manifest.Walk.resolver_from
    ahl_mirror.Manifest.Walk.try_apply_genesis ahl_mirror.Manifest.Walk.apply_successor
    ahl_mirror.Manifest.Walk.try_apply_manifest ahl_mirror.Manifest.Walk.apply_action
    ahl_mirror.Manifest.Walk.apply_key_content ahl_mirror.Manifest.Walk.try_apply_key
    ahl_mirror.Manifest.Walk.snapshot ahl_mirror.Manifest.Walk.apply_manifest_entry
    ahl_mirror.Manifest.Walk.apply_key_entry ahl_mirror.Manifest.Walk.apply_kind
    ahl_mirror.Manifest.Walk.step ahl_mirror.Manifest.Walk.walk ahl_mirror.Manifest.Walk.resolve
    ahl_mirror.Manifest.Walk.versions ahl_mirror.Duration.take_component
    ahl_mirror.Duration.add_component ahl_mirror.Duration.parse_seconds
    ahl_mirror.Duration.parse_time ahl_mirror.Duration.parse_date
    ahl_mirror.Duration.parse_iso8601_duration_nanos
    ahl_mirror.Duration.parse_checkpoint_cadence_nanos ahl_mirror.Duration.Strings.all_digits
    ahl_mirror.Duration.Strings.contains ahl_mirror.Duration.Strings.split_once
    ahl_mirror.Duration.Strings.strip_suffix ahl_mirror.Duration.Strings.parse_digits
    ahl_mirror.Duration.Strings.parse_u64 ahl_mirror.Duration.Strings.pad_zeros
    ahl_mirror.Config.resolve_key ahl_mirror.Config.resolve_keys ahl_mirror.Series.Time.literal_at
    ahl_mirror.Series.Time.all_fit ahl_mirror.Series.Time.has_profile_time_shape
    ahl_mirror.Series.Time.render_checkpoint_time ahl_mirror.Series.Time.parse_checkpoint_time
    ahl_mirror.Series.Signature.le_octets ahl_mirror.Series.Signature.checkpoint_blob
    ahl_mirror.Series.Signature.verify_checkpoint_signature ahl_mirror.Store.Rows.staged_at
    ahl_mirror.Store.Rows.entry_at ahl_mirror.Store.Rows.entry_by_id ahl_mirror.Store.Rows.max_index
    ahl_mirror.Store.Rows.node_at ahl_mirror.Store.Rows.replace_node
    ahl_mirror.Store.Rows.insert_ordered ahl_mirror.Store.Rows.order_by
    ahl_mirror.Store.Rows.at_most ahl_mirror.Store.Rows.rows_between
    ahl_mirror.Store.Reads.count_entries_raw ahl_mirror.Store.Reads.get_entries_range_raw
    ahl_mirror.Store.Reads.leaf_hashes_of ahl_mirror.Store.Reads.leaf_hashes_range_raw
    ahl_mirror.Store.Reads.node_is_complete ahl_mirror.Store.Reads.get_node
    ahl_mirror.Store.Reads.run_walk ahl_mirror.Store.Reads.with_tree_nodes
    ahl_mirror.Store.Reads.inclusion_proof_raw ahl_mirror.Store.Reads.subtree_root_raw
    ahl_mirror.Store.Reads.log_root_raw ahl_mirror.Store.Reads.consistency_proof_measured_raw
    ahl_mirror.Store.Reads.require_blocks ahl_mirror.Store.Reads.require_subtree_cache_raw
    ahl_mirror.Store.Checkpoints.member_at ahl_mirror.Store.Checkpoints.insert_checkpoint_raw
    ahl_mirror.Store.Checkpoints.get_checkpoint ahl_mirror.Store.Checkpoints.all_checkpoints
    ahl_mirror.Store.Checkpoints.anchors_of ahl_mirror.Store.Checkpoints.earliest
    ahl_mirror.Store.Checkpoints.insert_rotation_checkpoint_raw
    ahl_mirror.Store.Checkpoints.get_rotation_checkpoint
    ahl_mirror.Store.Checkpoints.all_rotation_checkpoints ahl_mirror.Store.Nodes.tree_node_raw
    ahl_mirror.Series.View.judge ahl_mirror.Series.View.usable_of ahl_mirror.Series.View.label
    ahl_mirror.Series.View.authenticated_checkpoints ahl_mirror.Series.View.series_view
    ahl_mirror.Series.View.itub ahl_mirror.Series.Usable.holds_prefix
    ahl_mirror.Series.Usable.is_storage_fault ahl_mirror.Series.Usable.root_matches_stored
    ahl_mirror.Series.Usable.series_consistency_stored ahl_mirror.Series.Usable.series_usable_stored
    ahl_mirror.Series.Divergence.last ahl_mirror.Series.Divergence.diverges
    ahl_mirror.Series.Divergence.scan ahl_mirror.Series.Divergence.find_root_divergences
    ahl_mirror.Series.Divergence.minimum ahl_mirror.Series.Frontier.unresolved_as_none
    ahl_mirror.Series.Frontier.resolve_governance_for ahl_mirror.Series.Frontier.extend
    ahl_mirror.Series.Frontier.start_series ahl_mirror.Series.Frontier.compute_gap_free_frontier
compute_gap_free_frontier_sound_example =
    compute_gap_free_frontier_sound toy entry_store config none (checkpoint ∷ []) reached 1 refl
      refl

-- A later checkpoint of the same tree, which the store holds first.
abbrev later : Checkpoint
later = record opened_checkpoint { checkpoint_time = write_time 6 }

abbrev twice : Connection
twice = record entry_store { checkpoints = later ∷ opened_checkpoint ∷ [] }

abbrev twice_view : SeriesView
twice_view = record {
  members =
      record { checkpoint = opened_checkpoint; state = series_usable }
      ∷ record { checkpoint = later; state = series_usable }
      ∷ [];
  gap_free_frontier = some 1;
  frontier_stop = none;
  root_divergences = [];
  equivocation_floor = none;
}

itub-series_view_example :
    (map (λ (m : ReportedCheckpoint). m.checkpoint) twice_view.members ≡ all_checkpoints twice)
    × ((cp : Checkpoint)
        → itub twice_view 0 ≡ some cp
        → (frontier : ℕ) × (twice_view.gap_free_frontier ≡ some frontier)
          × (0 < cp.tree_size)
          × (cp.tree_size ≤ frontier)
          × UsableIn cp twice_view.members
          × ((held : Checkpoint)
              → UsableIn held twice_view.members
              → 0 < held.tree_size
              → held.tree_size ≤ frontier
              → at_most cp held ≡ true))
    × ((frontier : ℕ) (held : Checkpoint)
        → twice_view.gap_free_frontier ≡ some frontier
        → UsableIn held twice_view.members
        → 0 < held.tree_size
        → held.tree_size ≤ frontier
        → (cp : Checkpoint) × (itub twice_view 0 ≡ some cp))
unfolding ahl_mirror.Prelude.find_row ahl_mirror.Prelude.select ahl_mirror.Prelude.eq_bytes
    ahl_mirror.Prelude.le_bytes ahl_mirror.Manifest.State.key_with_id
    ahl_mirror.Manifest.State.remove_key ahl_mirror.Manifest.State.insert_key
    ahl_mirror.Manifest.State.resolve_log_key ahl_mirror.Manifest.State.eq_tuple
    ahl_mirror.Manifest.State.log_key_set ahl_mirror.Manifest.State.witness_key_set
    ahl_mirror.Manifest.State.has_tuple ahl_mirror.Manifest.State.all_in
    ahl_mirror.Manifest.State.same_set ahl_mirror.Manifest.State.rotates
    ahl_mirror.Manifest.Parse.parse_rfc3339_nanos ahl_mirror.Manifest.Parse.producer_map
    ahl_mirror.Manifest.Parse.witness_block_keys ahl_mirror.Manifest.Parse.all_witness_keys
    ahl_mirror.Manifest.Parse.parse_witnesses ahl_mirror.Manifest.Parse.parse_governance
    ahl_mirror.Manifest.Parse.check_statement_version ahl_mirror.Manifest.Walk.resolver_from
    ahl_mirror.Manifest.Walk.try_apply_genesis ahl_mirror.Manifest.Walk.apply_successor
    ahl_mirror.Manifest.Walk.try_apply_manifest ahl_mirror.Manifest.Walk.apply_action
    ahl_mirror.Manifest.Walk.apply_key_content ahl_mirror.Manifest.Walk.try_apply_key
    ahl_mirror.Manifest.Walk.snapshot ahl_mirror.Manifest.Walk.apply_manifest_entry
    ahl_mirror.Manifest.Walk.apply_key_entry ahl_mirror.Manifest.Walk.apply_kind
    ahl_mirror.Manifest.Walk.step ahl_mirror.Manifest.Walk.walk ahl_mirror.Manifest.Walk.resolve
    ahl_mirror.Manifest.Walk.versions ahl_mirror.Duration.take_component
    ahl_mirror.Duration.add_component ahl_mirror.Duration.parse_seconds
    ahl_mirror.Duration.parse_time ahl_mirror.Duration.parse_date
    ahl_mirror.Duration.parse_iso8601_duration_nanos
    ahl_mirror.Duration.parse_checkpoint_cadence_nanos ahl_mirror.Duration.Strings.all_digits
    ahl_mirror.Duration.Strings.contains ahl_mirror.Duration.Strings.split_once
    ahl_mirror.Duration.Strings.strip_suffix ahl_mirror.Duration.Strings.parse_digits
    ahl_mirror.Duration.Strings.parse_u64 ahl_mirror.Duration.Strings.pad_zeros
    ahl_mirror.Config.resolve_key ahl_mirror.Config.resolve_keys ahl_mirror.Series.Time.literal_at
    ahl_mirror.Series.Time.all_fit ahl_mirror.Series.Time.has_profile_time_shape
    ahl_mirror.Series.Time.render_checkpoint_time ahl_mirror.Series.Time.parse_checkpoint_time
    ahl_mirror.Series.Signature.le_octets ahl_mirror.Series.Signature.checkpoint_blob
    ahl_mirror.Series.Signature.verify_checkpoint_signature ahl_mirror.Store.Rows.staged_at
    ahl_mirror.Store.Rows.entry_at ahl_mirror.Store.Rows.entry_by_id ahl_mirror.Store.Rows.max_index
    ahl_mirror.Store.Rows.node_at ahl_mirror.Store.Rows.replace_node
    ahl_mirror.Store.Rows.insert_ordered ahl_mirror.Store.Rows.order_by
    ahl_mirror.Store.Rows.at_most ahl_mirror.Store.Rows.rows_between
    ahl_mirror.Store.Reads.count_entries_raw ahl_mirror.Store.Reads.get_entries_range_raw
    ahl_mirror.Store.Reads.leaf_hashes_of ahl_mirror.Store.Reads.leaf_hashes_range_raw
    ahl_mirror.Store.Reads.node_is_complete ahl_mirror.Store.Reads.get_node
    ahl_mirror.Store.Reads.run_walk ahl_mirror.Store.Reads.with_tree_nodes
    ahl_mirror.Store.Reads.inclusion_proof_raw ahl_mirror.Store.Reads.subtree_root_raw
    ahl_mirror.Store.Reads.log_root_raw ahl_mirror.Store.Reads.consistency_proof_measured_raw
    ahl_mirror.Store.Reads.require_blocks ahl_mirror.Store.Reads.require_subtree_cache_raw
    ahl_mirror.Store.Checkpoints.member_at ahl_mirror.Store.Checkpoints.insert_checkpoint_raw
    ahl_mirror.Store.Checkpoints.get_checkpoint ahl_mirror.Store.Checkpoints.all_checkpoints
    ahl_mirror.Store.Checkpoints.anchors_of ahl_mirror.Store.Checkpoints.earliest
    ahl_mirror.Store.Checkpoints.insert_rotation_checkpoint_raw
    ahl_mirror.Store.Checkpoints.get_rotation_checkpoint
    ahl_mirror.Store.Checkpoints.all_rotation_checkpoints ahl_mirror.Store.Nodes.tree_node_raw
    ahl_mirror.Series.View.judge ahl_mirror.Series.View.usable_of ahl_mirror.Series.View.label
    ahl_mirror.Series.View.authenticated_checkpoints ahl_mirror.Series.View.series_view
    ahl_mirror.Series.View.itub ahl_mirror.Series.Usable.holds_prefix
    ahl_mirror.Series.Usable.is_storage_fault ahl_mirror.Series.Usable.root_matches_stored
    ahl_mirror.Series.Usable.series_consistency_stored ahl_mirror.Series.Usable.series_usable_stored
    ahl_mirror.Series.Divergence.last ahl_mirror.Series.Divergence.diverges
    ahl_mirror.Series.Divergence.scan ahl_mirror.Series.Divergence.find_root_divergences
    ahl_mirror.Series.Divergence.minimum ahl_mirror.Series.Frontier.unresolved_as_none
    ahl_mirror.Series.Frontier.resolve_governance_for ahl_mirror.Series.Frontier.extend
    ahl_mirror.Series.Frontier.start_series ahl_mirror.Series.Frontier.compute_gap_free_frontier
    ahl_mirror.Metadata.log_leaf_hash ahl_mirror.Metadata.metadata_hash
itub-series_view_example = itub-series_view toy twice config twice_view 0 refl

-- Of the two members that qualify, the earlier one is the bound, although it was stored later.
earlier_governs : itub twice_view 0 ≡ some opened_checkpoint
unfolding itub ahl_mirror.Series.View.usable_of ahl_mirror.Prelude.find_row
earlier_governs = refl

-- Two members of one size and two roots.
abbrev pub split_store : Connection
split_store = record empty { checkpoints = checkpoint ∷ other ∷ [] }

abbrev split_view : SeriesView
split_view = record {
  members =
      record { checkpoint = checkpoint; state = authenticated }
      ∷ record { checkpoint = other; state = authenticated }
      ∷ [];
  gap_free_frontier = none;
  frontier_stop = some (equivocation 1);
  root_divergences = 1 ∷ [];
  equivocation_floor = some 1;
}

pub roots_apart : checkpoint.root_hash ≢ other.root_hash
roots_apart p = cc

series_view_avoids_equivocation_example :
    ((floor : ℕ) × (split_view.equivocation_floor ≡ some floor) × (floor ≤ 1))
    × ((frontier : ℕ) → split_view.gap_free_frontier ≡ some frontier → frontier < 1)
    × ((index : ℕ) (cp : Checkpoint) → itub split_view index ≡ some cp → cp.tree_size < 1)
unfolding ahl_mirror.Prelude.find_row ahl_mirror.Prelude.select ahl_mirror.Prelude.eq_bytes
    ahl_mirror.Prelude.le_bytes ahl_mirror.Store.Rows.staged_at ahl_mirror.Store.Rows.entry_at
    ahl_mirror.Store.Rows.entry_by_id ahl_mirror.Store.Rows.max_index ahl_mirror.Store.Rows.node_at
    ahl_mirror.Store.Rows.replace_node ahl_mirror.Store.Rows.insert_ordered
    ahl_mirror.Store.Rows.order_by ahl_mirror.Store.Rows.at_most ahl_mirror.Store.Rows.rows_between
    ahl_mirror.Store.Reads.count_entries_raw ahl_mirror.Store.Reads.get_entries_range_raw
    ahl_mirror.Store.Reads.leaf_hashes_of ahl_mirror.Store.Reads.leaf_hashes_range_raw
    ahl_mirror.Store.Reads.node_is_complete ahl_mirror.Store.Reads.get_node
    ahl_mirror.Store.Reads.run_walk ahl_mirror.Store.Reads.with_tree_nodes
    ahl_mirror.Store.Reads.inclusion_proof_raw ahl_mirror.Store.Reads.subtree_root_raw
    ahl_mirror.Store.Reads.log_root_raw ahl_mirror.Store.Reads.consistency_proof_measured_raw
    ahl_mirror.Store.Reads.require_blocks ahl_mirror.Store.Reads.require_subtree_cache_raw
    ahl_mirror.Store.Checkpoints.member_at ahl_mirror.Store.Checkpoints.insert_checkpoint_raw
    ahl_mirror.Store.Checkpoints.get_checkpoint ahl_mirror.Store.Checkpoints.all_checkpoints
    ahl_mirror.Store.Checkpoints.anchors_of ahl_mirror.Store.Checkpoints.earliest
    ahl_mirror.Store.Checkpoints.insert_rotation_checkpoint_raw
    ahl_mirror.Store.Checkpoints.get_rotation_checkpoint
    ahl_mirror.Store.Checkpoints.all_rotation_checkpoints ahl_mirror.Store.Nodes.tree_node_raw
    ahl_mirror.Series.View.judge ahl_mirror.Series.View.usable_of ahl_mirror.Series.View.label
    ahl_mirror.Series.View.authenticated_checkpoints ahl_mirror.Series.View.series_view
    ahl_mirror.Series.View.itub ahl_mirror.Series.Usable.holds_prefix
    ahl_mirror.Series.Usable.is_storage_fault ahl_mirror.Series.Usable.root_matches_stored
    ahl_mirror.Series.Usable.series_consistency_stored ahl_mirror.Series.Usable.series_usable_stored
    ahl_mirror.Series.Divergence.last ahl_mirror.Series.Divergence.diverges
    ahl_mirror.Series.Divergence.scan ahl_mirror.Series.Divergence.find_root_divergences
    ahl_mirror.Series.Divergence.minimum ahl_mirror.Series.Frontier.unresolved_as_none
    ahl_mirror.Series.Frontier.resolve_governance_for ahl_mirror.Series.Frontier.extend
    ahl_mirror.Series.Frontier.start_series ahl_mirror.Series.Frontier.compute_gap_free_frontier
series_view_avoids_equivocation_example =
    series_view_avoids_equivocation toy split_store config split_view checkpoint other refl
      (inl (inl refl)) (inl (inr (inl refl))) refl roots_apart
