-- ===== src/Tests/Checkpoints.antt =====
-- Instances of the theorems on the checkpoint tables, governance and admission.
use ahl_mirror.Prelude.{
  ℕ, ◌≤◌, ◌<◌, ◌-◌, ◌+◌, ◌++◌, List, [], ◌∷◌, Bytes, Text, Option, none, some, Bool, true, false,
  ◌≡◌, ◌≢◌, ◌⊎◌, refl, arith, inl, inr, In, i64_max, codes,
}
use ahl_mirror.Error.{ok, is_ok, not_staged}
use ahl_mirror.Deps.{Hash, from_ahl}
use ahl_mirror.Store.Schema.{Checkpoint, inserted, empty}
use ahl_mirror.Store.Checkpoints.{
  member_at, insert_checkpoint_raw, insert_rotation_checkpoint_raw, get_rotation_checkpoint,
}
use ahl_mirror.Store.Checkpoints.Members.{insert_checkpoint_keeps_members}
use ahl_mirror.Store.Checkpoints.Order.{earlier}
use ahl_mirror.Store.Checkpoints.Anchors.{held_for, get_rotation_checkpoint-insert}
use ahl_mirror.Ingest.History.{IsSound, run, run-IsSound}
use ahl_mirror.Manifest.State.{GovernanceState, rotates}
use ahl_mirror.Manifest.Walk.{versions}
use ahl_mirror.Manifest.Chain.{Linked, versions-Linked}
use ahl_mirror.Series.Admit.{
  PendingPromotion, Admission, decide_admission, build_visible_prefix, last_version,
  rotation_anchors_for, verifies_under, ingest_checkpoint,
}
use ahl_mirror.Series.Admit.Outcome.{
  ingest_checkpoint-IsSound, ingest_checkpoint_leaves_no_trace, decide_admission_sound,
}
use ahl_mirror.Series.Admit.Anchors.{Adjacent, rotation_anchors_for_sound}
use ahl_mirror.Series.Time.{parse_checkpoint_time}
use ahl_mirror.Tests.Toy.{toy, hash_of}
use ahl_mirror.Tests.Data.{
  envelope, root, checkpoint_at, checkpoint, entry_store, promoting, key_from, config, version_at,
  genesis_version,
}

abbrev other : Checkpoint
other = checkpoint_at 1 (hash_of 4)

insert_checkpoint_keeps_members_example :
    member_at
      (insert_checkpoint_raw other (record empty { checkpoints = checkpoint ∷ [] })).1
      1
      checkpoint.checkpoint_time
    ≡ some checkpoint
unfolding member_at ahl_mirror.Prelude.find_row ahl_mirror.Prelude.eq_bytes
insert_checkpoint_keeps_members_example =
    insert_checkpoint_keeps_members (record empty { checkpoints = checkpoint ∷ [] }) other
      checkpoint 1 checkpoint.checkpoint_time refl

get_rotation_checkpoint-insert_example :
    (get_rotation_checkpoint (insert_rotation_checkpoint_raw 0 checkpoint empty).1 0
      ≡ ok (some (earlier (held_for empty 0) checkpoint)))
    × ((index : ℕ)
        → index ≢ 0
        → get_rotation_checkpoint (insert_rotation_checkpoint_raw 0 checkpoint empty).1 index
          ≡ get_rotation_checkpoint empty index)
    × ((insert_rotation_checkpoint_raw 0 checkpoint empty).1.checkpoints ≡ [])
unfolding insert_rotation_checkpoint_raw ahl_mirror.Prelude.find_row
    ahl_mirror.Store.Checkpoints.anchors_of ahl_mirror.Store.Checkpoints.earliest
    ahl_mirror.Store.Rows.order_by
get_rotation_checkpoint-insert_example =
    get_rotation_checkpoint-insert empty 0 checkpoint inserted refl

ingest_checkpoint-IsSound_example :
    IsSound toy (ingest_checkpoint toy config checkpoint none [] none (run toy empty promoting)).1
ingest_checkpoint-IsSound_example =
    ingest_checkpoint-IsSound toy config checkpoint none [] none (run toy empty promoting)
      (run-IsSound toy promoting)

abbrev missing : PendingPromotion
missing = record { entry_id = codes "missing"; leaf_index = 0; inclusion_path = [] }

ingest_checkpoint_leaves_no_trace_example :
    (ingest_checkpoint toy config checkpoint none (missing ∷ []) none empty).1 ≡ empty
unfolding ingest_checkpoint decide_admission build_visible_prefix
    ahl_mirror.Store.Reads.get_entries_range_raw ahl_mirror.Series.Admit.fill_overlay
    ahl_mirror.Store.Rows.rows_between ahl_mirror.Store.Rows.order_by ahl_mirror.Prelude.select
    ahl_mirror.Series.Admit.overlay_at ahl_mirror.Store.Entries.get_staged_raw
    ahl_mirror.Store.Rows.staged_at ahl_mirror.Prelude.find_row
ingest_checkpoint_leaves_no_trace_example =
    ingest_checkpoint_leaves_no_trace toy config checkpoint none (missing ∷ []) none empty
      (not_staged (codes "missing")) refl

abbrev member : Admission
member = record { series_member = true; rotation_anchors = [] }

decide_admission_sound_example :
    (opened : Hash) × (prefix : List Bytes) × (history : List (GovernanceState toy))
    × (governance : GovernanceState toy) × (from_ahl (toy.parse_hash_hex root) ≡ ok opened)
    × (build_visible_prefix toy entry_store [] 1 opened ≡ ok prefix)
    × (versions toy prefix config ≡ ok history)
    × (last_version toy history ≡ some governance)
    × (rotation_anchors_for toy history config checkpoint none none ≡ ok [])
    × (true ≡ is_ok (verifies_under toy governance config checkpoint none))
    × ((true ≡ false) → member.rotation_anchors ≢ [])
    × (1 ≤ i64_max)
unfolding ahl_mirror.Prelude.find_row ahl_mirror.Prelude.select ahl_mirror.Prelude.eq_bytes
    ahl_mirror.Prelude.le_bytes ahl_mirror.Manifest.State.key_with_id
    ahl_mirror.Manifest.State.remove_key ahl_mirror.Manifest.State.insert_key
    ahl_mirror.Manifest.State.resolve_log_key ahl_mirror.Manifest.State.eq_tuple
    ahl_mirror.Manifest.State.log_key_set ahl_mirror.Manifest.State.witness_key_set
    ahl_mirror.Manifest.State.has_tuple ahl_mirror.Manifest.State.all_in
    ahl_mirror.Manifest.State.same_set ahl_mirror.Manifest.State.rotates
    ahl_mirror.Manifest.Parse.parse_rfc3339_nanos ahl_mirror.Manifest.Parse.producer_map
    ahl_mirror.Manifest.Parse.witness_block_keys ahl_mirror.Manifest.Parse.all_witness_keys
    ahl_mirror.Manifest.Parse.parse_witnesses ahl_mirror.Manifest.Parse.parse_governance
    ahl_mirror.Manifest.Parse.check_statement_version ahl_mirror.Manifest.Walk.resolver_from
    ahl_mirror.Manifest.Walk.try_apply_genesis ahl_mirror.Manifest.Walk.apply_successor
    ahl_mirror.Manifest.Walk.try_apply_manifest ahl_mirror.Manifest.Walk.apply_action
    ahl_mirror.Manifest.Walk.apply_key_content ahl_mirror.Manifest.Walk.try_apply_key
    ahl_mirror.Manifest.Walk.snapshot ahl_mirror.Manifest.Walk.apply_manifest_entry
    ahl_mirror.Manifest.Walk.apply_key_entry ahl_mirror.Manifest.Walk.apply_kind
    ahl_mirror.Manifest.Walk.step ahl_mirror.Manifest.Walk.walk ahl_mirror.Manifest.Walk.resolve
    ahl_mirror.Manifest.Walk.versions ahl_mirror.Duration.take_component
    ahl_mirror.Duration.add_component ahl_mirror.Duration.parse_seconds
    ahl_mirror.Duration.parse_time ahl_mirror.Duration.parse_date
    ahl_mirror.Duration.parse_iso8601_duration_nanos
    ahl_mirror.Duration.parse_checkpoint_cadence_nanos ahl_mirror.Duration.Strings.all_digits
    ahl_mirror.Duration.Strings.contains ahl_mirror.Duration.Strings.split_once
    ahl_mirror.Duration.Strings.strip_suffix ahl_mirror.Duration.Strings.parse_digits
    ahl_mirror.Duration.Strings.parse_u64 ahl_mirror.Duration.Strings.pad_zeros
    ahl_mirror.Config.resolve_key ahl_mirror.Config.resolve_keys ahl_mirror.Series.Time.literal_at
    ahl_mirror.Series.Time.all_fit ahl_mirror.Series.Time.has_profile_time_shape
    ahl_mirror.Series.Time.render_checkpoint_time ahl_mirror.Series.Time.parse_checkpoint_time
    ahl_mirror.Series.Signature.le_octets ahl_mirror.Series.Signature.checkpoint_blob
    ahl_mirror.Series.Signature.verify_checkpoint_signature ahl_mirror.Store.Rows.staged_at
    ahl_mirror.Store.Rows.entry_at ahl_mirror.Store.Rows.entry_by_id ahl_mirror.Store.Rows.max_index
    ahl_mirror.Store.Rows.node_at ahl_mirror.Store.Rows.replace_node
    ahl_mirror.Store.Rows.insert_ordered ahl_mirror.Store.Rows.order_by
    ahl_mirror.Store.Rows.at_most ahl_mirror.Store.Rows.rows_between
    ahl_mirror.Store.Reads.count_entries_raw ahl_mirror.Store.Reads.get_entries_range_raw
    ahl_mirror.Store.Reads.leaf_hashes_of ahl_mirror.Store.Reads.leaf_hashes_range_raw
    ahl_mirror.Store.Reads.node_is_complete ahl_mirror.Store.Reads.get_node
    ahl_mirror.Store.Reads.run_walk ahl_mirror.Store.Reads.with_tree_nodes
    ahl_mirror.Store.Reads.inclusion_proof_raw ahl_mirror.Store.Reads.subtree_root_raw
    ahl_mirror.Store.Reads.log_root_raw ahl_mirror.Store.Reads.consistency_proof_measured_raw
    ahl_mirror.Store.Reads.require_blocks ahl_mirror.Store.Reads.require_subtree_cache_raw
    ahl_mirror.Store.Checkpoints.member_at ahl_mirror.Store.Checkpoints.insert_checkpoint_raw
    ahl_mirror.Store.Checkpoints.get_checkpoint ahl_mirror.Store.Checkpoints.all_checkpoints
    ahl_mirror.Store.Checkpoints.anchors_of ahl_mirror.Store.Checkpoints.earliest
    ahl_mirror.Store.Checkpoints.insert_rotation_checkpoint_raw
    ahl_mirror.Store.Checkpoints.get_rotation_checkpoint
    ahl_mirror.Store.Checkpoints.all_rotation_checkpoints ahl_mirror.Store.Nodes.tree_node_raw
    ahl_mirror.Series.Admit.overlay_at ahl_mirror.Series.Admit.extend_prefix
    ahl_mirror.Series.Admit.fill_overlay ahl_mirror.Series.Admit.build_visible_prefix
    ahl_mirror.Series.Admit.rotations_in ahl_mirror.Series.Admit.verifies_under
    ahl_mirror.Series.Admit.disqualified ahl_mirror.Series.Admit.collect_anchors
    ahl_mirror.Series.Admit.contains_index ahl_mirror.Series.Admit.report_named
    ahl_mirror.Series.Admit.rotation_anchors_for ahl_mirror.Series.Admit.last_version
    ahl_mirror.Series.Admit.decide_admission ahl_mirror.Series.Admit.promote_all
    ahl_mirror.Series.Admit.check_root ahl_mirror.Series.Admit.record_member
    ahl_mirror.Series.Admit.record_anchors ahl_mirror.Series.Admit.commit_admission
    ahl_mirror.Series.Admit.ingest_checkpoint
decide_admission_sound_example =
    decide_admission_sound toy entry_store config checkpoint none [] none member refl

versions-Linked_example :
    Linked toy (genesis_version ∷ [])
    × ((first : GovernanceState toy) × (rest : List (GovernanceState toy)) × (genesis_version ∷ []
          ≡ first ∷ rest)
        × (first.governing_manifest_entry_id ≡ envelope)
        × (first.governing_manifest_entry_index ≡ first.genesis_entry_index))
unfolding ahl_mirror.Prelude.find_row ahl_mirror.Prelude.select ahl_mirror.Prelude.eq_bytes
    ahl_mirror.Prelude.le_bytes ahl_mirror.Manifest.State.key_with_id
    ahl_mirror.Manifest.State.remove_key ahl_mirror.Manifest.State.insert_key
    ahl_mirror.Manifest.State.resolve_log_key ahl_mirror.Manifest.State.eq_tuple
    ahl_mirror.Manifest.State.log_key_set ahl_mirror.Manifest.State.witness_key_set
    ahl_mirror.Manifest.State.has_tuple ahl_mirror.Manifest.State.all_in
    ahl_mirror.Manifest.State.same_set ahl_mirror.Manifest.State.rotates
    ahl_mirror.Manifest.Parse.parse_rfc3339_nanos ahl_mirror.Manifest.Parse.producer_map
    ahl_mirror.Manifest.Parse.witness_block_keys ahl_mirror.Manifest.Parse.all_witness_keys
    ahl_mirror.Manifest.Parse.parse_witnesses ahl_mirror.Manifest.Parse.parse_governance
    ahl_mirror.Manifest.Parse.check_statement_version ahl_mirror.Manifest.Walk.resolver_from
    ahl_mirror.Manifest.Walk.try_apply_genesis ahl_mirror.Manifest.Walk.apply_successor
    ahl_mirror.Manifest.Walk.try_apply_manifest ahl_mirror.Manifest.Walk.apply_action
    ahl_mirror.Manifest.Walk.apply_key_content ahl_mirror.Manifest.Walk.try_apply_key
    ahl_mirror.Manifest.Walk.snapshot ahl_mirror.Manifest.Walk.apply_manifest_entry
    ahl_mirror.Manifest.Walk.apply_key_entry ahl_mirror.Manifest.Walk.apply_kind
    ahl_mirror.Manifest.Walk.step ahl_mirror.Manifest.Walk.walk ahl_mirror.Manifest.Walk.resolve
    ahl_mirror.Manifest.Walk.versions ahl_mirror.Duration.take_component
    ahl_mirror.Duration.add_component ahl_mirror.Duration.parse_seconds
    ahl_mirror.Duration.parse_time ahl_mirror.Duration.parse_date
    ahl_mirror.Duration.parse_iso8601_duration_nanos
    ahl_mirror.Duration.parse_checkpoint_cadence_nanos ahl_mirror.Duration.Strings.all_digits
    ahl_mirror.Duration.Strings.contains ahl_mirror.Duration.Strings.split_once
    ahl_mirror.Duration.Strings.strip_suffix ahl_mirror.Duration.Strings.parse_digits
    ahl_mirror.Duration.Strings.parse_u64 ahl_mirror.Duration.Strings.pad_zeros
    ahl_mirror.Config.resolve_key ahl_mirror.Config.resolve_keys
versions-Linked_example = versions-Linked toy (envelope ∷ []) config (genesis_version ∷ []) refl

-- A second version with other log keys, at entry 3.
abbrev rotated : GovernanceState toy
rotated = version_at 3 (key_from 1 ∷ [])

rotation_anchors_for_sound_example :
    ((index : ℕ)
      → In index (3 ∷ [])
      → (outgoing incoming : GovernanceState toy) × Adjacent toy outgoing incoming
          (genesis_version ∷ rotated ∷ [])
        × (rotates toy incoming outgoing ≡ true)
        × (incoming.governing_manifest_entry_index ≡ index)
        × (index < 5)
        × (verifies_under toy outgoing config (checkpoint_at 5 root) none ≡ ok tt))
    × ((index : ℕ) → some 3 ≡ some index → In index (3 ∷ []))
unfolding ahl_mirror.Prelude.find_row ahl_mirror.Prelude.select ahl_mirror.Prelude.eq_bytes
    ahl_mirror.Prelude.le_bytes ahl_mirror.Manifest.State.key_with_id
    ahl_mirror.Manifest.State.remove_key ahl_mirror.Manifest.State.insert_key
    ahl_mirror.Manifest.State.resolve_log_key ahl_mirror.Manifest.State.eq_tuple
    ahl_mirror.Manifest.State.log_key_set ahl_mirror.Manifest.State.witness_key_set
    ahl_mirror.Manifest.State.has_tuple ahl_mirror.Manifest.State.all_in
    ahl_mirror.Manifest.State.same_set ahl_mirror.Manifest.State.rotates
    ahl_mirror.Manifest.Parse.parse_rfc3339_nanos ahl_mirror.Manifest.Parse.producer_map
    ahl_mirror.Manifest.Parse.witness_block_keys ahl_mirror.Manifest.Parse.all_witness_keys
    ahl_mirror.Manifest.Parse.parse_witnesses ahl_mirror.Manifest.Parse.parse_governance
    ahl_mirror.Manifest.Parse.check_statement_version ahl_mirror.Manifest.Walk.resolver_from
    ahl_mirror.Manifest.Walk.try_apply_genesis ahl_mirror.Manifest.Walk.apply_successor
    ahl_mirror.Manifest.Walk.try_apply_manifest ahl_mirror.Manifest.Walk.apply_action
    ahl_mirror.Manifest.Walk.apply_key_content ahl_mirror.Manifest.Walk.try_apply_key
    ahl_mirror.Manifest.Walk.snapshot ahl_mirror.Manifest.Walk.apply_manifest_entry
    ahl_mirror.Manifest.Walk.apply_key_entry ahl_mirror.Manifest.Walk.apply_kind
    ahl_mirror.Manifest.Walk.step ahl_mirror.Manifest.Walk.walk ahl_mirror.Manifest.Walk.resolve
    ahl_mirror.Manifest.Walk.versions ahl_mirror.Duration.take_component
    ahl_mirror.Duration.add_component ahl_mirror.Duration.parse_seconds
    ahl_mirror.Duration.parse_time ahl_mirror.Duration.parse_date
    ahl_mirror.Duration.parse_iso8601_duration_nanos
    ahl_mirror.Duration.parse_checkpoint_cadence_nanos ahl_mirror.Duration.Strings.all_digits
    ahl_mirror.Duration.Strings.contains ahl_mirror.Duration.Strings.split_once
    ahl_mirror.Duration.Strings.strip_suffix ahl_mirror.Duration.Strings.parse_digits
    ahl_mirror.Duration.Strings.parse_u64 ahl_mirror.Duration.Strings.pad_zeros
    ahl_mirror.Config.resolve_key ahl_mirror.Config.resolve_keys ahl_mirror.Series.Time.literal_at
    ahl_mirror.Series.Time.all_fit ahl_mirror.Series.Time.has_profile_time_shape
    ahl_mirror.Series.Time.render_checkpoint_time ahl_mirror.Series.Time.parse_checkpoint_time
    ahl_mirror.Series.Signature.le_octets ahl_mirror.Series.Signature.checkpoint_blob
    ahl_mirror.Series.Signature.verify_checkpoint_signature ahl_mirror.Series.Admit.overlay_at
    ahl_mirror.Series.Admit.extend_prefix ahl_mirror.Series.Admit.fill_overlay
    ahl_mirror.Series.Admit.build_visible_prefix ahl_mirror.Series.Admit.rotations_in
    ahl_mirror.Series.Admit.verifies_under ahl_mirror.Series.Admit.disqualified
    ahl_mirror.Series.Admit.collect_anchors ahl_mirror.Series.Admit.contains_index
    ahl_mirror.Series.Admit.report_named ahl_mirror.Series.Admit.rotation_anchors_for
    ahl_mirror.Series.Admit.last_version ahl_mirror.Series.Admit.decide_admission
    ahl_mirror.Series.Admit.promote_all ahl_mirror.Series.Admit.check_root
    ahl_mirror.Series.Admit.record_member ahl_mirror.Series.Admit.record_anchors
    ahl_mirror.Series.Admit.commit_admission ahl_mirror.Series.Admit.ingest_checkpoint
rotation_anchors_for_sound_example =
    rotation_anchors_for_sound toy (genesis_version ∷ rotated ∷ []) config (checkpoint_at 5 root)
      none (some 3) (3 ∷ []) refl
