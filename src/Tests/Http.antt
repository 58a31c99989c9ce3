-- ===== src/Tests/Http.antt =====
-- Instances of the theorems on the routes of src/http.rs.
use ahl_mirror.Prelude.{
  ℕ, Bytes, Text, Option, none, some, List, [], ◌∷◌, ◌++◌, true, ◌≡◌, ◌≢◌, ◌≤◌, ◌<◌, ◌⊎◌, refl,
  arith, inl, inr, In, le_bytes, codes,
}
use ahl_mirror.Error.{ok}
use ahl_mirror.Metadata.{log_leaf_hash}
use ahl_mirror.Store.Schema.{Connection, Checkpoint, empty}
use ahl_mirror.Store.Checkpoints.{all_checkpoints, get_rotation_checkpoint}
use ahl_mirror.Store.Reads.{count_entries_raw}
use ahl_mirror.Ingest.History.{IsSound, IsSound-empty, run, run-IsSound}
use ahl_mirror.Retrieval.{present, retrieve_by_id}
use ahl_mirror.Series.Usable.{holds_prefix, root_matches_stored}
use ahl_mirror.Series.View.{SeriesView, series_view}
use ahl_mirror.Http.Wire
use ahl_mirror.Http.Wire.{
  Web, Response, RotationProofElement, decode_base64_field, status_ok, status_created,
}
use ahl_mirror.Http.Series.{RangeRequest, series_usable_checkpoint}
use ahl_mirror.Http.Proofs.{ConsistencyQuery, rotation_proof_element}
use ahl_mirror.Http.Router.{
  Request, stage, promote, retrieve, range, get_checkpoint, consistency, rotation_proof, itub,
  respond, serve_all,
}
use ahl_mirror.Ingest.{promote_entry}
use ahl_mirror.Http.Ledger.{Advances, ledger_of}
use ahl_mirror.Http.Steps.{Step-Advances, here, next, stages, promotes, Reach-IsSound}
use ahl_mirror.Http.Responses.{WritesOnce, respond-WritesOnce}
use ahl_mirror.Http.Serving.{
  stage_request, promote_request, plain, base64, retrieve_permanent, stage_promote_retrieve,
}
use ahl_mirror.Http.Usable.{series_usable_checkpoint_sound}
use ahl_mirror.Http.Rotations.{Opens, rotation_proof_element_sound}
use ahl_mirror.Http.Refusal.{equivocation_refused}
use ahl_mirror.Tests.Toy.{toy}
use ahl_mirror.Tests.Reading.{openings}
use ahl_mirror.Tests.View.{other, split_store, roots_apart}
use ahl_mirror.Tests.Data.{
  envelope, id, path, root, metadata, checkpoint, checkpoint_at, entry_store, config, staging,
  promoting,
}

-- Base64 as the text itself.
abbrev web : Web toy
web = record {
  b64_encode = λ bytes. bytes;
  b64_decode = λ text. some text;
  b64_decode-b64_encode = λ bytes. refl;
  path = λ proof. [];
}

-- One entry, a series member over it, and the same checkpoint for the rotation at index 0.
abbrev held : Checkpoint
held = checkpoint_at 1 (log_leaf_hash toy envelope)

abbrev held_store : Connection
held_store = record entry_store {
  checkpoints = held ∷ [];
  rotation_checkpoints = record { manifest_entry_index = 0; checkpoint = held } ∷ [];
}

held_usable : series_usable_checkpoint toy held_store config 1 ≡ ok held
unfolding ahl_mirror.Config.resolve_key ahl_mirror.Config.resolve_keys
    ahl_mirror.Duration.Strings.all_digits ahl_mirror.Duration.Strings.contains
    ahl_mirror.Duration.Strings.pad_zeros ahl_mirror.Duration.Strings.parse_digits
    ahl_mirror.Duration.Strings.parse_u64 ahl_mirror.Duration.Strings.split_once
    ahl_mirror.Duration.Strings.strip_suffix ahl_mirror.Duration.add_component
    ahl_mirror.Duration.parse_checkpoint_cadence_nanos ahl_mirror.Duration.parse_date
    ahl_mirror.Duration.parse_iso8601_duration_nanos ahl_mirror.Duration.parse_seconds
    ahl_mirror.Duration.parse_time ahl_mirror.Duration.take_component
    ahl_mirror.Manifest.Parse.all_witness_keys ahl_mirror.Manifest.Parse.check_statement_version
    ahl_mirror.Manifest.Parse.parse_governance ahl_mirror.Manifest.Parse.parse_rfc3339_nanos
    ahl_mirror.Manifest.Parse.parse_witnesses ahl_mirror.Manifest.Parse.producer_map
    ahl_mirror.Manifest.Parse.witness_block_keys ahl_mirror.Manifest.State.all_in
    ahl_mirror.Manifest.State.eq_tuple ahl_mirror.Manifest.State.has_tuple
    ahl_mirror.Manifest.State.insert_key ahl_mirror.Manifest.State.key_with_id
    ahl_mirror.Manifest.State.log_key_set ahl_mirror.Manifest.State.remove_key
    ahl_mirror.Manifest.State.resolve_log_key ahl_mirror.Manifest.State.rotates
    ahl_mirror.Manifest.State.same_set ahl_mirror.Manifest.State.witness_key_set
    ahl_mirror.Manifest.Walk.apply_action ahl_mirror.Manifest.Walk.apply_key_content
    ahl_mirror.Manifest.Walk.apply_key_entry ahl_mirror.Manifest.Walk.apply_kind
    ahl_mirror.Manifest.Walk.apply_manifest_entry ahl_mirror.Manifest.Walk.apply_successor
    ahl_mirror.Manifest.Walk.resolve ahl_mirror.Manifest.Walk.resolver_from
    ahl_mirror.Manifest.Walk.snapshot ahl_mirror.Manifest.Walk.step
    ahl_mirror.Manifest.Walk.try_apply_genesis ahl_mirror.Manifest.Walk.try_apply_key
    ahl_mirror.Manifest.Walk.try_apply_manifest ahl_mirror.Manifest.Walk.versions
    ahl_mirror.Manifest.Walk.walk ahl_mirror.Prelude.eq_bytes ahl_mirror.Prelude.find_row
    ahl_mirror.Prelude.le_bytes ahl_mirror.Prelude.select ahl_mirror.Series.Divergence.diverges
    ahl_mirror.Series.Divergence.find_root_divergences ahl_mirror.Series.Divergence.last
    ahl_mirror.Series.Divergence.minimum ahl_mirror.Series.Divergence.scan
    ahl_mirror.Series.Frontier.compute_gap_free_frontier ahl_mirror.Series.Frontier.extend
    ahl_mirror.Series.Frontier.resolve_governance_for ahl_mirror.Series.Frontier.start_series
    ahl_mirror.Series.Frontier.unresolved_as_none ahl_mirror.Series.Signature.checkpoint_blob
    ahl_mirror.Series.Signature.le_octets ahl_mirror.Series.Signature.verify_checkpoint_signature
    ahl_mirror.Series.Time.all_fit ahl_mirror.Series.Time.has_profile_time_shape
    ahl_mirror.Series.Time.literal_at ahl_mirror.Series.Time.parse_checkpoint_time
    ahl_mirror.Series.Time.render_checkpoint_time ahl_mirror.Series.Usable.holds_prefix
    ahl_mirror.Series.Usable.is_storage_fault ahl_mirror.Series.Usable.root_matches_stored
    ahl_mirror.Series.Usable.series_consistency_stored ahl_mirror.Series.Usable.series_usable_stored
    ahl_mirror.Series.View.authenticated_checkpoints ahl_mirror.Series.View.itub
    ahl_mirror.Series.View.judge ahl_mirror.Series.View.label ahl_mirror.Series.View.series_view
    ahl_mirror.Series.View.usable_of ahl_mirror.Store.Checkpoints.all_checkpoints
    ahl_mirror.Store.Checkpoints.all_rotation_checkpoints ahl_mirror.Store.Checkpoints.anchors_of
    ahl_mirror.Store.Checkpoints.earliest ahl_mirror.Store.Checkpoints.get_checkpoint
    ahl_mirror.Store.Checkpoints.get_rotation_checkpoint
    ahl_mirror.Store.Checkpoints.insert_checkpoint_raw
    ahl_mirror.Store.Checkpoints.insert_rotation_checkpoint_raw
    ahl_mirror.Store.Checkpoints.member_at ahl_mirror.Store.Nodes.tree_node_raw
    ahl_mirror.Store.Reads.consistency_proof_measured_raw ahl_mirror.Store.Reads.count_entries_raw
    ahl_mirror.Store.Reads.get_entries_range_raw ahl_mirror.Store.Reads.get_node
    ahl_mirror.Store.Reads.inclusion_proof_raw ahl_mirror.Store.Reads.leaf_hashes_of
    ahl_mirror.Store.Reads.leaf_hashes_range_raw ahl_mirror.Store.Reads.log_root_raw
    ahl_mirror.Store.Reads.node_is_complete ahl_mirror.Store.Reads.require_blocks
    ahl_mirror.Store.Reads.require_subtree_cache_raw ahl_mirror.Store.Reads.run_walk
    ahl_mirror.Store.Reads.subtree_root_raw ahl_mirror.Store.Reads.with_tree_nodes
    ahl_mirror.Store.Rows.at_most ahl_mirror.Store.Rows.entry_at ahl_mirror.Store.Rows.entry_by_id
    ahl_mirror.Store.Rows.insert_ordered ahl_mirror.Store.Rows.max_index
    ahl_mirror.Store.Rows.node_at ahl_mirror.Store.Rows.order_by ahl_mirror.Store.Rows.replace_node
    ahl_mirror.Store.Rows.rows_between ahl_mirror.Store.Rows.staged_at
    ahl_mirror.Http.Series.below_floor ahl_mirror.Http.Series.usable_candidate
    ahl_mirror.Http.Series.latest ahl_mirror.Http.Series.series_usable_checkpoint
    ahl_mirror.Http.Series.reported_checkpoint ahl_mirror.Http.Series.range_handler
    ahl_mirror.Http.Series.raw_bytes ahl_mirror.Http.Series.checkpoint_ingest_handler
    ahl_mirror.Http.Series.list_checkpoints_handler ahl_mirror.Http.Series.get_checkpoint_handler
    ahl_mirror.Http.Proofs.rotation_proof_element ahl_mirror.Http.Proofs.rotation_proof_handler
    ahl_mirror.Http.Proofs.itub_response ahl_mirror.Http.Proofs.itub_handler
    ahl_mirror.Http.Proofs.consistency_path ahl_mirror.Http.Proofs.consistency_ends
    ahl_mirror.Http.Proofs.consistency_handler ahl_mirror.Metadata.log_leaf_hash
    ahl_mirror.Metadata.sha256_id ahl_mirror.Store.Exec.with_transaction
    ahl_mirror.Metadata.adaptor_metadata_bytes ahl_mirror.Metadata.metadata_hash
    ahl_mirror.Store.Nodes.climb ahl_mirror.Store.Nodes.complete_node
    ahl_mirror.Store.Nodes.extend_subtree_cache ahl_mirror.Metadata.adaptor_metadata_object
held_usable = refl

series_usable_checkpoint_sound_example :
    In held (all_checkpoints held_store)
    × (held.tree_size ≡ 1)
    × (holds_prefix held_store 1 ≡ ok true)
    × (root_matches_stored toy held_store held ≡ ok true)
    × (view : SeriesView) × (series_view toy held_store config ≡ ok view)
    × ((floor : ℕ) → view.equivocation_floor ≡ some floor → 1 < floor)
series_usable_checkpoint_sound_example =
    series_usable_checkpoint_sound toy held_store config 1 held held_usable

abbrev element : RotationProofElement toy openings
element = record {
  manifest_entry_index = 0;
  checkpoint = held;
  inclusion_path = path;
  witnesses = [];
}

element_served : rotation_proof_element toy openings config held_store 0 ≡ ok element
unfolding ahl_mirror.Config.resolve_key ahl_mirror.Config.resolve_keys
    ahl_mirror.Duration.Strings.all_digits ahl_mirror.Duration.Strings.contains
    ahl_mirror.Duration.Strings.pad_zeros ahl_mirror.Duration.Strings.parse_digits
    ahl_mirror.Duration.Strings.parse_u64 ahl_mirror.Duration.Strings.split_once
    ahl_mirror.Duration.Strings.strip_suffix ahl_mirror.Duration.add_component
    ahl_mirror.Duration.parse_checkpoint_cadence_nanos ahl_mirror.Duration.parse_date
    ahl_mirror.Duration.parse_iso8601_duration_nanos ahl_mirror.Duration.parse_seconds
    ahl_mirror.Duration.parse_time ahl_mirror.Duration.take_component
    ahl_mirror.Manifest.Parse.all_witness_keys ahl_mirror.Manifest.Parse.check_statement_version
    ahl_mirror.Manifest.Parse.parse_governance ahl_mirror.Manifest.Parse.parse_rfc3339_nanos
    ahl_mirror.Manifest.Parse.parse_witnesses ahl_mirror.Manifest.Parse.producer_map
    ahl_mirror.Manifest.Parse.witness_block_keys ahl_mirror.Manifest.State.all_in
    ahl_mirror.Manifest.State.eq_tuple ahl_mirror.Manifest.State.has_tuple
    ahl_mirror.Manifest.State.insert_key ahl_mirror.Manifest.State.key_with_id
    ahl_mirror.Manifest.State.log_key_set ahl_mirror.Manifest.State.remove_key
    ahl_mirror.Manifest.State.resolve_log_key ahl_mirror.Manifest.State.rotates
    ahl_mirror.Manifest.State.same_set ahl_mirror.Manifest.State.witness_key_set
    ahl_mirror.Manifest.Walk.apply_action ahl_mirror.Manifest.Walk.apply_key_content
    ahl_mirror.Manifest.Walk.apply_key_entry ahl_mirror.Manifest.Walk.apply_kind
    ahl_mirror.Manifest.Walk.apply_manifest_entry ahl_mirror.Manifest.Walk.apply_successor
    ahl_mirror.Manifest.Walk.resolve ahl_mirror.Manifest.Walk.resolver_from
    ahl_mirror.Manifest.Walk.snapshot ahl_mirror.Manifest.Walk.step
    ahl_mirror.Manifest.Walk.try_apply_genesis ahl_mirror.Manifest.Walk.try_apply_key
    ahl_mirror.Manifest.Walk.try_apply_manifest ahl_mirror.Manifest.Walk.versions
    ahl_mirror.Manifest.Walk.walk ahl_mirror.Prelude.eq_bytes ahl_mirror.Prelude.find_row
    ahl_mirror.Prelude.le_bytes ahl_mirror.Prelude.select ahl_mirror.Series.Divergence.diverges
    ahl_mirror.Series.Divergence.find_root_divergences ahl_mirror.Series.Divergence.last
    ahl_mirror.Series.Divergence.minimum ahl_mirror.Series.Divergence.scan
    ahl_mirror.Series.Frontier.compute_gap_free_frontier ahl_mirror.Series.Frontier.extend
    ahl_mirror.Series.Frontier.resolve_governance_for ahl_mirror.Series.Frontier.start_series
    ahl_mirror.Series.Frontier.unresolved_as_none ahl_mirror.Series.Signature.checkpoint_blob
    ahl_mirror.Series.Signature.le_octets ahl_mirror.Series.Signature.verify_checkpoint_signature
    ahl_mirror.Series.Time.all_fit ahl_mirror.Series.Time.has_profile_time_shape
    ahl_mirror.Series.Time.literal_at ahl_mirror.Series.Time.parse_checkpoint_time
    ahl_mirror.Series.Time.render_checkpoint_time ahl_mirror.Series.Usable.holds_prefix
    ahl_mirror.Series.Usable.is_storage_fault ahl_mirror.Series.Usable.root_matches_stored
    ahl_mirror.Series.Usable.series_consistency_stored ahl_mirror.Series.Usable.series_usable_stored
    ahl_mirror.Series.View.authenticated_checkpoints ahl_mirror.Series.View.itub
    ahl_mirror.Series.View.judge ahl_mirror.Series.View.label ahl_mirror.Series.View.series_view
    ahl_mirror.Series.View.usable_of ahl_mirror.Store.Checkpoints.all_checkpoints
    ahl_mirror.Store.Checkpoints.all_rotation_checkpoints ahl_mirror.Store.Checkpoints.anchors_of
    ahl_mirror.Store.Checkpoints.earliest ahl_mirror.Store.Checkpoints.get_checkpoint
    ahl_mirror.Store.Checkpoints.get_rotation_checkpoint
    ahl_mirror.Store.Checkpoints.insert_checkpoint_raw
    ahl_mirror.Store.Checkpoints.insert_rotation_checkpoint_raw
    ahl_mirror.Store.Checkpoints.member_at ahl_mirror.Store.Nodes.tree_node_raw
    ahl_mirror.Store.Reads.consistency_proof_measured_raw ahl_mirror.Store.Reads.count_entries_raw
    ahl_mirror.Store.Reads.get_entries_range_raw ahl_mirror.Store.Reads.get_node
    ahl_mirror.Store.Reads.inclusion_proof_raw ahl_mirror.Store.Reads.leaf_hashes_of
    ahl_mirror.Store.Reads.leaf_hashes_range_raw ahl_mirror.Store.Reads.log_root_raw
    ahl_mirror.Store.Reads.node_is_complete ahl_mirror.Store.Reads.require_blocks
    ahl_mirror.Store.Reads.require_subtree_cache_raw ahl_mirror.Store.Reads.run_walk
    ahl_mirror.Store.Reads.subtree_root_raw ahl_mirror.Store.Reads.with_tree_nodes
    ahl_mirror.Store.Rows.at_most ahl_mirror.Store.Rows.entry_at ahl_mirror.Store.Rows.entry_by_id
    ahl_mirror.Store.Rows.insert_ordered ahl_mirror.Store.Rows.max_index
    ahl_mirror.Store.Rows.node_at ahl_mirror.Store.Rows.order_by ahl_mirror.Store.Rows.replace_node
    ahl_mirror.Store.Rows.rows_between ahl_mirror.Store.Rows.staged_at
    ahl_mirror.Http.Series.below_floor ahl_mirror.Http.Series.usable_candidate
    ahl_mirror.Http.Series.latest ahl_mirror.Http.Series.series_usable_checkpoint
    ahl_mirror.Http.Series.reported_checkpoint ahl_mirror.Http.Series.range_handler
    ahl_mirror.Http.Series.raw_bytes ahl_mirror.Http.Series.checkpoint_ingest_handler
    ahl_mirror.Http.Series.list_checkpoints_handler ahl_mirror.Http.Series.get_checkpoint_handler
    ahl_mirror.Http.Proofs.rotation_proof_element ahl_mirror.Http.Proofs.rotation_proof_handler
    ahl_mirror.Http.Proofs.itub_response ahl_mirror.Http.Proofs.itub_handler
    ahl_mirror.Http.Proofs.consistency_path ahl_mirror.Http.Proofs.consistency_ends
    ahl_mirror.Http.Proofs.consistency_handler ahl_mirror.Metadata.log_leaf_hash
    ahl_mirror.Metadata.sha256_id ahl_mirror.Store.Exec.with_transaction
    ahl_mirror.Metadata.adaptor_metadata_bytes ahl_mirror.Metadata.metadata_hash
    ahl_mirror.Store.Nodes.climb ahl_mirror.Store.Nodes.complete_node
    ahl_mirror.Store.Nodes.extend_subtree_cache ahl_mirror.Metadata.adaptor_metadata_object
element_served = refl

rotation_proof_element_sound_example :
    (element.manifest_entry_index ≡ 0)
    × (get_rotation_checkpoint held_store 0 ≡ ok (some held))
    × (count_entries_raw held_store 0 1 ≡ ok 1)
    × Opens toy openings config held_store 0 element
    × (view : SeriesView) × (series_view toy held_store config ≡ ok view)
    × ((floor : ℕ) → view.equivocation_floor ≡ some floor → 1 < floor)
rotation_proof_element_sound_example =
    rotation_proof_element_sound toy openings config held_store 0 element element_served

abbrev status_of_answer : Connection → Request toy → ℕ
status_of_answer c request = (respond toy openings web config request c).0.status

equivocation_refused_example :
    ((req : RangeRequest)
      → 1 ≤ req.tree_size
      → status_of_answer split_store (range req) ≢ status_ok)
    × ((size : ℕ) → 1 ≤ size → status_of_answer split_store (get_checkpoint size) ≢ status_ok)
    × ((q : ConsistencyQuery) → 1 ≤ q.to → status_of_answer split_store (consistency q) ≢ status_ok)
    × ((index : ℕ) (cp : Checkpoint)
        → get_rotation_checkpoint split_store index ≡ ok (some cp)
        → 1 ≤ cp.tree_size
        → status_of_answer split_store (rotation_proof index) ≢ status_ok)
    × ((index : ℕ) (time : Text) (cp : Checkpoint)
        → (respond toy openings web config (itub index) split_store).0
          ≡ record { status = status_ok; body = Wire.itub index time cp }
        → cp.tree_size < 1)
equivocation_refused_example =
    equivocation_refused toy openings web config split_store checkpoint other (inl (inl refl))
      (inl (inr (inl refl))) refl roots_apart

abbrev submission : Request toy
submission = stage (stage_request toy openings web config id envelope metadata)

respond-WritesOnce_example : WritesOnce toy openings web config submission empty
respond-WritesOnce_example = respond-WritesOnce toy openings web config submission empty

abbrev waiting_store : Connection
waiting_store = run toy empty staging

Step-Advances_example :
    Advances toy
      (ledger_of waiting_store)
      (ledger_of (promote_entry toy checkpoint id 0 path waiting_store).1)
Step-Advances_example = Step-Advances toy (promotes checkpoint id 0 path) (run-IsSound toy staging)

Reach-IsSound_example : IsSound toy (run toy empty promoting)
unfolding ahl_mirror.Ingest.History.run ahl_mirror.Ingest.History.handle
Reach-IsSound_example =
    Reach-IsSound toy
      (next (next here (stages id envelope metadata)) (promotes checkpoint id 0 path))

served_now :
    (respond toy openings web config (retrieve id plain) (run toy empty promoting)).0.status
    ≡ status_ok
unfolding ahl_mirror.Prelude.eq_bytes ahl_mirror.Prelude.find_row ahl_mirror.Prelude.le_bytes
    ahl_mirror.Prelude.select ahl_mirror.Store.Nodes.tree_node_raw ahl_mirror.Store.Rows.at_most
    ahl_mirror.Store.Rows.entry_at ahl_mirror.Store.Rows.entry_by_id
    ahl_mirror.Store.Rows.insert_ordered ahl_mirror.Store.Rows.max_index
    ahl_mirror.Store.Rows.node_at ahl_mirror.Store.Rows.order_by ahl_mirror.Store.Rows.replace_node
    ahl_mirror.Store.Rows.rows_between ahl_mirror.Store.Rows.staged_at
    ahl_mirror.Http.Wire.status_of ahl_mirror.Http.Wire.strip_prefix
    ahl_mirror.Http.Wire.into_response ahl_mirror.Http.Wire.decode_base64_field
    ahl_mirror.Http.Entries.stage_handler ahl_mirror.Http.Entries.promote_handler
    ahl_mirror.Http.Entries.retrieved_response ahl_mirror.Http.Entries.retrieve_handler
    ahl_mirror.Http.Router.handler ahl_mirror.Http.Router.respond ahl_mirror.Http.Router.serve_all
    ahl_mirror.Metadata.log_leaf_hash ahl_mirror.Metadata.sha256_id
    ahl_mirror.Retrieval.retrieve_by_id ahl_mirror.Retrieval.serve
    ahl_mirror.Store.Entries.get_entry_by_id ahl_mirror.Store.Exec.with_transaction
    ahl_mirror.Ingest.stage_entry ahl_mirror.Ingest.promote_entry ahl_mirror.Ingest.promote_entry_in
    ahl_mirror.Store.Entries.stage_entry ahl_mirror.Store.Entries.promote_entry
    ahl_mirror.Store.Entries.promote_entry_raw ahl_mirror.Store.Entries.get_staged_raw
    ahl_mirror.Store.Entries.append_entry ahl_mirror.Store.Entries.next_index
    ahl_mirror.Ingest.Checks.check_entry ahl_mirror.Ingest.Checks.verify_inclusion_for
    ahl_mirror.Metadata.adaptor_metadata_bytes ahl_mirror.Metadata.metadata_hash
    ahl_mirror.Ingest.History.run ahl_mirror.Ingest.History.handle ahl_mirror.Store.Nodes.climb
    ahl_mirror.Store.Nodes.complete_node ahl_mirror.Store.Nodes.extend_subtree_cache
    ahl_mirror.Metadata.adaptor_metadata_object
served_now = refl

retrieve_permanent_example :
    (respond toy openings web config
      (retrieve id plain)
      (serve_all toy openings web config (run toy empty promoting) (submission ∷ []))).0
    ≡ (respond toy openings web config (retrieve id plain) (run toy empty promoting)).0
retrieve_permanent_example =
    retrieve_permanent toy openings web config (run toy empty promoting) id plain (submission ∷ [])
      (run-IsSound toy promoting) served_now

-- A store with a checkpoint on record and no entry.
abbrev anchored_store : Connection
anchored_store = record empty { checkpoints = checkpoint ∷ [] }

anchored_store-IsSound : IsSound toy anchored_store
anchored_store-IsSound =
    let s = IsSound-empty toy in
    record {
      valid = record {
        numbered = s.valid.numbered;
        distinct = s.valid.distinct;
        hashed = s.valid.hashed;
        addressable = s.valid.addressable;
        cached = s.valid.cached;
      };
      staged = s.staged;
      canonical = s.canonical;
    }

stage_promote_retrieve_example :
    let staging = respond toy openings web config submission anchored_store in
    let promoting_now =
      respond toy openings web config
        (promote (promote_request toy openings web config id 1 0 path))
        staging.1 in
    (staging.0.status ≡ status_created)
    × (promoting_now.0.status ≡ status_created)
    × ((respond toy openings web config (retrieve id plain) promoting_now.1).0
        ≡ record { status = status_ok; body = Wire.envelope 0 envelope })
    × (text : Text) × ((respond toy openings web config (retrieve id base64) promoting_now.1).0
        ≡ record { status = status_ok; body = Wire.envelope_base64 id 0 text })
    × (decode_base64_field toy web text "" ≡ ok envelope)
unfolding ahl_mirror.Store.Rows.staged_at ahl_mirror.Prelude.find_row ahl_mirror.Prelude.select
    ahl_mirror.Store.Rows.order_by ahl_mirror.Store.Checkpoints.get_checkpoint
    ahl_mirror.Store.Rows.entry_by_id ahl_mirror.Ingest.Checks.check_entry
    ahl_mirror.Prelude.eq_bytes ahl_mirror.Metadata.sha256_id
    ahl_mirror.Metadata.adaptor_metadata_bytes ahl_mirror.Ingest.Checks.verify_inclusion_for
    ahl_mirror.Metadata.log_leaf_hash ahl_mirror.Metadata.metadata_hash
stage_promote_retrieve_example =
    stage_promote_retrieve toy openings web config anchored_store id envelope metadata checkpoint 1
      path root anchored_store-IsSound (omega arith) refl refl refl refl refl refl
