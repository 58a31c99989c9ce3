-- ===== src/Tests/Entries.antt =====
-- Instances of the theorems on staging, promotion and retrieval.
use ahl_mirror.Prelude.{
  ℕ, eq_bytes, find_row, select, ◌++◌, true, ◌⊎◌, [], ◌∷◌, Option, none, some, ◌≡◌, ◌≢◌, refl,
  arith, length, inl, inr, codes,
}
use ahl_mirror.Error.{ok}
use ahl_mirror.Deps.{from_ahl, Hash}
use ahl_mirror.Store.Schema.{Connection, inserted, empty, StagedRow, EntryRow}
use ahl_mirror.Store.Entries.{get_entry_by_id, get_staged_raw}
use ahl_mirror.Store.Entries
use ahl_mirror.Store.Rows.{staged_at, entry_at, entry_by_id, max_index, node_at, replace_node}
use ahl_mirror.Store.Exec.{with_transaction}
use ahl_mirror.Store.Nodes.{extend_subtree_cache, climb, complete_node, tree_node_raw}
use ahl_mirror.Store.Tree.{IsValid}
use ahl_mirror.Store.Promotion.{
  promote_entry-IsValid, promote_entry_leaves_no_trace, promote_entry_inserts, row_for,
}
use ahl_mirror.Ingest.{stage_entry, promote_entry, promote_entry_in}
use ahl_mirror.Ingest.Checks.{check_entry, verify_inclusion_for}
use ahl_mirror.Ingest.Admission.{IsEnvelope, Stages, stage_entry_sound, promote_entry_gated}
use ahl_mirror.Ingest.History.{run, handle, run-IsSound}
use ahl_mirror.Ingest.Serving.{retrieve_by_id_sound, retrieve_by_id_total}
use ahl_mirror.Retrieval.{present, absent, retrieve_by_id}
use ahl_mirror.Metadata.{
  sha256_id, adaptor_metadata_bytes, adaptor_metadata_object, log_leaf_hash, metadata_hash,
}
use ahl_mirror.Tests.Toy.{toy}
use ahl_mirror.Tests.Data.{
  envelope, id, path, root, metadata, checkpoint, staged_store, entry_store, entry_row, staging,
  promoting,
}

promote_entry-IsValid_example :
    IsValid toy (Entries.promote_entry toy 0 id (run toy empty staging)).1
promote_entry-IsValid_example =
    promote_entry-IsValid toy (run toy empty staging) 0 id (run-IsSound toy staging).valid

retrieve_by_id_sound_example :
    (sha256_id toy envelope ≡ id)
    × (get_entry_by_id entry_store id ≡ ok (some (record { entry_index = 0; envelope = envelope })))
unfolding retrieve_by_id get_entry_by_id entry_by_id ahl_mirror.Prelude.find_row
    ahl_mirror.Prelude.eq_bytes sha256_id
retrieve_by_id_sound_example = retrieve_by_id_sound toy entry_store id 0 envelope refl

retrieve_by_id_total_example :
    ((retrieve_by_id toy (run toy empty promoting) id ≡ ok absent)
      × (entry_by_id (run toy empty promoting).entries id ≡ none))
    ⊎ ((row : EntryRow) × (entry_by_id (run toy empty promoting).entries id ≡ some row)
        × (retrieve_by_id toy (run toy empty promoting) id
            ≡ ok (present row.entry_index row.envelope)))
retrieve_by_id_total_example =
    retrieve_by_id_total toy (run toy empty promoting) id (run-IsSound toy promoting)

-- A store in which another entry is staged.
abbrev crowded : Connection
crowded = record empty {
  staged_entries = record { entry_id = codes "other"; envelope = codes "note" } ∷ [];
}

stage_entry_sound_example :
    IsEnvelope toy id envelope
    × (toy.jcs metadata ≡ adaptor_metadata_bytes toy)
    × (get_staged_raw (stage_entry toy id envelope metadata crowded).1 id ≡ ok (some envelope))
    × Stages toy crowded id envelope inserted (stage_entry toy id envelope metadata crowded).1
unfolding stage_entry check_entry ahl_mirror.Prelude.eq_bytes sha256_id adaptor_metadata_bytes
    Entries.stage_entry staged_at ahl_mirror.Prelude.find_row
stage_entry_sound_example = stage_entry_sound toy crowded id envelope metadata inserted refl

promote_entry_gated_example :
    (row : StagedRow) × (opened : Hash) × (staged_at staged_store id ≡ some row)
    × (from_ahl (toy.parse_hash_hex root) ≡ ok opened)
    × (verify_inclusion_for toy row.envelope 0 1 path opened ≡ ok true)
unfolding run handle stage_entry check_entry eq_bytes sha256_id adaptor_metadata_bytes
    adaptor_metadata_object Entries.stage_entry staged_at find_row get_staged_raw
    Entries.promote_entry Entries.promote_entry_raw Entries.append_entry Entries.next_index entry_at
    entry_by_id max_index extend_subtree_cache climb complete_node tree_node_raw node_at
    replace_node select log_leaf_hash metadata_hash promote_entry promote_entry_in
    verify_inclusion_for with_transaction
promote_entry_gated_example =
    promote_entry_gated toy staged_store checkpoint id 0 path inserted refl

-- A store whose entry has no leaf hash, so that the cache cannot be extended over it.
abbrev unhashed : Connection
unhashed = record staged_store {
  entries = record entry_row { entry_id = codes "other"; leaf_hash = none } ∷ [];
}

-- Without the transaction, the promotion that fails there leaves its row behind.
row_written : length (Entries.promote_entry_raw toy 1 id unhashed).1.entries ≡ 2
unfolding eq_bytes find_row select staged_at get_staged_raw Entries.promote_entry
    Entries.promote_entry_raw Entries.append_entry Entries.next_index entry_at entry_by_id max_index
    extend_subtree_cache climb complete_node tree_node_raw node_at replace_node log_leaf_hash
    metadata_hash sha256_id adaptor_metadata_bytes adaptor_metadata_object with_transaction
row_written = refl

promote_entry_leaves_no_trace_example : (Entries.promote_entry toy 1 id unhashed).1 ≡ unhashed
unfolding eq_bytes find_row select staged_at get_staged_raw Entries.promote_entry
    Entries.promote_entry_raw Entries.append_entry Entries.next_index entry_at entry_by_id max_index
    extend_subtree_cache climb complete_node tree_node_raw node_at replace_node log_leaf_hash
    metadata_hash sha256_id adaptor_metadata_bytes adaptor_metadata_object with_transaction
promote_entry_leaves_no_trace_example = promote_entry_leaves_no_trace toy unhashed 1 id (λ p. cc)

promote_entry_inserts_example :
    (row : StagedRow) × (0 ≡ length (run toy empty staging).entries)
    × (staged_at (run toy empty staging) id ≡ some row)
    × (entry_by_id (run toy empty staging).entries id ≡ none)
    × ((Entries.promote_entry toy 0 id (run toy empty staging)).1.entries
        ≡ (run toy empty staging).entries ++ row_for toy 0 row id ∷ [])
    × ((Entries.promote_entry toy 0 id (run toy empty staging)).1.staged_entries
        ≡ (run toy empty staging).staged_entries)
    × ((Entries.promote_entry toy 0 id (run toy empty staging)).1.checkpoints
        ≡ (run toy empty staging).checkpoints)
    × ((Entries.promote_entry toy 0 id (run toy empty staging)).1.rotation_checkpoints
        ≡ (run toy empty staging).rotation_checkpoints)
unfolding run handle stage_entry check_entry eq_bytes sha256_id adaptor_metadata_bytes
    adaptor_metadata_object Entries.stage_entry staged_at find_row get_staged_raw
    Entries.promote_entry Entries.promote_entry_raw Entries.append_entry Entries.next_index entry_at
    entry_by_id max_index extend_subtree_cache climb complete_node tree_node_raw node_at
    replace_node select log_leaf_hash metadata_hash promote_entry promote_entry_in
    verify_inclusion_for with_transaction
promote_entry_inserts_example =
    promote_entry_inserts toy (run toy empty staging) 0 id (run-IsSound toy staging).valid refl
