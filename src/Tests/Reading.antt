-- ===== src/Tests/Reading.antt =====
-- Instances of the theorems on tree reads, ranges, signatures and durations.
use ahl_mirror.Prelude.{
  ℕ, ◌≤◌, ◌<◌, ◌&&◌, leb, ltb, if◌then◌else◌, List, [], ◌∷◌, ◌++◌, Bytes, Text, Option, none, some,
  Bool, true, false, ◌≡◌, refl, arith, inl, inr, length, codes, u64_max,
}
use ahl_mirror.Error.{ok, err, prohibited_duration_component}
use ahl_mirror.Deps.{Hash, from_ahl}
use ahl_mirror.Metadata.{log_leaf_hash}
use ahl_mirror.Store.Reads.{
  count_entries_raw, subtree_root_raw, leaf_hashes_range_raw, with_tree_nodes,
}
use ahl_mirror.Store.Reads.Nodes.{ComesTo, with_tree_nodes_sound}
use ahl_mirror.Range.{
  open_spans, RangeProof, RangeProofs, RangeResponse, verify_range_response, leaf_hashes,
}
use ahl_mirror.Range.Spans.{outside_subtrees, whole}
use ahl_mirror.Range.Cover.{hits, Ordered, outside_subtrees_partition}
use ahl_mirror.Store.Rows.{rows_between}
use ahl_mirror.Range.Built.{proof_over, Carries, build_range_response_sound}
use ahl_mirror.Range.Verified.{Contiguous, verify_range_response_sound}
use ahl_mirror.Series.Time.{has_profile_time_shape, render_checkpoint_time, parse_checkpoint_time}
use ahl_mirror.Series.Signature.{
  checkpoint_magic, le_octets, checkpoint_blob, verify_checkpoint_signature,
}
use ahl_mirror.Series.Signature.Blob.{
  Digests, checkpoint_blob_binds, verify_checkpoint_signature_sound,
  parse_checkpoint_time_canonical,
}
use ahl_mirror.Duration.{parse_iso8601_duration_nanos, parse_checkpoint_cadence_nanos}
use ahl_mirror.Duration.Written.{Written, IsWritten, split_seconds}
use ahl_mirror.Duration.Prohibited.{parse_iso8601_duration_nanos_prohibits}
use ahl_mirror.Duration.Roundtrip.{parse_checkpoint_cadence_nanos-text}
use ahl_mirror.Store.Schema.{Checkpoint}
use ahl_mirror.Tests.Toy.{toy, log_digest, write_time}
use ahl_mirror.Tests.Data.{checkpoint_at, envelope, root, checkpoint, entry_store}

abbrev day_and_more : Written
day_and_more = record {
  days = some (codes "1");
  hours = none;
  minutes = some (codes "03");
  seconds = split_seconds (codes "4") (codes "5");
}

day_and_more-IsWritten : IsWritten day_and_more
unfolding ahl_mirror.Duration.Strings.all_digits
day_and_more-IsWritten = record {
  days_number = (refl, λ p. cc);
  hours_number = tt;
  minutes_number = (refl, λ p. cc);
  seconds_number = ((refl, λ p. cc), (refl, λ p. cc), omega arith);
  some_time = λ p. cc;
}

parse_checkpoint_cadence_nanos-text_example :
    (parse_iso8601_duration_nanos (codes "P1DT03M4.5S") ≡ ok 86_584_500_000_000)
    × (parse_checkpoint_cadence_nanos (codes "P1DT03M4.5S") ≡ ok 86_584_500_000_000)
parse_checkpoint_cadence_nanos-text_example =
    parse_checkpoint_cadence_nanos-text day_and_more day_and_more-IsWritten (omega arith)

parse_iso8601_duration_nanos_prohibits_example :
    (parse_iso8601_duration_nanos (codes "P1Y")
      ≡ err (prohibited_duration_component (codes "P1Y") b'Y'))
    × (parse_iso8601_duration_nanos (codes "P1M")
        ≡ err (prohibited_duration_component (codes "P1M") b'M'))
    × (parse_iso8601_duration_nanos (codes "P1MT2M")
        ≡ err (prohibited_duration_component (codes "P1MT2M") b'M'))
unfolding ahl_mirror.Duration.Strings.contains
parse_iso8601_duration_nanos_prohibits_example =
    parse_iso8601_duration_nanos_prohibits (codes "1Y") (codes "1M") (codes "2M") (inr (inl refl))
      (inr (inl refl)) refl refl refl

parse_checkpoint_time_canonical_example :
    (has_profile_time_shape (write_time 5) ≡ true)
    × (length (write_time 5) ≡ 30)
    × (render_checkpoint_time toy 5 ≡ ok (write_time 5))
unfolding parse_checkpoint_time has_profile_time_shape render_checkpoint_time
    ahl_mirror.Prelude.eq_bytes
parse_checkpoint_time_canonical_example = parse_checkpoint_time_canonical toy (write_time 5) 5 refl

outside_subtrees_partition_example :
    Ordered 0 4 (outside_subtrees (λ n. 1) 1 3 0 4 (whole 4))
    × ((i : ℕ)
        → i < 4
        → hits i (outside_subtrees (λ n. 1) 1 3 0 4 (whole 4))
          ≡ (if leb 1 i && ltb i 3 then 0 else 1))
outside_subtrees_partition_example =
    outside_subtrees_partition (λ n. 1) (λ n h. (omega arith, omega arith)) 1 3 4 (omega arith)
      (omega arith)

with_tree_nodes_sound_example :
    ComesTo entry_store 1 (toy.compute_subtree_root 0 1) (log_leaf_hash toy envelope)
unfolding with_tree_nodes ahl_mirror.Store.Reads.get_node ahl_mirror.Store.Nodes.tree_node_raw
    ahl_mirror.Store.Rows.entry_at ahl_mirror.Prelude.find_row log_leaf_hash
with_tree_nodes_sound_example =
    with_tree_nodes_sound entry_store 1 (toy.compute_subtree_root 0 1) (log_leaf_hash toy envelope)
      (record { tree_nodes = 1 }) refl

abbrev opening : RangeProof
opening = record { tree_size = 1; from_index = 0; to_index = 1; nodes = [] }

abbrev pub openings : RangeProofs
openings = record {
  verify = λ proof leaves root. inr (leb (length leaves) proof.tree_size);
  encode = λ proof. [];
  decode = λ text. inr opening;
}

abbrev response : RangeResponse toy openings
response = record {
  range = record { from_index = 0; to_index = 1 };
  entries = record { entry_index = 0; envelope = envelope } ∷ [];
  adaptor_form = [];
  checkpoint = checkpoint;
}

verify_range_response_sound_example :
    Contiguous toy openings 0 response.entries
    × ((proof : RangeProof) × (opened : Hash) × (from_ahl (openings.decode []) ≡ ok proof)
        × (proof.tree_size ≡ 1)
        × (proof.from_index ≡ 0)
        × (proof.to_index ≡ 1)
        × (from_ahl (toy.parse_hash_hex root) ≡ ok opened)
        × (from_ahl (openings.verify proof (leaf_hashes toy openings response.entries) opened)
            ≡ ok true))
unfolding verify_range_response
verify_range_response_sound_example = verify_range_response_sound toy openings response refl

abbrev blob : Bytes
blob = checkpoint_magic ++ (log_digest ++ (le_octets 8 1 ++ (le_octets 8 5 ++ root)))

verify_checkpoint_signature_sound_example :
    (checkpoint.log_id ≡ log_digest)
    × ((signed : Bytes) × (checkpoint_blob toy checkpoint ≡ ok signed)
        × (from_ahl (toy.verify_signature (codes "k") signed checkpoint.signature) ≡ ok true)
        × ((sent : Bytes) → some blob ≡ some sent → sent ≡ signed))
unfolding verify_checkpoint_signature ahl_mirror.Prelude.eq_bytes checkpoint_blob
    parse_checkpoint_time has_profile_time_shape render_checkpoint_time le_octets
verify_checkpoint_signature_sound_example =
    verify_checkpoint_signature_sound toy checkpoint (some blob) log_digest (codes "k") refl

digests : Digests toy
digests text hash h = ground arith

instants : (text : Text) (nanos : ℕ) → parse_checkpoint_time toy text ≡ ok nanos → nanos ≤ u64_max
unfolding parse_checkpoint_time
instants text nanos h = ground arith

checkpoint_blob_binds_example :
    (length blob ≡ 98)
    × (toy.parse_hash_hex log_digest ≡ toy.parse_hash_hex log_digest)
    × (checkpoint.tree_size ≡ checkpoint.tree_size)
    × (checkpoint.checkpoint_time ≡ checkpoint.checkpoint_time)
    × (toy.parse_hash_hex root ≡ toy.parse_hash_hex root)
unfolding checkpoint_blob parse_checkpoint_time has_profile_time_shape render_checkpoint_time
    ahl_mirror.Prelude.eq_bytes
checkpoint_blob_binds_example =
    checkpoint_blob_binds toy digests checkpoint checkpoint blob refl refl (omega arith)
      (omega arith) instants

-- Fractions are exact.
half_second : parse_iso8601_duration_nanos (codes "P1DT0.5S") ≡ ok 86_400_500_000_000
unfolding parse_iso8601_duration_nanos ahl_mirror.Duration.Strings.contains
    ahl_mirror.Duration.Strings.split_once ahl_mirror.Duration.Strings.all_digits
    ahl_mirror.Duration.Strings.parse_u64 ahl_mirror.Duration.Strings.strip_suffix
    ahl_mirror.Duration.Strings.pad_zeros
half_second = refl

-- A sign before the seconds is let in.
signed_seconds : parse_iso8601_duration_nanos (codes "PT+5S") ≡ ok 5_000_000_000
unfolding parse_iso8601_duration_nanos ahl_mirror.Duration.Strings.contains
    ahl_mirror.Duration.Strings.split_once ahl_mirror.Duration.Strings.strip_suffix
    ahl_mirror.Duration.Strings.parse_u64
signed_seconds = refl

abbrev pub opened_checkpoint : Checkpoint
opened_checkpoint = checkpoint_at 1 (log_leaf_hash toy envelope)

abbrev built : RangeResponse toy openings
built = record {
  range = record { from_index = 0; to_index = 1 };
  entries = record { entry_index = 0; envelope = envelope } ∷ [];
  adaptor_form = [];
  checkpoint = opened_checkpoint;
}

build_range_response_sound_example :
    (opened : Hash) × (nodes leaves : List Hash) × (0 < 1)
    × (1 ≤ 1)
    × (count_entries_raw entry_store 0 1 ≡ ok 1)
    × (from_ahl (toy.parse_hash_hex (log_leaf_hash toy envelope)) ≡ ok opened)
    × (subtree_root_raw toy entry_store 0 1 ≡ ok opened)
    × (open_spans toy openings entry_store
          (outside_subtrees toy.largest_power_of_2_less_than 0 1 0 1 (whole 1))
        ≡ ok nodes)
    × (leaf_hashes_range_raw entry_store 0 1 ≡ ok leaves)
    × (from_ahl
          (openings.verify (proof_over toy openings opened_checkpoint 0 1 nodes) leaves opened)
        ≡ ok true)
    × (built.adaptor_form ≡ openings.encode (proof_over toy openings opened_checkpoint 0 1 nodes))
    × (built.checkpoint ≡ opened_checkpoint)
    × (built.range.from_index ≡ 0)
    × (built.range.to_index ≡ 1)
    × Carries toy openings 0 (rows_between entry_store 0 1) built.entries
    × Contiguous toy openings 0 built.entries
unfolding ahl_mirror.Prelude.find_row ahl_mirror.Prelude.select ahl_mirror.Prelude.eq_bytes
    ahl_mirror.Prelude.le_bytes ahl_mirror.Store.Rows.staged_at ahl_mirror.Store.Rows.entry_at
    ahl_mirror.Store.Rows.entry_by_id ahl_mirror.Store.Rows.max_index ahl_mirror.Store.Rows.node_at
    ahl_mirror.Store.Rows.replace_node ahl_mirror.Store.Rows.insert_ordered
    ahl_mirror.Store.Rows.order_by ahl_mirror.Store.Rows.at_most ahl_mirror.Store.Rows.rows_between
    ahl_mirror.Store.Reads.count_entries_raw ahl_mirror.Store.Reads.get_entries_range_raw
    ahl_mirror.Store.Reads.leaf_hashes_of ahl_mirror.Store.Reads.leaf_hashes_range_raw
    ahl_mirror.Store.Reads.node_is_complete ahl_mirror.Store.Reads.get_node
    ahl_mirror.Store.Reads.run_walk ahl_mirror.Store.Reads.with_tree_nodes
    ahl_mirror.Store.Reads.inclusion_proof_raw ahl_mirror.Store.Reads.subtree_root_raw
    ahl_mirror.Store.Reads.log_root_raw ahl_mirror.Store.Reads.consistency_proof_measured_raw
    ahl_mirror.Store.Reads.require_blocks ahl_mirror.Store.Reads.require_subtree_cache_raw
    ahl_mirror.Range.open_spans ahl_mirror.Range.enumerate_window
    ahl_mirror.Range.build_range_response ahl_mirror.Range.check_contiguous
    ahl_mirror.Range.verify_range_response ahl_mirror.Range.Spans.classify
    ahl_mirror.Range.Spans.outside_subtrees ahl_mirror.Metadata.adaptor_metadata_object
    ahl_mirror.Metadata.adaptor_metadata_bytes ahl_mirror.Metadata.metadata_hash
    ahl_mirror.Metadata.log_leaf_hash ahl_mirror.Metadata.sha256_id
    ahl_mirror.Store.Nodes.tree_node_raw
build_range_response_sound_example =
    build_range_response_sound toy openings entry_store opened_checkpoint 0 1 built refl
