-- ===== src/Tests/Range.antt =====
-- A codec of range proofs that loses nothing, and a response that is built and then verified.
use ahl_mirror.Prelude.{
  ℕ, Bytes, sym, zero, suc, List, [], ◌∷◌, ◌++◌, true, ◌≡◌, refl, ap, inl, inr, Text, codes, leb,
  length, In,
}
use ahl_mirror.Error.{ok, ok-injective}
use ahl_mirror.Deps.{Hash, Fallible, from_ahl, from_json}
use ahl_mirror.Store.Schema.{EntryRow}
use ahl_mirror.Range.{
  RangeProof, RangeProofs, RangeResponse, build_range_response, verify_range_response,
}
use ahl_mirror.Range.Roundtrip.{IsCanonical, verify_range_response-build_range_response}
use ahl_mirror.Tests.Toy.{toy}
use ahl_mirror.Tests.Data.{envelope, entry_store}
use ahl_mirror.Tests.Reading.{opened_checkpoint}

-- A node is its octets, each one more, and a zero.
abbrev encode_node : Hash → Text
encode_node [] = 0 ∷ []
encode_node (x ∷ xs) = suc x ∷ encode_node xs

abbrev encode_nodes : List Hash → Text
encode_nodes [] = []
encode_nodes (node ∷ nodes) = encode_node node ++ encode_nodes nodes

abbrev onto_first : ℕ → List Hash → List Hash
onto_first x [] = []
onto_first x (node ∷ nodes) = (x ∷ node) ∷ nodes

abbrev decode_nodes : Text → List Hash
decode_nodes [] = []
decode_nodes (zero ∷ text) = [] ∷ decode_nodes text
decode_nodes (suc x ∷ text) = onto_first x (decode_nodes text)

decode_nodes-encode_node :
    (node : Hash) (text : Text) → decode_nodes (encode_node node ++ text) ≡ node ∷ decode_nodes text
decode_nodes-encode_node [] text = refl
decode_nodes-encode_node (x ∷ xs) text = ap (onto_first x) (decode_nodes-encode_node xs text)

decode_nodes-encode_nodes : (nodes : List Hash) → decode_nodes (encode_nodes nodes) ≡ nodes
decode_nodes-encode_nodes [] = refl
decode_nodes-encode_nodes (node ∷ nodes) =
    rw (decode_nodes-encode_node, decode_nodes-encode_nodes nodes) refl

abbrev decode_proof : Text → Fallible RangeProof
decode_proof (size ∷ start ∷ end ∷ text) =
    inr (record { tree_size = size; from_index = start; to_index = end; nodes = decode_nodes text })
decode_proof (size ∷ start ∷ []) = inl (codes "short")
decode_proof (size ∷ []) = inl (codes "short")
decode_proof [] = inl (codes "short")

abbrev codec : RangeProofs
codec = record {
  verify = λ proof leaves root. inr (leb (length leaves) proof.tree_size);
  encode = λ proof. proof.tree_size ∷ proof.from_index ∷ proof.to_index ∷ encode_nodes proof.nodes;
  decode = decode_proof;
}

codec_keeps : (proof : RangeProof) → from_ahl (codec.decode (codec.encode proof)) ≡ ok proof
codec_keeps proof = rw (decode_nodes-encode_nodes proof.nodes) refl

parsed_whole : (bytes value : Bytes) → from_json (toy.from_slice bytes) ≡ ok value → value ≡ bytes
parsed_whole [] value h = cc
parsed_whole (b ∷ bytes) value h = sym (ok-injective h)

entry_IsCanonical : (row : EntryRow) → In row entry_store.entries → IsCanonical toy row
entry_IsCanonical row here value parsed = parsed_whole row.envelope value parsed

abbrev answer : RangeResponse toy codec
answer = record {
  range = record { from_index = 0; to_index = 1 };
  entries = record { entry_index = 0; envelope = envelope } ∷ [];
  adaptor_form = 1 ∷ 0 ∷ 1 ∷ [];
  checkpoint = opened_checkpoint;
}

answer_built : build_range_response toy codec entry_store opened_checkpoint 0 1 ≡ ok answer
unfolding ahl_mirror.Prelude.find_row ahl_mirror.Prelude.select ahl_mirror.Prelude.eq_bytes
    ahl_mirror.Prelude.le_bytes ahl_mirror.Store.Rows.staged_at ahl_mirror.Store.Rows.entry_at
    ahl_mirror.Store.Rows.entry_by_id ahl_mirror.Store.Rows.max_index ahl_mirror.Store.Rows.node_at
    ahl_mirror.Store.Rows.replace_node ahl_mirror.Store.Rows.insert_ordered
    ahl_mirror.Store.Rows.order_by ahl_mirror.Store.Rows.at_most ahl_mirror.Store.Rows.rows_between
    ahl_mirror.Store.Reads.count_entries_raw ahl_mirror.Store.Reads.get_entries_range_raw
    ahl_mirror.Store.Reads.leaf_hashes_of ahl_mirror.Store.Reads.leaf_hashes_range_raw
    ahl_mirror.Store.Reads.node_is_complete ahl_mirror.Store.Reads.get_node
    ahl_mirror.Store.Reads.run_walk ahl_mirror.Store.Reads.with_tree_nodes
    ahl_mirror.Store.Reads.inclusion_proof_raw ahl_mirror.Store.Reads.subtree_root_raw
    ahl_mirror.Store.Reads.log_root_raw ahl_mirror.Store.Reads.consistency_proof_measured_raw
    ahl_mirror.Store.Reads.require_blocks ahl_mirror.Store.Reads.require_subtree_cache_raw
    ahl_mirror.Range.open_spans ahl_mirror.Range.enumerate_window
    ahl_mirror.Range.build_range_response ahl_mirror.Range.check_contiguous
    ahl_mirror.Range.verify_range_response ahl_mirror.Range.Spans.classify
    ahl_mirror.Range.Spans.outside_subtrees ahl_mirror.Metadata.adaptor_metadata_object
    ahl_mirror.Metadata.adaptor_metadata_bytes ahl_mirror.Metadata.metadata_hash
    ahl_mirror.Metadata.log_leaf_hash ahl_mirror.Metadata.sha256_id
    ahl_mirror.Store.Nodes.tree_node_raw
answer_built = refl

verify_range_response-build_range_response_example :
    verify_range_response toy codec answer ≡ ok true
verify_range_response-build_range_response_example =
    verify_range_response-build_range_response toy codec entry_store opened_checkpoint 0 1 answer
      (refl, tt) entry_IsCanonical codec_keeps answer_built
