-- ===== src/Range.antt =====
-- src/range.rs: range enumeration. `Spans` splits the tree around the window, this module builds and
-- verifies responses.
pub mod Spans
pub mod Cover
pub mod Verified
pub mod Built
pub mod Roundtrip
use ahl_mirror.Prelude.{
  ℕ, suc, ◌+◌, Bytes, Text, Option, some, none, List, [], ◌∷◌, Bool, ◌||◌, ◌==◌, not, leb, ltb,
  eq_bytes, length, if◌then◌else◌, checked_add, saturating_add,
}
use ahl_mirror.Error.{
  MirrorResult, ok, err, ok_or, refuse_if, incomplete_entries, invalid_range,
  checkpoint_root_mismatch, index_overflow, ◌>>=◌, ◌>>◌,
}
use ahl_mirror.Deps.{Deps, Hash, Fallible, from_ahl, from_json}
use ahl_mirror.Metadata.{log_leaf_hash}
use ahl_mirror.Store.Schema.{Connection, Checkpoint}
use ahl_mirror.Store.Reads.{
  count_entries_raw, subtree_root_raw, leaf_hashes_range_raw, get_entries_range_raw,
}
use Spans.{outside_subtrees, whole}

-- `RangeProof` of ahl_core::range_proof.
pub record RangeProof : Type 0 where
  pub tree_size : ℕ
  pub from_index : ℕ
  pub to_index : ℕ
  pub nodes : List Hash

-- ahl_core::range_proof.
pub record RangeProofs : Type 0 where
  pub verify : RangeProof → List Hash → Hash → Fallible Bool
  pub encode : RangeProof → Text
  pub decode : Text → Fallible RangeProof

pub record RangeEnvelope : Type 0 where
  pub from_index : ℕ
  pub to_index : ℕ

module _ (d : Deps) (proofs : RangeProofs) where
  open d use {Value, from_slice, jcs, parse_hash_hex, largest_power_of_2_less_than}

  pub record EnumeratedEntry : Type 0 where
    pub entry_index : ℕ
    pub envelope : Value

  pub record RangeResponse : Type 0 where
    pub range : RangeEnvelope
    pub entries : List EnumeratedEntry
    -- `range_proof.adaptor_form`
    pub adaptor_form : Text
    pub checkpoint : Checkpoint

  -- `nodes.push(open(offset, size)?)` over the spans.
  unfoldable pub open_spans : Connection → List (ℕ × ℕ) → MirrorResult (List Hash)
  open_spans c [] = ok []
  open_spans c ((offset, size) ∷ spans) = do
    node ← subtree_root_raw d c offset size
    nodes ← open_spans c spans
    ok (node ∷ nodes)

  -- The enumerated window, from the offset `offset`.
  unfoldable pub enumerate_window :
      (from_index offset : ℕ) → List Bytes → MirrorResult (List EnumeratedEntry)
  enumerate_window from_index offset [] = ok []
  enumerate_window from_index offset (bytes ∷ window) = do
    entry_index ← ok_or (index_overflow "entry_index") (checked_add from_index offset)
    envelope ← from_json (from_slice bytes)
    entries ← enumerate_window from_index (suc offset) window
    ok (record { entry_index = entry_index; envelope = envelope } ∷ entries)

  -- The response of `build_range_response_in`; what it counts beside is not modelled.
  unfoldable pub build_range_response :
      Connection → Checkpoint → (from_index to_index : ℕ) → MirrorResult RangeResponse
  build_range_response c checkpoint from_index to_index = do
    have ← count_entries_raw c 0 checkpoint.tree_size
    refuse_if (not (have == checkpoint.tree_size)) (incomplete_entries have checkpoint.tree_size)
    refuse_if (leb to_index from_index || ltb checkpoint.tree_size to_index)
        (invalid_range from_index to_index checkpoint.tree_size)
    root ← from_ahl (parse_hash_hex checkpoint.root_hash)
    opened ← subtree_root_raw d c 0 checkpoint.tree_size
    refuse_if (not (eq_bytes opened root)) (checkpoint_root_mismatch checkpoint.tree_size)
    nodes ← open_spans c (
        outside_subtrees largest_power_of_2_less_than from_index to_index 0 checkpoint.tree_size
          (whole checkpoint.tree_size))
    let proof : RangeProof = record {
      tree_size = checkpoint.tree_size;
      from_index = from_index;
      to_index = to_index;
      nodes = nodes;
    }
    window_leaves ← leaf_hashes_range_raw c from_index to_index
    verified ← from_ahl (proofs.verify proof window_leaves root)
    refuse_if (not verified) (checkpoint_root_mismatch checkpoint.tree_size)
    window ← get_entries_range_raw c from_index to_index
    entries ← enumerate_window from_index 0 window
    ok (record {
      range = record { from_index = from_index; to_index = to_index };
      entries = entries;
      adaptor_form = proofs.encode proof;
      checkpoint = checkpoint;
    })

  -- The first loop of `verify_range_response`: the entries stand at `from_index`, `from_index + 1`, …
  unfoldable pub check_contiguous :
      RangeResponse → (offset : ℕ) → List EnumeratedEntry → MirrorResult (Unit {0})
  check_contiguous response offset [] = ok tt
  check_contiguous response offset (entry ∷ entries) = do
    expected ← ok_or (index_overflow "entry_index") (checked_add response.range.from_index offset)
    refuse_if (not (entry.entry_index == expected)) (
        invalid_range response.range.from_index response.range.to_index
          response.checkpoint.tree_size)
    check_contiguous response (suc offset) entries

  abbrev pub leaf_hashes : List EnumeratedEntry → List Hash
  leaf_hashes [] = []
  leaf_hashes (entry ∷ entries) = log_leaf_hash d (jcs entry.envelope) ∷ leaf_hashes entries

  unfoldable pub verify_range_response : RangeResponse → MirrorResult Bool
  unfolding check_contiguous
  verify_range_response response = do
    check_contiguous response 0 response.entries
    proof ← from_ahl (proofs.decode response.adaptor_form)
    refuse_if
        (not (proof.tree_size == response.checkpoint.tree_size)
          || (not (proof.from_index == response.range.from_index)
              || not (proof.to_index == response.range.to_index)))
        (invalid_range response.range.from_index response.range.to_index
          response.checkpoint.tree_size)
    root ← from_ahl (parse_hash_hex response.checkpoint.root_hash)
    from_ahl (proofs.verify proof (leaf_hashes response.entries) root)
