-- ===== src/Range/Roundtrip.antt =====
-- A response that src/range.rs builds, verified as a client does.
use ahl_mirror.Prelude.{
  ℕ, suc, Bytes, checked_add, Option, some, List, [], ◌∷◌, true, false, not, ◌==◌, ◌||◌, leb, ltb,
  eq_bytes, ◌≡◌, Bool, subst, refl, sym, ap, ap₂, ◌∙◌, arith, inl, inr, map, In, In-select, ◌&&◌,
}
use ahl_mirror.Error.{
  MirrorError, ok, ok_or, index_overflow, tree_material_missing, refuse_if, succeeds, ok-injective,
  incomplete_entries, invalid_range, checkpoint_root_mismatch,
}
use ahl_mirror.Deps.{Deps, Hash, from_ahl, from_json}
use ahl_mirror.Metadata.{log_leaf_hash}
use ahl_mirror.Store.Schema.{Connection, Checkpoint, EntryRow}
use ahl_mirror.Store.Rows.{rows_between}
use ahl_mirror.Store.Tree.{Hashed}
use ahl_mirror.Store.Migration.Backfill.{order_by-In}
use ahl_mirror.Store.Reads.{
  count_entries_raw, subtree_root_raw, leaf_hashes_of, leaf_hashes_range_raw, get_entries_range_raw,
}
use ahl_mirror.Store.Nodes.{hash_of_blob}
use ahl_mirror.Range.Spans.{outside_subtrees, whole}
use ahl_mirror.Range.{
  RangeProof, RangeProofs, EnumeratedEntry, RangeResponse, open_spans, enumerate_window,
  build_range_response, check_contiguous, leaf_hashes, verify_range_response,
}
use ahl_mirror.Range.Built.{proof_over}

module _ (d : Deps) where
  -- The envelope is the canonical text of the value that it parses to.
  abbrev pub IsCanonical : EntryRow → Type 0
  IsCanonical row =
      (value : d.Value)
      → from_json (d.from_slice row.envelope) ≡ ok value
      → d.jcs value ≡ row.envelope

  abbrev IsHashed : EntryRow → Type 0
  IsHashed row = row.leaf_hash ≡ some (log_leaf_hash d row.envelope)

  Hashed-In : (row : EntryRow) (rows : List EntryRow) → Hashed d rows → In row rows → IsHashed row
  Hashed-In row [] h here = absurd here
  Hashed-In row (other ∷ rows) h (inl e) = rw e at h.0
  Hashed-In row (other ∷ rows) h (inr there) = Hashed-In row rows h.1 there

  rows_between-In :
      (c : Connection) (from_index to_index : ℕ) (row : EntryRow)
      → In row (rows_between c from_index to_index)
      → In row c.entries
  unfolding rows_between
  rows_between-In c from_index to_index row h =
      (In-select (λ (r : EntryRow). leb from_index r.entry_index && ltb r.entry_index to_index) row
        c.entries (order_by-In row _ h)).0

passed_true :
    (verified : Bool) (size : ℕ) {u : Unit {0}}
    → refuse_if (not verified) (checkpoint_root_mismatch size) ≡ ok u
    → verified ≡ true
passed_true true size h = refl
passed_true false size h = cc

stored_hash :
    (leaf : Hash) (blob : Bytes) (hash : Hash) (held : Option Bytes) (level index : ℕ)
    (why : MirrorError)
    → held ≡ some leaf
    → ok_or why held ≡ ok blob
    → hash_of_blob level index blob ≡ ok hash
    → leaf ≡ hash
stored_hash leaf blob hash held level index why h k sized = ground arith

module _ (d : Deps) (proofs : RangeProofs) where
  -- The leaf hashes that a client recomputes are the stored ones.
  leaf_hashes-enumerate_window :
      (from_index offset : ℕ) (rows : List EntryRow) (entries : List (EnumeratedEntry d proofs))
      (leaves : List Hash)
      → ((row : EntryRow) → In row rows → IsHashed d row × IsCanonical d row)
      → leaf_hashes_of rows ≡ ok leaves
      → enumerate_window d proofs from_index offset (map (λ (row : EntryRow). row.envelope) rows)
        ≡ ok entries
      → leaf_hashes d proofs entries ≡ leaves
  unfolding leaf_hashes_of enumerate_window
  leaf_hashes-enumerate_window from_index offset [] entries leaves right h k =
      ap (leaf_hashes d proofs) (sym (ok-injective k)) ∙ ok-injective h
  leaf_hashes-enumerate_window from_index offset (row ∷ rows) entries leaves right h k =
      let (entry_index, added, k) =
        succeeds (ok_or (index_overflow "entry_index") (checked_add from_index offset)) k in
      let (value, parsed, k) = succeeds (from_json (d.from_slice row.envelope)) k in
      let (later, enumerated, k) =
        succeeds
          (enumerate_window d proofs from_index (suc offset)
            (map (λ (r : EntryRow). r.envelope) rows))
          k in
      let (blob, held, h) =
        succeeds (ok_or (tree_material_missing 0 row.entry_index) row.leaf_hash) h in
      let (hash, sized, h) = succeeds (hash_of_blob 0 row.entry_index blob) h in
      let (rest, read, h) = succeeds (leaf_hashes_of rows) h in
      let (hashed, canonical) = right row (inl refl) in
      let stored : log_leaf_hash d row.envelope ≡ hash =
        stored_hash (log_leaf_hash d row.envelope) blob hash row.leaf_hash 0 row.entry_index
          (tree_material_missing 0 row.entry_index) hashed held sized in
      let others =
        leaf_hashes-enumerate_window from_index (suc offset) rows later rest
          (λ other there. right other (inr there)) read enumerated in
      ap (leaf_hashes d proofs) (sym (ok-injective k))
      ∙ ap₂ (λ x xs. x ∷ xs) (ap (log_leaf_hash d) (canonical value parsed) ∙ stored) others
      ∙ ok-injective h

  check_contiguous-enumerate_window :
      (response : RangeResponse d proofs) (offset : ℕ) (window : List Bytes)
      (entries : List (EnumeratedEntry d proofs))
      → enumerate_window d proofs response.range.from_index offset window ≡ ok entries
      → check_contiguous d proofs response offset entries ≡ ok tt
  unfolding enumerate_window check_contiguous
  check_contiguous-enumerate_window response offset [] entries k = rw (sym (ok-injective k)) refl
  check_contiguous-enumerate_window response offset (bytes ∷ window) entries k =
      let (entry_index, added, k) =
        succeeds
          (ok_or (index_overflow "entry_index") (checked_add response.range.from_index offset)) k in
      let (value, parsed, k) = succeeds (from_json (d.from_slice bytes)) k in
      let (later, enumerated, k) =
        succeeds (enumerate_window d proofs response.range.from_index (suc offset) window) k in
      let rest = check_contiguous-enumerate_window response (suc offset) window later enumerated in
      rw (sym (ok-injective k)) (ground (arith, added, rest))

  -- The parts of a client's check.
  verify_parts :
      (response : RangeResponse d proofs) (proof : RangeProof) (root : Hash)
      → check_contiguous d proofs response 0 response.entries ≡ ok tt
      → from_ahl (proofs.decode response.adaptor_form) ≡ ok proof
      → proof.tree_size ≡ response.checkpoint.tree_size
      → proof.from_index ≡ response.range.from_index
      → proof.to_index ≡ response.range.to_index
      → from_ahl (d.parse_hash_hex response.checkpoint.root_hash) ≡ ok root
      → from_ahl (proofs.verify proof (leaf_hashes d proofs response.entries) root) ≡ ok true
      → verify_range_response d proofs response ≡ ok true
  unfolding verify_range_response
  verify_parts response proof root contiguous decoded size start end parsed verified =
      ground (arith, contiguous, decoded, size, start, end, parsed, verified)

  window_rows :
      (c : Connection) (from_index to_index : ℕ) (window : List Bytes) (leaves : List Hash)
      → get_entries_range_raw c from_index to_index ≡ ok window
      → leaf_hashes_range_raw c from_index to_index ≡ ok leaves
      → (window ≡ map (λ (row : EntryRow). row.envelope) (rows_between c from_index to_index))
        × (leaf_hashes_of (rows_between c from_index to_index) ≡ ok leaves)
  unfolding get_entries_range_raw leaf_hashes_range_raw
  window_rows c from_index to_index window leaves got read = (ground arith, ground arith)

  -- A client's check of a response, from the results of the steps that built it.
  built_verifies :
      (c : Connection) (cp : Checkpoint) (from_index to_index : ℕ) (root : Hash)
      (proof : RangeProof) (leaves : List Hash) (verified : Bool) (window : List Bytes)
      (entries : List (EnumeratedEntry d proofs))
      → Hashed d c.entries
      → ((row : EntryRow) → In row c.entries → IsCanonical d row)
      → proof.tree_size ≡ cp.tree_size
      → proof.from_index ≡ from_index
      → proof.to_index ≡ to_index
      → from_ahl (proofs.decode (proofs.encode proof)) ≡ ok proof
      → from_ahl (d.parse_hash_hex cp.root_hash) ≡ ok root
      → leaf_hashes_range_raw c from_index to_index ≡ ok leaves
      → from_ahl (proofs.verify proof leaves root) ≡ ok verified
      → verified ≡ true
      → get_entries_range_raw c from_index to_index ≡ ok window
      → enumerate_window d proofs from_index 0 window ≡ ok entries
      → verify_range_response d proofs (record {
        range = record { from_index = from_index; to_index = to_index };
        entries = entries;
        adaptor_form = proofs.encode proof;
        checkpoint = cp;
      })
        ≡ ok true
  built_verifies c cp from_index to_index root proof leaves verified window entries hashed canonical
        size start end decoded parsed read verifies passed got enumerated =
      let (windowed, leaves_read) = window_rows c from_index to_index window leaves got read in
      let from_rows = ap (enumerate_window d proofs from_index 0) (sym windowed) ∙ enumerated in
      let same_leaves =
        leaf_hashes-enumerate_window from_index 0 (rows_between c from_index to_index) entries
          leaves
          (λ row here.
            let there = rows_between-In d c from_index to_index row here in
            (Hashed-In d row c.entries hashed there, canonical row there))
          leaves_read from_rows in
      let built : RangeResponse d proofs = record {
        range = record { from_index = from_index; to_index = to_index };
        entries = entries;
        adaptor_form = proofs.encode proof;
        checkpoint = cp;
      } in
      verify_parts built proof root
        (check_contiguous-enumerate_window built 0 window entries enumerated) decoded size start end
        parsed
        (ap (λ hashes. from_ahl (proofs.verify proof hashes root)) same_leaves
          ∙ verifies
          ∙ ap ok passed)

  -- A range response that is built verifies on the client's side, when the stored entries are
  -- canonical JSON with their log leaf hashes, and a range proof decodes from its encoding.
  pub verify_range_response-build_range_response :
      (c : Connection) (cp : Checkpoint) (from_index to_index : ℕ)
      (response : RangeResponse d proofs)
      → Hashed d c.entries
      → ((row : EntryRow) → In row c.entries → IsCanonical d row)
      → ((proof : RangeProof) → from_ahl (proofs.decode (proofs.encode proof)) ≡ ok proof)
      → build_range_response d proofs c cp from_index to_index ≡ ok response
      → verify_range_response d proofs response ≡ ok true
  unfolding build_range_response
  verify_range_response-build_range_response c cp from_index to_index response hashed canonical
        codec h =
      let (have, counted, h) = succeeds (count_entries_raw c 0 cp.tree_size) h in
      let (whole_held, full, h) =
        succeeds (refuse_if (not (have == cp.tree_size)) (incomplete_entries have cp.tree_size))
          h in
      let (inside, bounds, h) =
        succeeds
          (refuse_if (leb to_index from_index || ltb cp.tree_size to_index)
            (invalid_range from_index to_index cp.tree_size))
          h in
      let (root, parsed, h) = succeeds (from_ahl (d.parse_hash_hex cp.root_hash)) h in
      let (opened, opens, h) = succeeds (subtree_root_raw d c 0 cp.tree_size) h in
      let (same_root, checked, h) =
        succeeds (refuse_if (not (eq_bytes opened root)) (checkpoint_root_mismatch cp.tree_size))
          h in
      let (nodes, spans, h) =
        succeeds
          (open_spans d proofs c (
            outside_subtrees d.largest_power_of_2_less_than from_index to_index 0 cp.tree_size
              (whole cp.tree_size)))
          h in
      let proof = proof_over d proofs cp from_index to_index nodes in
      let (leaves, read, h) = succeeds (leaf_hashes_range_raw c from_index to_index) h in
      let (verified, verifies, h) = succeeds (from_ahl (proofs.verify proof leaves root)) h in
      let (passed, sound, h) =
        succeeds (refuse_if (not verified) (checkpoint_root_mismatch cp.tree_size)) h in
      let (window, got, h) = succeeds (get_entries_range_raw c from_index to_index) h in
      let (entries, enumerated, h) = succeeds (enumerate_window d proofs from_index 0 window) h in
      subst (λ r. verify_range_response d proofs r ≡ ok true) (ok-injective h)
        (built_verifies c cp from_index to_index root proof leaves verified window entries hashed
          canonical refl refl refl (codec proof) parsed read verifies
          (passed_true verified cp.tree_size sound) got enumerated)
