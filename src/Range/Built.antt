-- ===== src/Range/Built.antt =====
-- What a response that `build_range_response_in` of src/range.rs returns rests on.
use ahl_mirror.Prelude.{
  ℕ, suc, ◌+◌, ◌<◌, ◌≤◌, Bytes, List, [], ◌∷◌, Bool, true, false, ◌≡◌, inl, inr, arith, refl, sym,
  eq_bytes→eq, ap, ◌∙◌, map, subst, checked_add, not, leb, ltb, ◌==◌, ◌||◌, eq_bytes,
}
use ahl_mirror.Error.{
  ok, Result-cases, succeeds, ok-injective, ok_or, refuse_if, refuse_if-false, index_overflow,
}
use ahl_mirror.Deps.{Deps, Hash, from_ahl, from_json}
use ahl_mirror.Store.Schema.{Connection, Checkpoint, EntryRow}
use ahl_mirror.Store.Rows.{rows_between}
use ahl_mirror.Store.Reads.{
  count_entries_raw, subtree_root_raw, leaf_hashes_range_raw, get_entries_range_raw,
}
use ahl_mirror.Range.Spans.{outside_subtrees, whole}
use ahl_mirror.Range.{
  RangeProof, RangeProofs, EnumeratedEntry, RangeResponse, open_spans, enumerate_window,
  build_range_response,
}
use ahl_mirror.Range.Verified.{Contiguous}

module _ (d : Deps) (proofs : RangeProofs) where
  enumerate_window-Contiguous :
      (from_index offset : ℕ) (window : List Bytes) (entries : List (EnumeratedEntry d proofs))
      → enumerate_window d proofs from_index offset window ≡ ok entries
      → Contiguous d proofs (from_index + offset) entries
  unfolding enumerate_window
  enumerate_window-Contiguous from_index offset [] entries h =
      let same : entries ≡ [] = ground arith in rw same tt
  enumerate_window-Contiguous from_index offset (bytes ∷ window) entries h =
      elim (Result-cases (from_json (d.from_slice bytes))) [
        | inr (e, failed) ↦ absurd (ground (arith, failed))
        | inl (envelope, parsed) ↦
            elim (Result-cases (enumerate_window d proofs from_index (suc offset) window)) [
              | inr (e, failed) ↦ absurd (ground (arith, parsed, failed))
              | inl (rest, enumerated) ↦
                  let later =
                    enumerate_window-Contiguous from_index (suc offset) window rest enumerated in
                  let next : from_index + suc offset ≡ suc (from_index + offset) = omega arith in
                  let first : EnumeratedEntry d proofs = record {
                    entry_index = from_index + offset;
                    envelope = envelope;
                  } in
                  let same : entries ≡ first ∷ rest = ground (arith, parsed, enumerated) in
                  rw same (refl, rw next at later)
            ]
      ]

  -- The entries are the rows, one for one and in order: each is numbered by its place from a first
  -- index, and its envelope is what the stored bytes of its row parse to.
  abbrev pub Carries : ℕ → List EntryRow → List (EnumeratedEntry d proofs) → Type 0
  Carries index [] [] = Unit
  Carries index [] (entry ∷ entries) = ⊥
  Carries index (row ∷ rows) [] = ⊥
  Carries index (row ∷ rows) (entry ∷ entries) =
      (entry.entry_index ≡ index)
      × (from_json (d.from_slice row.envelope) ≡ ok entry.envelope)
      × Carries (suc index) rows entries

  enumerate_window-Carries :
      (from_index offset : ℕ) (rows : List EntryRow) (entries : List (EnumeratedEntry d proofs))
      → enumerate_window d proofs from_index offset (map (λ (row : EntryRow). row.envelope) rows)
        ≡ ok entries
      → Carries (from_index + offset) rows entries
  unfolding enumerate_window
  enumerate_window-Carries from_index offset [] entries h =
      let same : entries ≡ [] = ground arith in rw same tt
  enumerate_window-Carries from_index offset (row ∷ rows) entries h =
      let (index, counted, h1) =
        succeeds (ok_or (index_overflow "entry_index") (checked_add from_index offset)) h in
      let (envelope, parsed, h2) = succeeds (from_json (d.from_slice row.envelope)) h1 in
      let (rest, enumerated, h3) =
        succeeds
          (enumerate_window d proofs from_index (suc offset)
            (map (λ (row : EntryRow). row.envelope) rows))
          h2 in
      let first : EnumeratedEntry d proofs = record { entry_index = index; envelope = envelope } in
      let same : first ∷ rest ≡ entries = ok-injective h3 in
      let next : from_index + suc offset ≡ suc (from_index + offset) = omega arith in
      let later = enumerate_window-Carries from_index (suc offset) rows rest enumerated in
      subst (Carries (from_index + offset) (row ∷ rows)) same
        (ground (arith, counted), parsed, rw next at later)

  window_rows :
      (c : Connection) (from_index to_index : ℕ) (window : List Bytes)
      → get_entries_range_raw c from_index to_index ≡ ok window
      → window ≡ map (λ (row : EntryRow). row.envelope) (rows_between c from_index to_index)
  unfolding get_entries_range_raw
  window_rows c from_index to_index window got = ground arith

  -- The proof of a response over the nodes that the spans open to.
  abbrev pub proof_over : Checkpoint → (from_index to_index : ℕ) → List Hash → RangeProof
  proof_over cp from_index to_index nodes = record {
    tree_size = cp.tree_size;
    from_index = from_index;
    to_index = to_index;
    nodes = nodes;
  }

  -- The window is a non-empty one of a tree that is held in full and whose stored material opens the
  -- checkpoint's root; the response has the checkpoint, the window, its stored rows and the proof made of
  -- the roots of the spans outside it, which the stored leaf hashes of the window verify.
  abbrev pub Opens : Connection → Checkpoint → ℕ → ℕ → RangeResponse d proofs → Type 0
  Opens c cp from_index to_index response =
      (root : Hash) × (nodes leaves : List Hash) × (from_index < to_index)
      × (to_index ≤ cp.tree_size)
      × (count_entries_raw c 0 cp.tree_size ≡ ok cp.tree_size)
      × (from_ahl (d.parse_hash_hex cp.root_hash) ≡ ok root)
      × (subtree_root_raw d c 0 cp.tree_size ≡ ok root)
      × (open_spans d proofs c (
            outside_subtrees d.largest_power_of_2_less_than from_index to_index 0 cp.tree_size
              (whole cp.tree_size))
          ≡ ok nodes)
      × (leaf_hashes_range_raw c from_index to_index ≡ ok leaves)
      × (from_ahl (proofs.verify (proof_over cp from_index to_index nodes) leaves root) ≡ ok true)
      × (response.adaptor_form ≡ proofs.encode (proof_over cp from_index to_index nodes))
      × (response.checkpoint ≡ cp)
      × (response.range.from_index ≡ from_index)
      × (response.range.to_index ≡ to_index)
      × Carries from_index (rows_between c from_index to_index) response.entries
      × Contiguous d proofs from_index response.entries

  -- What is built from parts that passed the checks is as `build_range_response_sound` says.
  built_parts :
      (c : Connection) (cp : Checkpoint) (from_index to_index have : ℕ) (root opened : Hash)
      (nodes leaves : List Hash) (verified : Bool) (window : List Bytes)
      (entries : List (EnumeratedEntry d proofs)) (response : RangeResponse d proofs)
      → count_entries_raw c 0 cp.tree_size ≡ ok have
      → not (have == cp.tree_size) ≡ false
      → (leb to_index from_index || ltb cp.tree_size to_index) ≡ false
      → from_ahl (d.parse_hash_hex cp.root_hash) ≡ ok root
      → subtree_root_raw d c 0 cp.tree_size ≡ ok opened
      → not (eq_bytes opened root) ≡ false
      → open_spans d proofs c (
          outside_subtrees d.largest_power_of_2_less_than from_index to_index 0 cp.tree_size
            (whole cp.tree_size))
        ≡ ok nodes
      → leaf_hashes_range_raw c from_index to_index ≡ ok leaves
      → from_ahl (proofs.verify (proof_over cp from_index to_index nodes) leaves root) ≡ ok verified
      → not verified ≡ false
      → get_entries_range_raw c from_index to_index ≡ ok window
      → enumerate_window d proofs from_index 0 window ≡ ok entries
      → record {
        range = record { from_index = from_index; to_index = to_index };
        entries = entries;
        adaptor_form = proofs.encode (proof_over cp from_index to_index nodes);
        checkpoint = cp;
      }
        ≡ response
      → Opens c cp from_index to_index response
  built_parts c cp from_index to_index have root opened nodes leaves verified window entries
        response counted full inside parsed read opens spans hashes verifies passes got enumerated
        same =
      let start : from_index + 0 ≡ from_index = omega arith in
      let rows =
        ap (enumerate_window d proofs from_index 0)
          (sym (window_rows c from_index to_index window got))
        ∙ enumerated in
      let carried = enumerate_window-Carries from_index 0 _ entries rows in
      let numbered = enumerate_window-Contiguous from_index 0 window entries enumerated in
      let held : have ≡ cp.tree_size = ground arith in
      let checked : verified ≡ true = ground arith in
      (
        root,
        nodes,
        leaves,
        ground (arith, inside),
        ground (arith, inside),
        rw held at counted,
        parsed,
        rw (eq_bytes→eq opened root (ground (arith, opens))) at read,
        spans,
        hashes,
        rw checked at verifies,
        ap (λ (r : RangeResponse d proofs). r.adaptor_form) (sym same),
        ap (λ (r : RangeResponse d proofs). r.checkpoint) (sym same),
        ap (λ (r : RangeResponse d proofs). r.range.from_index) (sym same),
        ap (λ (r : RangeResponse d proofs). r.range.to_index) (sym same),
        subst (λ es. Carries from_index (rows_between c from_index to_index) es)
            (ap (λ (r : RangeResponse d proofs). r.entries) same) (rw start at carried),
        subst (λ es. Contiguous d proofs from_index es)
            (ap (λ (r : RangeResponse d proofs). r.entries) same) (rw start at numbered),
      )

  -- A range response is built only for a non-empty window inside a tree whose entries are all held and
  -- whose stored material opens the checkpoint's root. It carries the checkpoint, the window, and the
  -- stored rows of the window, one for one, in order and each parsed, numbered without a gap from the
  -- window's start; and the proof made of the roots of the spans outside the window, which was verified
  -- against that root with the stored leaf hashes of the window.
  pub build_range_response_sound :
      (c : Connection) (cp : Checkpoint) (from_index to_index : ℕ)
      (response : RangeResponse d proofs)
      → build_range_response d proofs c cp from_index to_index ≡ ok response
      → Opens c cp from_index to_index response
  unfolding build_range_response
  build_range_response_sound c cp from_index to_index response h =
      let spans =
        outside_subtrees d.largest_power_of_2_less_than from_index to_index 0 cp.tree_size
          (whole cp.tree_size) in
      let (have, e1, h1) = succeeds (count_entries_raw c 0 cp.tree_size) h in
      let (done, full, h2) = succeeds (refuse_if (not (have == cp.tree_size)) _) h1 in
      let (done, inside, h3) =
        succeeds (refuse_if (leb to_index from_index || ltb cp.tree_size to_index) _) h2 in
      let (root, e2, h4) = succeeds (from_ahl (d.parse_hash_hex cp.root_hash)) h3 in
      let (opened, e3, h5) = succeeds (subtree_root_raw d c 0 cp.tree_size) h4 in
      let (done, opens, h6) = succeeds (refuse_if (not (eq_bytes opened root)) _) h5 in
      let (nodes, e4, h7) = succeeds (open_spans d proofs c spans) h6 in
      let (leaves, e5, h8) = succeeds (leaf_hashes_range_raw c from_index to_index) h7 in
      let (verified, e6, h9) =
        succeeds (from_ahl (proofs.verify (proof_over cp from_index to_index nodes) leaves root))
          h8 in
      let (done, passes, h10) = succeeds (refuse_if (not verified) _) h9 in
      let (window, e7, h11) = succeeds (get_entries_range_raw c from_index to_index) h10 in
      let (entries, e8, h12) = succeeds (enumerate_window d proofs from_index 0 window) h11 in
      built_parts c cp from_index to_index have root opened nodes leaves verified window entries
        response e1 (refuse_if-false _ _ full) (refuse_if-false _ _ inside) e2 e3
        (refuse_if-false _ _ opens) e4 e5 e6 (refuse_if-false _ _ passes) e7 e8 (ok-injective h12)
