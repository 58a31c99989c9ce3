-- ===== src/Range/Verified.antt =====
-- What a client knows once `verify_range_response` of src/range.rs has accepted a response.
use ahl_mirror.Prelude.{ℕ, suc, ◌+◌, List, [], ◌∷◌, true, ◌≡◌, inl, inr, arith}
use ahl_mirror.Error.{ok, Result-cases}
use ahl_mirror.Deps.{Deps, Hash, from_ahl}
use ahl_mirror.Range.{
  RangeProof, RangeProofs, EnumeratedEntry, RangeResponse, check_contiguous, leaf_hashes,
  verify_range_response,
}

module _ (d : Deps) (proofs : RangeProofs) where
  -- The entries stand at `from`, `from + 1`, ….
  abbrev pub Contiguous : ℕ → List (EnumeratedEntry d proofs) → Type 0
  Contiguous from [] = Unit
  Contiguous from (entry ∷ entries) = (entry.entry_index ≡ from) × Contiguous (suc from) entries

  check_contiguous_lem :
      (response : RangeResponse d proofs) (offset : ℕ) (entries : List (EnumeratedEntry d proofs))
      → check_contiguous d proofs response offset entries ≡ ok tt
      → Contiguous (response.range.from_index + offset) entries
  unfolding check_contiguous
  check_contiguous_lem response offset [] h = tt
  check_contiguous_lem response offset (entry ∷ entries) h =
      let next = check_contiguous_lem response (suc offset) entries (ground arith) in
      let step : suc (response.range.from_index + offset) ≡ response.range.from_index + suc offset =
        omega arith in
      (ground arith, rw step next)

  -- A response that the client verifies enumerates consecutive indexes from the start of its window,
  -- its proof names the checkpoint's tree size and the window's bounds, and that proof opens the
  -- checkpoint's root for the leaf hashes recomputed from the entries that were served.
  pub verify_range_response_sound :
      (response : RangeResponse d proofs)
      → verify_range_response d proofs response ≡ ok true
      → Contiguous response.range.from_index response.entries
        × ((proof : RangeProof) × (root : Hash) × (from_ahl (proofs.decode response.adaptor_form)
              ≡ ok proof)
            × (proof.tree_size ≡ response.checkpoint.tree_size)
            × (proof.from_index ≡ response.range.from_index)
            × (proof.to_index ≡ response.range.to_index)
            × (from_ahl (d.parse_hash_hex response.checkpoint.root_hash) ≡ ok root)
            × (from_ahl (proofs.verify proof (leaf_hashes d proofs response.entries) root)
                ≡ ok true))
  unfolding verify_range_response
  verify_range_response_sound response h =
      let start : response.range.from_index + 0 ≡ response.range.from_index = omega arith in
      elim (Result-cases (check_contiguous d proofs response 0 response.entries)) [
        | inr (e, failed) ↦ absurd (ground (arith, failed))
        | inl (done, contiguous) ↦
            elim (Result-cases (from_ahl (proofs.decode response.adaptor_form))) [
              | inr (e, failed) ↦ absurd (ground (arith, contiguous, failed))
              | inl (proof, decoded) ↦
                  elim (Result-cases (from_ahl (d.parse_hash_hex response.checkpoint.root_hash))) [
                    | inr (e, failed) ↦ absurd (ground (arith, contiguous, decoded, failed))
                    | inl (root, parsed) ↦ (
                      rw start at (check_contiguous_lem response 0 response.entries contiguous),
                      (
                        proof,
                        root,
                        decoded,
                        ground (arith, contiguous, decoded, parsed),
                        ground (arith, contiguous, decoded, parsed),
                        ground (arith, contiguous, decoded, parsed),
                        parsed,
                        ground (arith, contiguous, decoded, parsed),
                      ),
                    )
                  ]
            ]
      ]
