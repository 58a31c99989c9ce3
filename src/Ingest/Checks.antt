-- ===== src/Ingest/Checks.antt =====
-- src/ingest.rs: the checks that read no database.
use ahl_mirror.Prelude.{
  ℕ, Bytes, Text, Option, none, some, List, [], ◌∷◌, Bool, true, false, not, eq_bytes,
}
use ahl_mirror.Error.{
  MirrorResult, refuse_if, entry_id_mismatch, malformed_envelope, not_canonical,
  wrong_adaptor_metadata, ◌>>=◌, ◌>>◌,
}
use ahl_mirror.Deps.{Deps, Hash, from_ahl, from_atl, from_json}
use ahl_mirror.Metadata.{log_leaf_hash, adaptor_metadata_bytes, sha256_id}

-- `is_some_and`, and `is_none_or(Vec::is_empty)` negated.
abbrev pub is_some_and {ℓ} : {A : Type ℓ} → (A → Bool) → Option A → Bool
is_some_and p none = false
is_some_and p (some a) = p a

abbrev pub non_empty {ℓ} : {A : Type ℓ} → List A → Bool
non_empty [] = false
non_empty (x ∷ xs) = true

abbrev pub and_then {ℓ κ} : {A : Type ℓ} {B : Type κ} → (A → Option B) → Option A → Option B
and_then f none = none
and_then f (some a) = f a

module _ (d : Deps) where
  open d use {Value, from_slice, is_object, get, as_array, jcs, proof_from_hex, verify_inclusion}

  -- Steps 1 to 5 of `stage_entry`.
  unfoldable pub check_entry : Text → Bytes → Value → MirrorResult (Unit {0})
  check_entry claimed_entry_id bytes atl_metadata = do
    let computed_id = sha256_id d bytes
    refuse_if (not (eq_bytes computed_id claimed_entry_id))
        (entry_id_mismatch claimed_entry_id computed_id)
    value ← from_json (from_slice bytes)
    refuse_if (not (is_object value)) (malformed_envelope "not a JSON object")
    refuse_if (not (is_some_and is_object (get value "payload")))
        (malformed_envelope "missing object field `payload`")
    refuse_if (not (is_some_and non_empty (and_then as_array (get value "signatures"))))
        (malformed_envelope "missing non-empty array field `signatures`")
    refuse_if (not (eq_bytes (jcs value) bytes)) not_canonical
    let metadata_canonical = jcs atl_metadata
    refuse_if (not (eq_bytes metadata_canonical (adaptor_metadata_bytes d)))
        (wrong_adaptor_metadata metadata_canonical)

  unfoldable pub verify_inclusion_for :
      Bytes → (leaf_index tree_size : ℕ) → List Text → Hash → MirrorResult Bool
  verify_inclusion_for bytes leaf_index tree_size inclusion_path root = do
    let leaf = log_leaf_hash d bytes
    proof ← from_ahl (proof_from_hex leaf_index tree_size inclusion_path)
    from_atl (verify_inclusion leaf proof root)
