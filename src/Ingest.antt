-- ===== src/Ingest.antt =====
-- src/ingest.rs: staging behind the format checks, and promotion behind an inclusion proof.
pub mod Checks
pub mod Admission
pub mod History
pub mod Serving
use ahl_mirror.Prelude.{ℕ, Bytes, Text, Option, List, not}
use ahl_mirror.Error.{MirrorResult, ok_or, refuse_if, not_staged, inclusion_proof_invalid}
use ahl_mirror.Deps.{Deps, from_ahl}
use ahl_mirror.Metadata.{sha256_id}
use ahl_mirror.Store.Schema.{Connection, Checkpoint, InsertOutcome}
use ahl_mirror.Store.Exec.{Exec, lift, query, ◌>>=◌, ◌>>◌, with_transaction}
use ahl_mirror.Store.Entries
use ahl_mirror.Store.Entries.{get_staged_raw, promote_entry_raw}
use Checks.{check_entry, verify_inclusion_for}

module _ (d : Deps) where
  open d use {Value, parse_hash_hex}

  unfoldable pub stage_entry : Text → Bytes → Value → Exec InsertOutcome
  stage_entry claimed_entry_id bytes atl_metadata = do
    lift (check_entry d claimed_entry_id bytes atl_metadata)
    Entries.stage_entry (sha256_id d bytes) bytes

  unfoldable pub promote_entry_in : Checkpoint → Text → ℕ → List Text → Exec InsertOutcome
  promote_entry_in checkpoint entry_id leaf_index inclusion_path = do
    staged ← query (λ c. get_staged_raw c entry_id)
    bytes ← lift (ok_or (not_staged entry_id) staged)
    root ← lift (from_ahl (parse_hash_hex checkpoint.root_hash))
    opens ← lift (verify_inclusion_for d bytes leaf_index checkpoint.tree_size inclusion_path root)
    lift (refuse_if (not opens) (inclusion_proof_invalid entry_id leaf_index checkpoint.tree_size))
    promote_entry_raw d leaf_index entry_id

  unfoldable pub promote_entry : Checkpoint → Text → ℕ → List Text → Exec InsertOutcome
  promote_entry checkpoint entry_id leaf_index inclusion_path =
      with_transaction (promote_entry_in checkpoint entry_id leaf_index inclusion_path)
