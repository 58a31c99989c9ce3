-- ===== src/Series/Signature.antt =====
-- src/checkpoint.rs: the 98-byte signed blob, and the check of a checkpoint's identity and signature.
pub mod Blob
use ahl_mirror.Prelude.{
  ℕ, zero, suc, ◌%◌, ◌/◌, Text, Bytes, Option, none, some, [], ◌∷◌, ◌++◌, Bool, false, not,
  eq_bytes, codes,
}
use ahl_mirror.Error.{
  MirrorResult, ok, refuse_if, wrong_log_id, raw_blob_mismatch, signature_invalid, ◌>>=◌, ◌>>◌,
}
use ahl_mirror.Deps.{Deps, from_ahl}
use ahl_mirror.Store.Schema.{Checkpoint}
use ahl_mirror.Series.Time.{parse_checkpoint_time}

abbrev pub checkpoint_magic : Bytes
checkpoint_magic = codes "ATL-Protocol-v1-CP"

-- The `n` low bytes of a number, the lowest first: `to_le_bytes` at `n = 8`.
unfoldable pub le_octets : ℕ → ℕ → Bytes
le_octets zero value = []
le_octets (suc n) value = (value % 256) ∷ le_octets n (value / 256)

abbrev raw_differs : Option Bytes → Bytes → Bool
raw_differs none blob = false
raw_differs (some raw) blob = not (eq_bytes raw blob)

module _ (d : Deps) where
  open d use {VerifyingKey, parse_hash_hex, verify_signature}

  unfoldable pub checkpoint_blob : Checkpoint → MirrorResult Bytes
  checkpoint_blob cp = do
    origin ← from_ahl (parse_hash_hex cp.log_id)
    root ← from_ahl (parse_hash_hex cp.root_hash)
    nanos ← parse_checkpoint_time d cp.checkpoint_time
    ok (checkpoint_magic ++ (origin ++ (le_octets 8 cp.tree_size ++ (le_octets 8 nanos ++ root))))

  unfoldable pub verify_checkpoint_signature :
      Checkpoint → (raw : Option Bytes) → (log_id : Text) → VerifyingKey → MirrorResult (Unit {0})
  verify_checkpoint_signature cp raw log_id key = do
    refuse_if (not (eq_bytes cp.log_id log_id)) (wrong_log_id log_id cp.log_id)
    blob ← checkpoint_blob cp
    refuse_if (raw_differs raw blob) raw_blob_mismatch
    verified ← from_ahl (verify_signature key blob cp.signature)
    refuse_if (not verified) (signature_invalid cp.key_id)
