-- ===== src/Metadata.antt =====
-- src/metadata.rs: the fixed adaptor metadata object and the log leaf hash.
use ahl_mirror.Prelude.{Bytes, Text, ◌≡◌, ◌++◌, length, codes}
use ahl_mirror.Deps.{Deps, Hash}

module _ (d : Deps) where
  open d use {Value, singleton_object, jcs, sha256, compute_leaf_hash, length-compute_leaf_hash}

  unfoldable pub adaptor_metadata_object : Value
  adaptor_metadata_object = singleton_object "ahl_adaptor" "ahl-adaptor-atl-v1"

  unfoldable pub adaptor_metadata_bytes : Bytes
  unfolding adaptor_metadata_object
  adaptor_metadata_bytes = jcs adaptor_metadata_object

  unfoldable pub metadata_hash : Hash
  unfolding adaptor_metadata_bytes
  metadata_hash = sha256 adaptor_metadata_bytes

  unfoldable pub log_leaf_hash : Bytes → Hash
  log_leaf_hash envelope_bytes =
      let payload_hash = sha256 envelope_bytes in compute_leaf_hash payload_hash metadata_hash

  pub length-log_leaf_hash : (bytes : Bytes) → length (log_leaf_hash bytes) ≡ 32
  unfolding log_leaf_hash
  length-log_leaf_hash bytes = length-compute_leaf_hash _ _

  -- `format!("sha256:{}", hex::encode(Sha256::digest(bytes)))`
  unfoldable pub sha256_id : Bytes → Text
  sha256_id bytes = codes "sha256:" ++ d.hex_encode (d.sha256 bytes)
