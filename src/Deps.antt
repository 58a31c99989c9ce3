-- ===== src/Deps.antt =====
-- What the mirror takes from the crates that it depends on (sha2, hex, serde_json, atl-core,
-- ahl-core, ed25519-dalek, base64, time): parameters of the model, with the documented behaviour that
-- the code relies on as laws.
use ahl_mirror.Prelude.{ℕ, Bytes, Text, Option, List, String, Bool, length, ◌≡◌, ◌⊎◌, inl, inr}
use ahl_mirror.Error.{MirrorResult, ok, err, ahl, atl, json}

-- A hash is `[u8; 32]`, here a byte string; the laws give its length.
abbrev pub Hash : Type 0
Hash = Bytes

-- A dependency's own result: its error's message, or a value.
abbrev pub Fallible {ℓ} : Type ℓ → Type ℓ
Fallible A = Text ⊎ A

-- The `#[from]` conversions that `?` applies.
abbrev pub from_ahl {ℓ} : {A : Type ℓ} → Fallible A → MirrorResult A
from_ahl (inl message) = err (ahl message)
from_ahl (inr a) = ok a

abbrev pub from_atl {ℓ} : {A : Type ℓ} → Fallible A → MirrorResult A
from_atl (inl message) = err (atl message)
from_atl (inr a) = ok a

abbrev pub from_json {ℓ} : {A : Type ℓ} → Fallible A → MirrorResult A
from_json (inl message) = err (json message)
from_json (inr a) = ok a

-- A proof or root builder of atl-core, which reads the tree through a callback
-- `(level, index) -> Option<Hash>`: it returns, or asks for a node and goes on with the answer.
pub data Walk (A : Type 0) : Type 0 where
  returns : Fallible A → Walk A
  asks : (level index : ℕ) → (Option Hash → Walk A) → Walk A

-- A key object as deserialized, `KeyObjectSpec` of src/config.rs.
pub record KeyObjectSpec : Type 0 where
  pub key_id : Text
  pub pubkey : Text
  pub valid_from_index : ℕ

-- The manifest's `log` block and one element of its `witnesses` array, as deserialized
-- (`LogBlock` and `WitnessBlock` of src/manifest.rs), less the members that nothing reads.
pub record LogBlock : Type 0 where
  pub log_id : Text
  pub checkpoint_cadence : Text
  pub cadence_epoch : Text
  pub witness_grace_period : Text
  pub keys : List KeyObjectSpec

pub record WitnessBlock : Type 0 where
  pub witness_id : Text
  pub keys : List KeyObjectSpec

-- sha2, hex and the hashes of atl_core::core::merkle.
pub record Hashing : Type 0 where
  pub sha256 : Bytes → Hash
  pub hex_encode : Bytes → Text
  pub compute_leaf_hash : Hash → Hash → Hash
  pub hash_children : Hash → Hash → Hash
  -- `compute_root(&[])`
  pub empty_root : Hash
  pub length-compute_leaf_hash : (a b : Hash) → length (compute_leaf_hash a b) ≡ 32
  pub length-hash_children : (a b : Hash) → length (hash_children a b) ≡ 32

-- serde_json's `Value`, and ahl_core's canonicalization of it.
pub record Json : Type 1 where
  pub Value : Type 0
  pub from_slice : Bytes → Fallible Value
  pub is_object : Value → Bool
  pub get : Value → String → Option Value
  pub as_str : Value → Option Text
  pub as_array : Value → Option (List Value)
  -- `json!({ key: text })`
  pub singleton_object : String → String → Value
  pub jcs : Value → Bytes
  -- `serde_json::from_value` at the types that the manifest walk reads
  pub key_object : Value → Option KeyObjectSpec
  pub key_objects : Value → Option (List KeyObjectSpec)
  pub log_block : Value → Option LogBlock
  pub witness_blocks : Value → Option (List WitnessBlock)

-- The rest of atl_core::core::merkle.
pub record Merkle : Type 1 where
  pub InclusionProof : Type 0
  pub ConsistencyProof : Type 0
  pub verify_inclusion : Hash → InclusionProof → Hash → Fallible Bool
  pub verify_consistency : ConsistencyProof → Hash → Hash → Fallible Bool
  pub generate_inclusion_proof : (leaf_index tree_size : ℕ) → Walk InclusionProof
  pub generate_consistency_proof : (from_size to_size : ℕ) → Walk ConsistencyProof
  pub compute_subtree_root : (offset size : ℕ) → Walk Hash
  pub largest_power_of_2_less_than : ℕ → ℕ

-- Keys and times: ed25519-dalek, atl_core's key id, ahl_core's decoding, the `time` crate.
pub record Keys : Type 1 where
  pub VerifyingKey : Type 0
  pub decode_pubkey : Text → Fallible VerifyingKey
  -- `atl_core::compute_key_id(verifying_key.as_bytes())`
  pub compute_key_id : VerifyingKey → Hash
  pub verify_signature : VerifyingKey → Bytes → Text → Fallible Bool
  -- `OffsetDateTime::parse(value, &Rfc3339)` as unix nanoseconds, if it parses and fits `u64`
  pub parse_rfc3339 : Text → Option ℕ
  -- `PrimitiveDateTime::parse(value, CHECKPOINT_TIME_FORMAT)` likewise
  pub parse_profile_time : Text → Option ℕ
  -- `OffsetDateTime::from_unix_timestamp_nanos` and `format(CHECKPOINT_TIME_FORMAT)`
  pub format_profile_time : ℕ → Option Text

-- Everything together, with what ahl_core says of entries and proofs.
pub record Deps : Type 1 where
  pub hashing : Hashing
  pub open hashing use *
  pub json_values : Json
  pub open json_values use *
  pub merkle : Merkle
  pub open merkle use *
  pub keys : Keys
  pub open keys use *
  pub parse_hash_hex : Text → Fallible Hash
  pub proof_from_hex : (leaf_index tree_size : ℕ) → List Text → Fallible InclusionProof
  pub proof_path_hex : InclusionProof → List Text
  pub entry_id : Value → Text
  pub verify_envelope : Value → (Text → Option Text) → Fallible Bool
  pub ahl_version : Text
