-- ===== src/Tests/Data.antt =====
-- Concrete entries, stores and checkpoints for the instances of the theorems.
use ahl_mirror.Prelude.{ℕ, Bytes, Text, List, [], ◌∷◌, some, codes}
use ahl_mirror.Deps.{Hash}
use ahl_mirror.Metadata.{sha256_id, log_leaf_hash, adaptor_metadata_bytes}
use ahl_mirror.Config.{Config, ResolvedKeyObject}
use ahl_mirror.Store.Schema.{Connection, Checkpoint, StagedRow, EntryRow, empty}
use ahl_mirror.Ingest.History.{Request, stage, promote}
use ahl_mirror.Manifest.State.{GovernanceState}
use ahl_mirror.Tests.Toy.{toy, hash_of, log_digest, write_time}

abbrev pub envelope : Bytes
envelope = codes "manifest"

abbrev pub id : Text
id = sha256_id toy envelope

abbrev pub path : List Text
path = log_leaf_hash toy envelope ∷ []

abbrev pub root : Hash
root = hash_of 3

abbrev pub metadata : Bytes
metadata = adaptor_metadata_bytes toy

abbrev pub checkpoint_at : (size : ℕ) → Hash → Checkpoint
checkpoint_at size root_hash = record {
  log_id = log_digest;
  tree_size = size;
  root_hash = root_hash;
  checkpoint_time = write_time 5;
  key_id = codes "sha256:k";
  signature = codes "k";
}

abbrev pub checkpoint : Checkpoint
checkpoint = checkpoint_at 1 root

abbrev pub staged_row : StagedRow
staged_row = record { entry_id = id; envelope = envelope }

abbrev pub staged_store : Connection
staged_store = record empty { staged_entries = staged_row ∷ [] }

abbrev pub entry_row : EntryRow
entry_row = record {
  entry_index = 0;
  entry_id = id;
  envelope = envelope;
  leaf_hash = some (log_leaf_hash toy envelope);
}

abbrev pub entry_store : Connection
entry_store = record empty { entries = entry_row ∷ [] }

abbrev pub staging : List (Request toy)
staging = stage id envelope metadata ∷ []

abbrev pub promoting : List (Request toy)
promoting = stage id envelope metadata ∷ promote checkpoint id 0 path ∷ []

abbrev pub key_from : ℕ → ResolvedKeyObject toy
key_from index = record {
  key_id = codes "sha256:k";
  verifying_key = codes "k";
  pubkey = codes "k";
  valid_from_index = index;
}

abbrev pub config : Config toy
config = record {
  log_id = log_digest;
  genesis_manifest_entry_id = envelope;
  genesis_producer_keys = key_from 0 ∷ [];
  store_path = [];
}

-- The version that a first entry `envelope` installs, at an entry index and with its log keys.
abbrev pub version_at : ℕ → List (ResolvedKeyObject toy) → GovernanceState toy
version_at index log_keys = record {
  producer_keys = [];
  log_keys = log_keys;
  witness_keys = [];
  cadence_nanos = 3_600_000_000_000;
  cadence_epoch_nanos = 0;
  governing_manifest_entry_index = index;
  governing_manifest_entry_id = envelope;
  genesis_entry_index = 0;
}

abbrev pub genesis_version : GovernanceState toy
genesis_version = version_at 0 (key_from 0 ∷ [])
