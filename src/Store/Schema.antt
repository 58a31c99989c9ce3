-- ===== src/Store/Schema.antt =====
-- src/store.rs: `SCHEMA` and the row types, and the checkpoint object of src/checkpoint.rs that the
-- rows hold. A table is the list of its rows in the order of their insertion. Every `INTEGER` column
-- is written by `to_i64` of a `u64`, so it holds a natural number up to `i64_max`.
use ahl_mirror.Prelude.{
  ℕ, Bytes, Text, Option, List, [], Bool, true, ◌&&◌, ◌==◌, eq_bytes, leb, if◌then◌else◌, i64_max,
  String, checked_add, ◌≡◌, arith, eq_bytes→eq, eq_bytes_refl,
}
use ahl_mirror.Error.{MirrorResult, ok, err, index_overflow, ok_or}

pub data InsertOutcome : Type 0 where
  inserted already_present : InsertOutcome

pub record StoredEntry : Type 0 where
  pub entry_index : ℕ
  pub envelope : Bytes

-- `Checkpoint` of src/checkpoint.rs.
pub record Checkpoint : Type 0 where
  pub log_id : Text
  pub tree_size : ℕ
  pub root_hash : Text
  pub checkpoint_time : Text
  pub key_id : Text
  pub signature : Text

-- `==` on checkpoints, derived field by field.
unfoldable pub eq_checkpoint : Checkpoint → Checkpoint → Bool
eq_checkpoint a b =
    eq_bytes a.log_id b.log_id
    && (a.tree_size == b.tree_size
        && (eq_bytes a.root_hash b.root_hash
            && (eq_bytes a.checkpoint_time b.checkpoint_time
                && (eq_bytes a.key_id b.key_id && eq_bytes a.signature b.signature))))

pub record StagedRow : Type 0 where
  pub entry_id : Text
  pub envelope : Bytes

pub record EntryRow : Type 0 where
  pub entry_index : ℕ
  pub entry_id : Text
  pub envelope : Bytes
  pub leaf_hash : Option Bytes

pub record RotationRow : Type 0 where
  pub manifest_entry_index : ℕ
  pub checkpoint : Checkpoint

pub record NodeRow : Type 0 where
  pub level : ℕ
  pub node_index : ℕ
  pub hash : Bytes

-- The database behind a connection.
pub record Connection : Type 0 where
  pub staged_entries : List StagedRow
  pub entries : List EntryRow
  pub checkpoints : List Checkpoint
  pub rotation_checkpoints : List RotationRow
  pub subtree_roots : List NodeRow

abbrev pub empty : Connection
empty = record {
  staged_entries = [];
  entries = [];
  checkpoints = [];
  rotation_checkpoints = [];
  subtree_roots = [];
}

abbrev pub max_subtree_level : ℕ
max_subtree_level = 63

abbrev pub to_i64 : String → ℕ → MirrorResult ℕ
to_i64 what value = if leb value i64_max then ok value else err (index_overflow what)

-- One past a stored `MAX(entry_index)`. The stored value is not negative, so `to_u64` keeps it.
abbrev pub next_after : String → ℕ → MirrorResult ℕ
next_after what value = ok_or (index_overflow what) (checked_add value 1)

pub eq_checkpoint→eq : (a b : Checkpoint) → eq_checkpoint a b ≡ true → a ≡ b
unfolding eq_checkpoint
eq_checkpoint→eq a b h = ground (
  arith,
  eq_bytes→eq a.log_id b.log_id,
  eq_bytes→eq a.root_hash b.root_hash,
  eq_bytes→eq a.checkpoint_time b.checkpoint_time,
  eq_bytes→eq a.key_id b.key_id,
  eq_bytes→eq a.signature b.signature,
)

pub eq_checkpoint_refl : (a : Checkpoint) → eq_checkpoint a a ≡ true
unfolding eq_checkpoint
eq_checkpoint_refl a = ground (
  arith,
  eq_bytes_refl a.log_id,
  eq_bytes_refl a.root_hash,
  eq_bytes_refl a.checkpoint_time,
  eq_bytes_refl a.key_id,
  eq_bytes_refl a.signature,
)
