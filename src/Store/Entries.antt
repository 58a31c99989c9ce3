-- ===== src/Store/Entries.antt =====
-- src/store.rs: staging, promotion and the reads of canonical entries.
use ahl_mirror.Prelude.{
  ℕ, Bytes, Text, Option, none, some, [], ◌∷◌, ◌++◌, ◌&&◌, ◌==◌, eq_bytes, if◌then◌else◌, not,
}
use ahl_mirror.Error.{
  MirrorResult, ok, err, ok_or, refuse_if, index_conflict, not_staged, entry_id_at_different_index,
  out_of_order_index,
}
use ahl_mirror.Deps.{Deps}
use ahl_mirror.Metadata.{log_leaf_hash}
use ahl_mirror.Store.Schema.{
  Connection, EntryRow, StoredEntry, InsertOutcome, inserted, already_present, to_i64, next_after,
}
use ahl_mirror.Store.Exec.{Exec, pure, lift, query, execute, ◌>>=◌, ◌>>◌, with_transaction}
use ahl_mirror.Store.Rows.{staged_at, entry_at, entry_by_id, max_index}
use ahl_mirror.Store.Nodes.{extend_subtree_cache}

-- `Store::stage_entry`
unfoldable pub stage_entry : Text → Bytes → Exec InsertOutcome
stage_entry entry_id bytes c = elim (staged_at c entry_id) [
  | some existing ↦
      (if eq_bytes existing.envelope bytes
        then (ok already_present, c)
        else (err (index_conflict 0 entry_id entry_id), c))
  | none ↦ (
    ok inserted,
    record c {
      staged_entries = c.staged_entries ++ record { entry_id = entry_id; envelope = bytes } ∷ [];
    },
  )
]

unfoldable pub get_staged_raw : Connection → Text → MirrorResult (Option Bytes)
get_staged_raw c entry_id = elim (staged_at c entry_id) [
  | none ↦ ok none
  | some row ↦ ok (some row.envelope)
]

-- The next index, from the greatest one stored.
abbrev pub index_after : Option ℕ → MirrorResult ℕ
index_after none = ok 0
index_after (some m) = next_after "next_index" m

unfoldable pub next_index : Connection → MirrorResult ℕ
next_index c = index_after (max_index c.entries)

-- The occupant of an index: the same entry, or a conflict.
abbrev check_occupant : ℕ → Text → Bytes → EntryRow → MirrorResult InsertOutcome
check_occupant index id bytes row =
    if eq_bytes row.entry_id id && eq_bytes row.envelope bytes
    then ok already_present
    else err (index_conflict index row.entry_id id)

module _ (d : Deps) where
  -- The last part of `promote_entry_raw`, at an index that is free, of an id that is new.
  unfoldable pub append_entry : ℕ → Text → Bytes → Exec InsertOutcome
  append_entry index entry_id bytes = do
    expected ← query next_index
    lift (refuse_if (not (index == expected)) (out_of_order_index expected index))
    execute (λ c. record c {
      entries =
          c.entries
          ++ record {
            entry_index = index;
            entry_id = entry_id;
            envelope = bytes;
            leaf_hash = some (log_leaf_hash d bytes);
          }
            ∷ [];
    })
    extend_subtree_cache d index
    pure inserted

  unfoldable pub promote_entry_raw : ℕ → Text → Exec InsertOutcome
  unfolding get_staged_raw
  promote_entry_raw entry_index entry_id = do
    index_i64 ← lift (to_i64 "entry_index" entry_index)
    staged ← query (λ c. get_staged_raw c entry_id)
    bytes ← lift (ok_or (not_staged entry_id) staged)
    at_index ← query (λ c. ok (entry_at c.entries index_i64))
    elim at_index [
      | some row ↦ lift (check_occupant entry_index entry_id bytes row)
      | none ↦ do
        of_id ← query (λ c. ok (entry_by_id c.entries entry_id))
        elim of_id [
          | some row ↦ lift (err (entry_id_at_different_index entry_id row.entry_index entry_index))
          | none ↦ append_entry entry_index entry_id bytes
        ]
    ]

  -- `Store::promote_entry`
  unfoldable pub promote_entry : ℕ → Text → Exec InsertOutcome
  unfolding promote_entry_raw with_transaction
  promote_entry entry_index entry_id = with_transaction (promote_entry_raw entry_index entry_id)

-- `Store::get_entry_by_id`
unfoldable pub get_entry_by_id : Connection → Text → MirrorResult (Option StoredEntry)
get_entry_by_id c entry_id = elim (entry_by_id c.entries entry_id) [
  | none ↦ ok none
  | some row ↦ ok (some (record { entry_index = row.entry_index; envelope = row.envelope }))
]
