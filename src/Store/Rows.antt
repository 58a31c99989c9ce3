-- ===== src/Store/Rows.antt =====
-- The lookups that the queries of src/store.rs make, and `ORDER BY`.
use ahl_mirror.Prelude.{
  ℕ, Text, Option, none, some, List, [], ◌∷◌, Bool, ◌&&◌, ◌||◌, ◌==◌, leb, ltb, eq_bytes, max,
  le_bytes, if◌then◌else◌, find_row, select, not, ◌++◌,
}
use ahl_mirror.Store.Schema.{Connection, StagedRow, EntryRow, NodeRow, Checkpoint}

-- WHERE entry_id = ?1 (staged_entries)
unfoldable pub staged_at : Connection → Text → Option StagedRow
staged_at c entry_id = find_row (λ row. eq_bytes row.entry_id entry_id) c.staged_entries

-- WHERE entry_index = ?1
unfoldable pub entry_at : List EntryRow → ℕ → Option EntryRow
entry_at rows index = find_row (λ row. row.entry_index == index) rows

-- WHERE entry_id = ?1 (entries)
unfoldable pub entry_by_id : List EntryRow → Text → Option EntryRow
entry_by_id rows entry_id = find_row (λ row. eq_bytes row.entry_id entry_id) rows

-- MAX(entry_index), NULL for no rows
unfoldable pub max_index : List EntryRow → Option ℕ
max_index [] = none
max_index (row ∷ rows) = elim (max_index rows) [
  | none ↦ some row.entry_index
  | some m ↦ some (max row.entry_index m)
]

-- WHERE level = ?1 AND node_index = ?2
unfoldable pub node_at : List NodeRow → ℕ → ℕ → Option NodeRow
node_at rows level index = find_row (λ row. row.level == level && row.node_index == index) rows

-- INSERT OR REPLACE INTO subtree_roots
unfoldable pub replace_node : NodeRow → List NodeRow → List NodeRow
replace_node new rows =
    select (λ row. not (row.level == new.level && row.node_index == new.node_index)) rows
    ++ new ∷ []

module _ {ℓ} {A : Type ℓ} (before : A → A → Bool) where
  -- Insertion before the first row that does not sort before it: equal rows keep their order.
  unfoldable pub insert_ordered : A → List A → List A
  insert_ordered x [] = x ∷ []
  insert_ordered x (y ∷ ys) =
      let rest = insert_ordered x ys in if before x y then x ∷ y ∷ ys else y ∷ rest

  -- ORDER BY
  unfoldable pub order_by : List A → List A
  unfolding insert_ordered
  order_by [] = []
  order_by (x ∷ xs) = insert_ordered x (order_by xs)

-- ORDER BY entry_index ASC
abbrev pub by_index : EntryRow → EntryRow → Bool
by_index a b = leb a.entry_index b.entry_index

-- (tree_size, checkpoint_time) of `a` at most that of `b`
unfoldable pub at_most : Checkpoint → Checkpoint → Bool
at_most a b =
    ltb a.tree_size b.tree_size
    || (a.tree_size == b.tree_size && le_bytes a.checkpoint_time b.checkpoint_time)

-- WHERE entry_index >= ?1 AND entry_index < ?2 ORDER BY entry_index ASC
unfoldable pub rows_between : Connection → ℕ → ℕ → List EntryRow
rows_between c from to =
    order_by by_index (select (λ row. leb from row.entry_index && ltb row.entry_index to) c.entries)
