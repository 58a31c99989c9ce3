-- ===== src/Store/Migration.antt =====
-- src/store.rs: the migration that runs when a store is opened. `add_leaf_hash_column` is SQL on the
-- table's columns: after it, a row written before the column existed has no leaf hash.
pub mod Backfill
pub mod Fold
pub mod Rebuild
pub mod Leaves
pub mod Migrated
use ahl_mirror.Prelude.{
  ℕ, zero, suc, Option, none, some, List, [], ◌∷◌, ◌++◌, Bool, true, false, ◌&&◌, ◌==◌, leb,
  if◌then◌else◌, length, map, take, select, checked_add, checked_mul, checked_div, ltb,
}
use ahl_mirror.Error.{MirrorResult, MirrorError, ok, err, ok_or, is_ok, index_overflow}
use ahl_mirror.Error
use ahl_mirror.Deps.{Deps, Hash}
use ahl_mirror.Metadata.{log_leaf_hash}
use ahl_mirror.Store.Schema.{Connection, EntryRow, NodeRow, max_subtree_level, to_i64}
use ahl_mirror.Store.Exec.{Exec, pure, lift, query, execute, ◌>>=◌, ◌>>◌}
use ahl_mirror.Store.Rows.{order_by, by_index}
use ahl_mirror.Store.Reads.{leaf_hashes_range_raw, require_subtree_cache_raw}

abbrev pub backfill_batch : ℕ
backfill_batch = 1024

-- WHERE leaf_hash IS NULL
abbrev pub lacks_leaf_hash : EntryRow → Bool
lacks_leaf_hash row = elim row.leaf_hash [ none ↦ true | some hash ↦ false ]

-- ORDER BY entry_index ASC LIMIT ?1
unfoldable pub next_batch : List EntryRow → List EntryRow
next_batch rows = take backfill_batch (order_by by_index (select lacks_leaf_hash rows))

-- UPDATE entries SET leaf_hash = ?1 WHERE entry_index = ?2
unfoldable pub set_leaf_hash : Hash → ℕ → List EntryRow → List EntryRow
set_leaf_hash hash index [] = []
set_leaf_hash hash index (row ∷ rows) =
    let rest = set_leaf_hash hash index rows in
    (if row.entry_index == index then record row { leaf_hash = some hash } else row) ∷ rest

-- The loop that sums `entries / 2 ^ level`; 63 rounds reach the width that cannot be doubled.
unfoldable pub population : (rounds width entries expected : ℕ) → MirrorResult ℕ
population zero width entries expected = ok expected
population (suc rounds) width entries expected = elim (leb width entries) [
  | false ↦ ok expected
  | true ↦
      Error.◌>>=◌ (ok_or (index_overflow "subtree cache population") (checked_div entries width))
        (λ nodes.
          Error.◌>>=◌
            (ok_or (index_overflow "subtree cache population") (checked_add expected nodes))
            (λ total. elim (checked_mul width 2) [
              | none ↦ ok total
              | some next ↦ population rounds next entries total
            ]))
]

module _ (d : Deps) where
  -- The loop over one batch.
  unfoldable pub fill_batch : List EntryRow → List EntryRow → List EntryRow
  fill_batch [] rows = rows
  fill_batch (row ∷ batch) rows =
      fill_batch batch (set_leaf_hash (log_leaf_hash d row.envelope) row.entry_index rows)

  -- `backfill_leaf_hashes`, for a number of rounds; `none` when they do not suffice.
  unfoldable pub backfill_rounds : ℕ → List EntryRow → Option (List EntryRow)
  backfill_rounds zero rows = none
  backfill_rounds (suc rounds) rows = elim (next_batch rows) [
    | [] ↦ some rows
    | ◌∷◌ row batch ↦ backfill_rounds rounds (fill_batch (row ∷ batch) rows)
  ]

  -- One round of `rebuild_subtree_cache` over `as_chunks::<2>()`, from a node index on. The table was
  -- emptied before, and no level and index is written twice, so `INSERT` is an append.
  unfoldable pub fold_level : (level node_index : ℕ) → List Hash → Exec (List Hash)
  fold_level level node_index [] = pure []
  fold_level level node_index (left ∷ []) = pure []
  fold_level level node_index (left ∷ right ∷ rest) = do
    index ← lift (to_i64 "subtree node index" node_index)
    execute (λ c. record c {
      subtree_roots =
          c.subtree_roots
          ++ record { level = level; node_index = index; hash = d.hash_children left right } ∷ [];
    })
    nodes ← fold_level level (suc node_index) rest
    pure (d.hash_children left right ∷ nodes)

  -- The loop over the levels, by the rounds that `level <= MAX_SUBTREE_LEVEL` leaves.
  unfoldable pub fold_levels : (rounds level : ℕ) → List Hash → Exec (Unit {0})
  fold_levels zero level current = pure tt
  fold_levels (suc rounds) level current =
      elim (leb 2 (length current) && leb level max_subtree_level) [
        | false ↦ pure tt
        | true ↦ do
          next ← fold_level level 0 current
          next_level ←
              lift (ok_or (index_overflow "subtree cache population") (checked_add level 1))
          fold_levels rounds next_level next
      ]

  unfoldable pub rebuild_subtree_cache : ℕ → Exec (Unit {0})
  rebuild_subtree_cache entries = do
    execute (λ c. record c { subtree_roots = [] })
    current ← query (λ c. leaf_hashes_range_raw c 0 entries)
    fold_levels max_subtree_level 1 current

  -- `COUNT(*)` of the entries and of the nodes.
  unfoldable pub rebuild_subtree_cache_if_incomplete : Exec (Unit {0})
  rebuild_subtree_cache_if_incomplete = do
    entries ← query (λ c. ok (length c.entries))
    expected ← lift (population 63 2 entries 0)
    complete ← query (λ c.
        ok (length c.subtree_roots == expected && is_ok (require_subtree_cache_raw c entries)))
    elim complete [ true ↦ pure tt | false ↦ rebuild_subtree_cache entries ]

  -- `migrate`, with the rounds of the backfill that the number of rows makes enough.
  unfoldable pub backfill_leaf_hashes : Connection → Option Connection
  backfill_leaf_hashes c = elim (backfill_rounds (suc (length c.entries)) c.entries) [
    | none ↦ none
    | some rows ↦ some (record c { entries = rows })
  ]

  unfoldable pub migrate : Connection → Option (MirrorResult (Unit {0}) × Connection)
  migrate c = elim (backfill_leaf_hashes c) [
    | none ↦ none
    | some filled ↦ some (rebuild_subtree_cache_if_incomplete filled)
  ]
