-- ===== src/Store/Nodes.antt =====
-- src/store.rs: one node of the log tree, and the cache of complete subtrees that promotion extends.
use ahl_mirror.Prelude.{
  ℕ, zero, suc, Bytes, Option, none, some, true, false, ◌&&◌, ◌==◌, leb, if◌then◌else◌, length,
  checked_add, checked_mul, checked_sub, checked_div, checked_rem,
}
use ahl_mirror.Error.{
  MirrorResult, MirrorError, ok, err, ok_or, index_overflow, tree_material_missing,
  tree_material_corrupt,
}
use ahl_mirror.Deps.{Deps, Hash}
use ahl_mirror.Store.Schema.{Connection, EntryRow, NodeRow, max_subtree_level, to_i64}
use ahl_mirror.Store.Exec.{Exec, pure, lift, query, execute, ◌>>=◌, ◌>>◌}
use ahl_mirror.Store.Rows.{entry_at, node_at, replace_node}

-- `Hash::try_from(bytes.as_slice())`: 32 octets or nothing.
abbrev pub hash_of_blob : ℕ → ℕ → Bytes → MirrorResult Hash
hash_of_blob level index bytes =
    if length bytes == 32 then ok bytes else err (tree_material_corrupt level index)

abbrev leaf_blob : Option EntryRow → Option Bytes
leaf_blob none = none
leaf_blob (some row) = row.leaf_hash

abbrev node_blob : Option NodeRow → Option Bytes
node_blob none = none
node_blob (some row) = some row.hash

abbrev transpose_hash : ℕ → ℕ → Option Bytes → MirrorResult (Option Hash)
transpose_hash level index none = ok none
transpose_hash level index (some bytes) =
    if length bytes == 32 then ok (some bytes) else err (tree_material_corrupt level index)

unfoldable pub tree_node_raw : Connection → ℕ → ℕ → MirrorResult (Option Hash)
tree_node_raw c level index =
    if leb index 9223372036854775807
    then transpose_hash level index (
        if level == 0
        then leaf_blob (entry_at c.entries index)
        else node_blob (node_at c.subtree_roots level index))
    else err (index_overflow "tree node index")

abbrev overflow : MirrorError
overflow = index_overflow "subtree cache index"

-- The node below, or the error that names it.
abbrev child : ℕ → ℕ → Exec Hash
child level index = do
  found ← query (λ c. tree_node_raw c level index)
  lift (ok_or (tree_material_missing level index) found)

module _ (d : Deps) where
  -- One round of the loop of `extend_subtree_cache`: the node of `level` that `count` completes.
  unfoldable pub complete_node : (level width count : ℕ) → Exec (Unit {0})
  unfolding tree_node_raw
  complete_node level width count = do
    quotient ← lift (ok_or overflow (checked_div count width))
    node_index ← lift (ok_or overflow (checked_sub quotient 1))
    left_index ← lift (ok_or overflow (checked_mul node_index 2))
    right_index ← lift (ok_or overflow (checked_add left_index 1))
    child_level ← lift (ok_or overflow (checked_sub level 1))
    left ← child child_level left_index
    right ← child child_level right_index
    index_i64 ← lift (to_i64 "subtree node index" node_index)
    execute (λ c. record c {
      subtree_roots =
          replace_node
            (record { level = level; node_index = index_i64; hash = d.hash_children left right })
            c.subtree_roots;
    })

  -- The loop, by the rounds that `level <= max_subtree_level` leaves.
  unfoldable pub climb : (rounds level width count : ℕ) → Exec (Unit {0})
  climb zero level width count = pure tt
  climb (suc rounds) level width count = elim (leb level max_subtree_level && leb width count) [
    | false ↦ pure tt
    | true ↦ do
      remainder ← lift (ok_or overflow (checked_rem count width))
      elim (remainder == 0) [
        | false ↦ pure tt
        | true ↦ do
          complete_node level width count
          next_level ← lift (ok_or overflow (checked_add level 1))
          elim (checked_mul width 2) [
            | none ↦ pure tt
            | some next_width ↦ climb rounds next_level next_width count
          ]
      ]
  ]

  unfoldable pub extend_subtree_cache : ℕ → Exec (Unit {0})
  extend_subtree_cache entry_index = do
    count ← lift (ok_or overflow (checked_add entry_index 1))
    climb max_subtree_level 1 2 count
