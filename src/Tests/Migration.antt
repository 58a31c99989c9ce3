-- ===== src/Tests/Migration.antt =====
-- Instances of the theorems on the migration of src/store.rs, on a store from before the leaf hashes.
use ahl_mirror.Prelude.{ℕ, none, some, List, [], ◌∷◌, ◌≡◌, ◌≢◌, refl, ap, arith, inl, map, select}
use ahl_mirror.Error.{ok}
use ahl_mirror.Store.Schema.{Connection, EntryRow, NodeRow, empty}
use ahl_mirror.Store.Rows.{node_at}
use ahl_mirror.Store.Tree.{IsValid, Numbered, DistinctIds}
use ahl_mirror.Store.Migration.{
  lacks_leaf_hash, backfill_leaf_hashes, rebuild_subtree_cache, migrate,
}
use ahl_mirror.Store.Migration.Backfill.{
  filled, backfill_leaf_hashes_terminates, backfill_leaf_hashes_lem,
}
use ahl_mirror.Store.Migration.Migrated.{LeavesRight, rebuild_agrees, migrate-IsValid}
use ahl_mirror.Tests.Toy.{toy}
use ahl_mirror.Tests.Data.{envelope, id}

abbrev old_row : ℕ → EntryRow
old_row index = record {
  entry_index = index;
  entry_id = index ∷ id;
  envelope = envelope;
  leaf_hash = none;
}

abbrev old_store : Connection
old_store = record empty { entries = old_row 0 ∷ old_row 1 ∷ old_row 2 ∷ [] }

ids_apart : (a b : ℕ) → a ≢ b → (old_row a).entry_id ≢ (old_row b).entry_id
ids_apart a b h e = h (ap (λ (text : List ℕ). elim text [ [] ↦ a | ◌∷◌ x rest ↦ x ]) e)

old-Numbered : Numbered 0 old_store.entries
old-Numbered = (refl, (refl, (refl, tt)))

old_ids : DistinctIds old_store.entries
old_ids = (
  (ids_apart 1 0 (omega arith), (ids_apart 2 0 (omega arith), tt)),
  ((ids_apart 2 1 (omega arith), tt), (tt, tt)),
)

old_leaves : LeavesRight toy old_store.entries
old_leaves = (inl refl, (inl refl, (inl refl, tt)))

backfill_leaf_hashes_terminates_example :
    (after : Connection) × (backfill_leaf_hashes toy old_store ≡ some after)
    × (select lacks_leaf_hash after.entries ≡ [])
backfill_leaf_hashes_terminates_example = backfill_leaf_hashes_terminates toy old_store

backfill_leaf_hashes_example :
    backfill_leaf_hashes toy old_store
    ≡ some (record old_store { entries = map (filled toy) old_store.entries })
backfill_leaf_hashes_example = backfill_leaf_hashes_lem toy old_store old-Numbered

migrate-IsValid_example :
    (roots : List NodeRow) × (migrate toy old_store
      ≡ some (
        ok tt,
        record old_store { entries = map (filled toy) old_store.entries; subtree_roots = roots },
      ))
    × IsValid toy
        (record old_store { entries = map (filled toy) old_store.entries; subtree_roots = roots })
migrate-IsValid_example =
    migrate-IsValid toy old_store old-Numbered old_ids old_leaves (omega arith) (inl refl)

-- The store that the migration leaves.
new_roots : List NodeRow
new_roots =
    (migrate-IsValid toy old_store old-Numbered old_ids old_leaves (omega arith) (inl refl)).0

abbrev new_store : Connection
new_store = record old_store {
  entries = map (filled toy) old_store.entries;
  subtree_roots = new_roots;
}

new_store-IsValid : IsValid toy new_store
unfolding new_roots
new_store-IsValid =
    (migrate-IsValid toy old_store old-Numbered old_ids old_leaves (omega arith) (inl refl)).2

rebuild_agrees_example :
    node_at (rebuild_subtree_cache toy 3 new_store).1.subtree_roots 1 0
    ≡ node_at new_store.subtree_roots 1 0
rebuild_agrees_example = rebuild_agrees toy new_store 0 0 new_store-IsValid (omega arith)
