-- ===== src/Series/Usable.antt =====
-- src/checkpoint.rs: whether a checkpoint is series-usable, decided from the stored tree material.
use ahl_mirror.Prelude.{ℕ, Option, none, some, Bool, true, false, ◌==◌, eq_bytes}
use ahl_mirror.Error.{
  MirrorError, MirrorResult, ok, tree_material_missing, tree_material_corrupt, store, store_init,
  ◌>>=◌, ◌>>◌,
}
use ahl_mirror.Deps.{Deps, from_ahl, from_atl}
use ahl_mirror.Store.Schema.{Connection, Checkpoint}
use ahl_mirror.Store.Reads.{
  count_entries_raw, require_subtree_cache_raw, log_root_raw, consistency_proof_measured_raw,
}

unfoldable pub holds_prefix : Connection → ℕ → MirrorResult Bool
holds_prefix c tree_size = do
  count ← count_entries_raw c 0 tree_size
  elim (count == tree_size) [
    | false ↦ ok false
    | true ↦ (do require_subtree_cache_raw c tree_size; ok true)
  ]

unfoldable pub is_storage_fault : MirrorError → Bool
is_storage_fault (tree_material_missing level index) = true
is_storage_fault (tree_material_corrupt level index) = true
is_storage_fault (store message) = true
is_storage_fault (store_init message) = true
is_storage_fault _ = false

module _ (d : Deps) where
  open d use {parse_hash_hex, verify_consistency}

  unfoldable pub root_matches_stored : Connection → Checkpoint → MirrorResult Bool
  root_matches_stored c cp = do
    claimed ← from_ahl (parse_hash_hex cp.root_hash)
    root ← log_root_raw d c cp.tree_size
    ok (eq_bytes root claimed)

  unfoldable pub series_consistency_stored :
      Connection → (from_cp to_cp : Checkpoint) → MirrorResult Bool
  series_consistency_stored c from_cp to_cp = do
    from_root ← from_ahl (parse_hash_hex from_cp.root_hash)
    to_root ← from_ahl (parse_hash_hex to_cp.root_hash)
    (proof, cost) ← consistency_proof_measured_raw d c from_cp.tree_size to_cp.tree_size
    from_atl (verify_consistency proof from_root to_root)

  abbrev consistent_with : Connection → Option Checkpoint → Checkpoint → MirrorResult Bool
  consistent_with c none cp = ok true
  consistent_with c (some pred) cp = series_consistency_stored c pred cp

  unfoldable pub series_usable_stored :
      Connection → Checkpoint → Option Checkpoint → MirrorResult Bool
  series_usable_stored c cp pred = do
    held ← holds_prefix c cp.tree_size
    elim held [
      | false ↦ ok false
      | true ↦ (do
        matches ← root_matches_stored c cp
        elim matches [ false ↦ ok false | true ↦ consistent_with c pred cp ])
    ]
